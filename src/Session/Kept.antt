-- ===== src/Session/Kept.antt =====
-- The buffer of packets that wait for their acknowledgement, the `pkgBuff` of core/session.go: which
-- steps leave a packet in it as it is.
pub mod Methods
pub mod Handling
pub mod Store
mod Tests
use sara.Common.{
  ◌≡◌, refl, ◌∙◌, Bool, true, false, List, [], ◌∷◌, Option, none, some, if◌then◌else◌, Bytes,
  bytes_eq, bytes_eq_iff, lookup, lookup-insert, insert, Result, ok, err, Outcome, ret, panic, Exec,
  All, pure, fault, continue, for_each, ◌>>=◌, ◌>>◌, arith, Bool-cases, inl, inr,
}
use sara.Jid.{Jid}
use sara.Packet.{Packet}
use sara.Session.Payload.{Ensures}
use sara.Session.State.{Env, Shared, World, Session, shared, deref, read_session, update_session}

-- The packet waits in the buffer, under its id.
abbrev pub Waits : Packet → List (Bytes × Packet) → Type 0
Waits kept buff = lookup kept.envelope.id buff ≡ some kept

-- A packet with another id.
abbrev pub IsOther : Packet → Packet → Type 0
IsOther kept p = bytes_eq p.envelope.id kept.envelope.id ≡ false

pub Waits-insert :
    (kept p : Packet) (buff : List (Bytes × Packet))
    → IsOther kept p
    → Waits kept buff
    → Waits kept (insert p.envelope.id p buff)
Waits-insert kept p buff other h = rw (lookup-insert p.envelope.id kept.envelope.id p buff, other) h

-- A step behind which the packet still waits, also if the step panics.
pub record Keeps (kept : Packet) {env : Env} {A : Type 0} (m : Exec (World env) A) : Type 0 where
  pub at : (w : World env) → Waits kept w.session.pkg_buff → Waits kept (m w).1.session.pkg_buff

module _ {kept : Packet} {env : Env} where
  continue-Keeps :
      {A B : Type 0} (f : A → Exec (World env) B) (o : Outcome A) (v : World env)
      → ((a : A) → Keeps kept (f a))
      → Waits kept v.session.pkg_buff
      → Waits kept (continue f o v).1.session.pkg_buff
  continue-Keeps f (ret a) v hf h = (hf a).at v h
  continue-Keeps f panic v hf h = h

  pub Keeps-bind :
      {A B : Type 0} (m : Exec (World env) A) (f : A → Exec (World env) B)
      → Keeps kept m
      → ((a : A) → Keeps kept (f a))
      → Keeps kept (m >>= f)
  unfolding ◌>>=◌
  Keeps-bind m f hm hf = record { at = λ w h. continue-Keeps f (m w).0 (m w).1 hf (hm.at w h) }

  pub Keeps-shared : {A : Type 0} (m : Exec (Shared env) A) → Keeps kept (shared env m)
  unfolding shared
  Keeps-shared m = record { at = λ w h. h }

  pub Keeps-pure : {A : Type 0} (a : A) → Keeps kept {env = env} (pure a)
  unfolding pure
  Keeps-pure a = record { at = λ w h. h }

  pub Keeps-deref : (j : Result Jid) → Keeps kept {env = env} (deref j)
  unfolding deref pure fault
  Keeps-deref (ok j) = record { at = λ w h. h }
  Keeps-deref (err e) = record { at = λ w h. h }

  pub Keeps-read : {A : Type 0} (f : Session → A) → Keeps kept (read_session env f)
  unfolding read_session
  Keeps-read f = record { at = λ w h. h }

  pub Keeps-update :
      (f : Session → Session)
      → ((s : Session) → Waits kept s.pkg_buff → Waits kept (f s).pkg_buff)
      → Keeps kept (update_session env f)
  unfolding update_session
  Keeps-update f h = record { at = λ w. h w.session }

  pub Keeps-if :
      {A : Type 0} (b : Bool) (x y : Exec (World env) A)
      → Keeps kept x
      → Keeps kept y
      → Keeps kept (if b then x else y)
  Keeps-if true x y hx hy = hx
  Keeps-if false x y hx hy = hy

  pub for_each-Keeps :
      {A : Type 0} (body : A → Exec (World env) (Unit {0})) (xs : List A)
      → All (λ x. Keeps kept (body x)) xs
      → Keeps kept (for_each body xs)
  unfolding for_each
  for_each-Keeps body [] h = Keeps-pure tt
  for_each-Keeps body (x ∷ xs) (h, hs) = Keeps-bind _ _ h λ _. for_each-Keeps body xs hs

  -- What is done with the result of a step on the shared state.
  pub Keeps-ensured :
      {A B : Type 0} (Q : A → Type 0) (m : Exec (Shared env) A) (f : A → Exec (World env) B)
      → Ensures Q m
      → ((a : A) → Q a → Keeps kept (f a))
      → Keeps kept (shared env m >>= f)
  unfolding ◌>>=◌ shared
  Keeps-ensured {A} {B} Q m f hm hf = record {
    at = λ w h. go (m w.shared).0 (record w { shared = (m w.shared).1 }) (hm.at w.shared) h;
  }
    where
      go :
          (o : Outcome A) (v : World env)
          → ((a : A) → o ≡ ret a → Q a)
          → Waits kept v.session.pkg_buff
          → Waits kept (continue f o v).1.session.pkg_buff
      go (ret a) v q h = (hf a (q a refl)).at v h
      go panic v q h = h

pub ruleset keeps_rules = (Keeps-bind, Keeps-shared, Keeps-pure, Keeps-deref, Keeps-read, Keeps-if)
