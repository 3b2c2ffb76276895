-- ===== src/Session/Blind.antt =====
-- Handling what a client sends does not look at the connection's read deadline, which only
-- `packetHandler` of core/session.go sets.
pub mod Methods
pub mod Handling
use sara.Common.{
  ℕ, ◌≡◌, refl, ◌∙◌, Bool, true, false, List, [], ◌∷◌, if◌then◌else◌, Bytes, Result, ok, err,
  Outcome, ret, panic, Exec, pure, fault, continue, for_each, ◌>>=◌, ◌>>◌,
}
use sara.Jid.{Jid}
use sara.Session.State.{Env, Shared, World, Session, shared, deref, read_session, update_session}

module _ {env : Env} where
  -- The same world, with another deadline.
  abbrev pub with_timeout : ℕ → World env → World env
  with_timeout sec w = record w { session = record w.session { read_timeout = sec } }

  -- With another deadline a step does the same.
  pub record Blind {A : Type 0} (m : Exec (World env) A) : Type 0 where
    pub at :
        (sec : ℕ) (w : World env) → m (with_timeout sec w) ≡ ((m w).0, with_timeout sec (m w).1)

  continue-Blind :
      {A B : Type 0} (f : A → Exec (World env) B) (o : Outcome A) (v : World env) (sec : ℕ)
      → ((a : A) → Blind (f a))
      → continue f o (with_timeout sec v)
        ≡ ((continue f o v).0, with_timeout sec (continue f o v).1)
  continue-Blind f (ret a) v sec h = (h a).at sec v
  continue-Blind f panic v sec h = refl

  pub Blind-bind :
      {A B : Type 0} (m : Exec (World env) A) (f : A → Exec (World env) B)
      → Blind m
      → ((a : A) → Blind (f a))
      → Blind (m >>= f)
  unfolding ◌>>=◌
  Blind-bind m f hm hf = record {
    at = λ sec w. rw (hm.at sec w) (continue-Blind f (m w).0 (m w).1 sec hf);
  }

  pub Blind-shared : {A : Type 0} (m : Exec (Shared env) A) → Blind (shared env m)
  unfolding shared
  Blind-shared m = record { at = λ sec w. refl }

  pub Blind-pure : {A : Type 0} (a : A) → Blind (pure a)
  unfolding pure
  Blind-pure a = record { at = λ sec w. refl }

  pub Blind-deref : (j : Result Jid) → Blind (deref j)
  unfolding deref pure fault
  Blind-deref (ok j) = record { at = λ sec w. refl }
  Blind-deref (err e) = record { at = λ sec w. refl }

  pub Blind-if :
      {A : Type 0} (b : Bool) (x y : Exec (World env) A)
      → Blind x
      → Blind y
      → Blind (if b then x else y)
  Blind-if true x y hx hy = hx
  Blind-if false x y hx hy = hy

  -- What is read of the session is to be the same.
  pub Blind-read :
      {A : Type 0} (f : Session → A)
      → ((sec : ℕ) (s : Session) → f (record s { read_timeout = sec }) ≡ f s)
      → Blind (read_session env f)
  unfolding read_session
  Blind-read f h = record { at = λ sec w. rw (h sec w.session) }

  pub Blind-update :
      (f : Session → Session)
      → ((sec : ℕ) (s : Session)
          → f (record s { read_timeout = sec }) ≡ record (f s) { read_timeout = sec })
      → Blind (update_session env f)
  unfolding update_session
  Blind-update f h = record { at = λ sec w. rw (h sec w.session) }

  pub for_each-Blind :
      {A : Type 0} (body : A → Exec (World env) (Unit {0})) (xs : List A)
      → ((x : A) → Blind (body x))
      → Blind (for_each body xs)
  unfolding for_each
  for_each-Blind body [] h = Blind-pure tt
  for_each-Blind body (x ∷ xs) h = Blind-bind _ _ (h x) λ _. for_each-Blind body xs h

pub ruleset blind_rules = (Blind-bind, Blind-shared, Blind-pure, Blind-deref, Blind-if)
