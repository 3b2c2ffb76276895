-- ===== src/Session/Authentic.antt =====
-- What core/session.go puts onto the queue of the router, and in whose name.
pub mod Quiet
pub mod Branches
pub mod Routing
pub mod Handling
mod Tests
use sara.Common.{
  ℕ, ◌≡◌, ◌≢◌, refl, sym, ap, ◌∙◌, Bool, true, false, List, [], ◌∷◌, ◌++◌, append-nil, append_assoc,
  Option, none, some, if◌then◌else◌, Bytes, Result, ok, err, Outcome, ret, panic, Exec, pure, fault,
  modify, codes, ltb, length, continue, for_each, ◌>>=◌, ◌>>◌, All, All-append,
}
use sara.Jid.{Jid, new_jid, string_without_resource}
use sara.Packet.{Packet}
use sara.Session.State.{
  Env, Shared, World, Session, RouterItem, conn, on_db, shared, deref, tick, service, route,
  router_queue_size,
}
use sara.Session.Progress.{Follows, Advances, not-conn}

-- From one queue to another with more items, each with some property.
pub record Adds (P : RouterItem → Type 0) (old new : List RouterItem) : Type 0 where
  pub more : List RouterItem
  pub queue : new ≡ old ++ more
  pub each : All P more

pub Adds-none : (P : RouterItem → Type 0) (q : List RouterItem) → Adds P q q
Adds-none P q = record { more = []; queue = sym (append-nil q); each = tt }

pub Adds-trans :
    (P : RouterItem → Type 0) {p q r : List RouterItem} → Adds P p q → Adds P q r → Adds P p r
Adds-trans P {p} {q} {r} a b = record {
  more = a.more ++ b.more;
  queue = b.queue ∙ rw (a.queue, append_assoc);
  each = All-append P a.more b.more a.each b.each;
}

All-map :
    {P Q : RouterItem → Type 0} (xs : List RouterItem)
    → ((x : RouterItem) → P x → Q x)
    → All P xs
    → All Q xs
All-map [] f h = tt
All-map (x ∷ xs) f (h, hs) = (f x h, All-map xs f hs)

pub Adds-map :
    {P Q : RouterItem → Type 0} {p q : List RouterItem}
    → ((x : RouterItem) → P x → Q x)
    → Adds P p q
    → Adds Q p q
Adds-map f a = record { more = a.more; queue = a.queue; each = All-map a.more f a.each }

-- An item with no packet, which is a signal.
abbrev pub Bare : RouterItem → Type 0
Bare item = item.packet ≡ none

-- The packet's sender is the address that the session has logged in under, with any resource.
pub record IsFrom (s : Session) (p : Packet) : Type 0 where
  pub known : s.status.status ≢ conn
  pub own : Jid
  pub sender : Jid
  pub own_read : new_jid s.status.jid ≡ ok own
  pub from_read : new_jid p.envelope.from ≡ ok sender
  pub same : string_without_resource own ≡ string_without_resource sender

abbrev pub Own : Session → RouterItem → Type 0
Own s item = (p : Packet) → item.packet ≡ some p → IsFrom s p

pub Bare-Own : (s : Session) (item : RouterItem) → Bare item → Own s item
Bare-Own s item b p e = absurd (cc)

pub Own-Follows : (s t : Session) → Follows s t → (item : RouterItem) → Own s item → Own t item
Own-Follows s t f item h p e =
    let i = h p e in
    record {
      known = not-conn s.status.status t.status.status f.order i.known;
      own = i.own;
      sender = i.sender;
      own_read = ap new_jid (f.jid i.known) ∙ i.own_read;
      from_read = i.from_read;
      same = i.same;
    }

-- A step on the shared state that adds signals only.
pub record Plain {env : Env} {A : Type 0} (m : Exec (Shared env) A) : Type 0 where
  pub at : (s : Shared env) → Adds Bare s.routed (m s).1.routed

module _ {env : Env} where
  continue-Plain :
      {A B : Type 0} (f : A → Exec (Shared env) B) (q : List RouterItem) (o : Outcome A)
      (s : Shared env)
      → ((a : A) → Plain (f a))
      → Adds Bare q s.routed
      → Adds Bare q (continue f o s).1.routed
  continue-Plain f q (ret a) s hf h = Adds-trans Bare h ((hf a).at s)
  continue-Plain f q panic s hf h = h

  pub Plain-bind :
      {A B : Type 0} (m : Exec (Shared env) A) (f : A → Exec (Shared env) B)
      → Plain m
      → ((a : A) → Plain (f a))
      → Plain (m >>= f)
  unfolding ◌>>=◌
  Plain-bind m f hm hf = record { at = λ s. continue-Plain f s.routed (m s).0 (m s).1 hf (hm.at s) }

  pub Plain-pure : {A : Type 0} (a : A) → Plain {env = env} (pure a)
  unfolding pure
  Plain-pure a = record { at = λ s. Adds-none Bare s.routed }

  pub Plain-deref : (j : Result Jid) → Plain {env = env} (deref j)
  unfolding deref pure fault
  Plain-deref (ok j) = record { at = λ s. Adds-none Bare s.routed }
  Plain-deref (err e) = record { at = λ s. Adds-none Bare s.routed }

  pub Plain-on_db : {A : Type 0} (m : Exec env.db.State A) → Plain (on_db env m)
  unfolding on_db
  Plain-on_db m = record { at = λ s. Adds-none Bare s.routed }

  pub Plain-tick : Plain (tick env)
  unfolding tick
  Plain-tick = record { at = λ s. Adds-none Bare s.routed }

  pub Plain-service : {A : Type 0} (f : ℕ → Outcome A) → Plain (service env f)
  unfolding service
  Plain-service f = record { at = λ s. Adds-none Bare s.routed }

  pub Plain-modify :
      (f : Shared env → Shared env)
      → ((s : Shared env) → (f s).routed ≡ s.routed)
      → Plain (modify f)
  unfolding modify
  Plain-modify f h = record { at = λ s. rw (h s) (Adds-none Bare s.routed) }

  pub Plain-if :
      {A : Type 0} (b : Bool) (x y : Exec (Shared env) A)
      → Plain x
      → Plain y
      → Plain (if b then x else y)
  Plain-if true x y hx hy = hx
  Plain-if false x y hx hy = hy

  pub for_each-Plain :
      {A : Type 0} (body : A → Exec (Shared env) (Unit {0})) (xs : List A)
      → ((x : A) → Plain (body x))
      → Plain (for_each body xs)
  unfolding for_each
  for_each-Plain body [] h = Plain-pure tt
  for_each-Plain body (x ∷ xs) h = Plain-bind _ _ (h x) λ _. for_each-Plain body xs h

pub ruleset plain_rules =
    (Plain-bind, Plain-pure, Plain-deref, Plain-on_db, Plain-tick, Plain-service, Plain-if)

-- What is routed joins the queue, if there is room.
pub route-Adds :
    {env : Env} (P : RouterItem → Type 0) (channel sid : Bytes) (packet : Option Packet)
    (signal : ℕ) (s : Shared env)
    → P (record { channel = channel; sid = sid; packet = packet; signal = signal })
    → Adds P s.routed (route env channel sid packet signal s).1.routed
unfolding route
route-Adds {env} P channel sid packet signal s h = go (ltb (length s.routed) router_queue_size)
  where
    go :
        (b : Bool)
        → (let item : RouterItem = record {
          channel = channel;
          sid = sid;
          packet = packet;
          signal = signal;
        } in
            let routed : Outcome (Result (Unit {0})) × Shared env =
              (if b
                then (ret (ok tt), record s { routed = s.routed ++ item ∷ [] })
                else (ret (err (codes "load_over")), s)) in
            Adds P s.routed routed.1.routed)
    go true = record { more = _; queue = refl; each = (h, tt) }
    go false = Adds-none P s.routed
