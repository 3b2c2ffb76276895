-- ===== src/Node/Lifecycle/Accounts.antt =====
-- Where the connections of a node are.
use sara.Common.{ℕ, suc, ◌+◌, ◌≡◌, refl, ap, List, [], ◌∷◌, ◌++◌, if◌then◌else◌, ◌==◌, arith}
use sara.Start.{Transport, tcp, ws, tls, wss}
use sara.Node.Lifecycle.{
  Life, Act, Reach, waiting, accept, send, send_panics, send_fails, take, register, leave, clean,
  stop, close_listeners, list, close_one, close_end, leave_end, finish, here, next, hold, accept_by,
  accept_tcp, accept_tls, accept_ws, close_channel, close_listener, list_sessions, send_clean,
  end_session,
}

-- How often a number is in a list.
unfoldable pub count : ℕ → List ℕ → ℕ
count c [] = 0
count c (x ∷ xs) = let rest = count c xs in if c == x then suc rest else rest

count-append : (c : ℕ) (xs ys : List ℕ) → count c (xs ++ ys) ≡ count c xs + count c ys
unfolding count
count-append c [] ys = omega arith
count-append c (x ∷ xs) ys = ground (arith, count-append c xs ys)

-- The connections that acceptors have.
unfoldable pub conns : List (Transport × ℕ) → List ℕ
conns [] = []
conns ((t, c) ∷ held) = c ∷ conns held

conns-append : (xs ys : List (Transport × ℕ)) → conns (xs ++ ys) ≡ conns xs ++ conns ys
unfolding conns
conns-append [] ys = refl
conns-append ((t, c) ∷ xs) ys = ap (◌∷◌ c) (conns-append xs ys)

pub accept_by-hold : (t : Transport) (c : ℕ) (s : Life) → accept_by t c s ≡ hold t c s
unfolding accept_by accept_tcp accept_tls accept_ws
accept_by-hold tcp c s = refl
accept_by-hold ws c s = refl
accept_by-hold tls c s = refl
accept_by-hold wss c s = refl

-- Each connection is at one place.
abbrev pub IsAccounted : ℕ → Life → Type 0
IsAccounted c s =
    count c s.accepted
    ≡ count c (conns s.held)
      + count c s.queue
      + count c s.dispatching
      + count c s.registered
      + count c s.lost

one : ℕ → ℕ → ℕ
one c x = if c == x then 1 else 0

count-snoc : (c x : ℕ) (xs : List ℕ) → count c (xs ++ x ∷ []) ≡ count c xs + one c x
unfolding count one
count-snoc c x xs = ground (arith, count-append c xs (x ∷ []))

-- What is taken out of the middle.
count-middle :
    (c x : ℕ) (before after : List ℕ)
    → count c (before ++ x ∷ after) ≡ count c (before ++ after) + one c x
unfolding count one
count-middle c x before after =
    ground (arith, count-append c before (x ∷ after), count-append c before after)

held-snoc :
    (c : ℕ) (t : Transport) (x : ℕ) (held : List (Transport × ℕ))
    → count c (conns (held ++ (t, x) ∷ [])) ≡ count c (conns held) + one c x
unfolding conns
held-snoc c t x held = rw (conns-append held ((t, x) ∷ [])) (count-snoc c x (conns held))

held-middle :
    (c : ℕ) (t : Transport) (x : ℕ) (before after : List (Transport × ℕ))
    → count c (conns (before ++ (t, x) ∷ after)) ≡ count c (conns (before ++ after)) + one c x
unfolding conns
held-middle c t x before after =
    rw (conns-append before ((t, x) ∷ after), conns-append before after)
      (count-middle c x (conns before) (conns after))

module _ (c : ℕ) where
  hold-IsAccounted :
      (t : Transport) (x : ℕ) (s : Life) → IsAccounted c s → IsAccounted c (hold t x s)
  unfolding hold
  hold-IsAccounted t x s h = omega (arith, h, count-snoc c x s.accepted, held-snoc c t x s.held)

  Act-IsAccounted : {s t : Life} → Act s t → IsAccounted c s → IsAccounted c t
  unfolding close_channel close_listener list_sessions send_clean end_session
  Act-IsAccounted {s} (accept t x may) h = rw (accept_by-hold t x s) (hold-IsAccounted t x s h)
  Act-IsAccounted {s} (send before t x after p e room) h = omega (
    arith,
    h,
    ap (λ l. count c (conns l)) e,
    held-middle c t x before after,
    count-snoc c x s.queue,
  )
  Act-IsAccounted {s} (send_panics before t x after p e l) h = h
  Act-IsAccounted {s} (send_fails before t x after p e l) h = omega (
    arith,
    h,
    ap (λ l. count c (conns l)) e,
    held-middle c t x before after,
    count-snoc c x s.lost,
  )
  Act-IsAccounted {s} (take x rest e room) h =
      omega (arith, h, ap (count c) e, count-middle c x [] rest, count-snoc c x s.dispatching)
  Act-IsAccounted {s} (register before x after e) h =
      omega (arith, h, ap (count c) e, count-middle c x before after, count-snoc c x s.registered)
  Act-IsAccounted (leave x m) h = h
  Act-IsAccounted (leave_end x m) h = h
  Act-IsAccounted (clean x rest e) h = h
  Act-IsAccounted (stop p) h = h
  Act-IsAccounted (close_listeners p) h = h
  Act-IsAccounted (list slist p q) h = h
  Act-IsAccounted (close_one x rest p) h = h
  Act-IsAccounted (close_end x rest p) h = h
  Act-IsAccounted (finish p) h = h

  -- Every connection that the node accepts is accounted for, in every state that the node can reach,
  -- also while it stops: as often as it was accepted it waits with an acceptor, on the channel or with
  -- a goroutine that registers its session, or its session was registered, or it was lost in a handler
  -- of net/http whose send on the closed channel panicked.
  pub Reach-IsAccounted :
      (listeners : List Transport) {s : Life} → Reach (waiting listeners) s → IsAccounted c s
  Reach-IsAccounted listeners here = unfold count conns in refl
  Reach-IsAccounted listeners (next p runs a) = Act-IsAccounted a (Reach-IsAccounted listeners p)
