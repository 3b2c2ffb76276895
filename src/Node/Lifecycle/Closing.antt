-- ===== src/Node/Lifecycle/Closing.antt =====
-- The sessions of a node that stops.
use mathlib.Core.List.{Memᴰ, Permᴰ}
use mathlib.Core.List.Memᴰ
use sara.Common.{
  ℕ, ◌≡◌, ◌⊎◌, inl, inr, refl, sym, subst, List, [], ◌∷◌, ◌++◌, if◌then◌else◌, ◌==◌, ◌∙◌, Bool,
  true, false, ==_iff,
}
use sara.Start.{Transport}
use sara.Node.Lifecycle.{
  Life, Phase, serving, channel_closed, listeners_closed, closing, stopped, Act, Reach, waiting,
  accept, send, send_panics, send_fails, take, register, leave, clean, stop, close_listeners, list,
  close_one, close_end, leave_end, ending, finish, here, next, hold, without, close_channel,
  close_listener, list_sessions, send_clean, end_session, accept_by,
}
use sara.Node.Lifecycle.Accounts.{accept_by-hold}

-- It has ended, or had begun to end by itself before `Wait` made its list.
abbrev Done : ℕ → List ℕ → List ℕ → Type 0
Done c ended left = Memᴰ c ended ⊎ Memᴰ c left

-- What is true of the sessions that `Wait` has listed.
abbrev Listed : Phase → List ℕ → List ℕ → List ℕ → Type 0
Listed (closing rest) listed ended left = (c : ℕ) → Memᴰ c listed → Memᴰ c rest ⊎ Done c ended left
Listed (ending x rest) listed ended left =
    (c : ℕ) → Memᴰ c listed → Memᴰ c (x ∷ rest) ⊎ Done c ended left
Listed stopped listed ended left = (c : ℕ) → Memᴰ c listed → Done c ended left
Listed _ listed ended left = Unit {0}

-- `Wait` has not listed the sessions yet.
abbrev is_early : Phase → Bool
is_early serving = true
is_early channel_closed = true
is_early listeners_closed = true
is_early _ = false

-- Up to the list, a registered session is in the map or has begun to end, and those that are to be taken
-- out of the map have.
abbrev Early : Life → Type 0
Early s =
    ((c : ℕ) → Memᴰ c s.registered → Memᴰ c s.sessions ⊎ Memᴰ c s.begun)
    × ((c : ℕ) → Memᴰ c s.cleaning → Memᴰ c s.begun)

-- In every reachable state.
abbrev Inv : Life → Type 0
Inv s = (is_early s.phase ≡ true → Early s) × Listed s.phase s.listed s.ended s.left

right : {A B C : Type 0} → (B → C) → A ⊎ B → A ⊎ C
right f (inl a) = inl a
right f (inr b) = inr (f b)

more : (c x : ℕ) (ended : List ℕ) → Memᴰ c ended → Memᴰ c (ended ++ x ∷ [])
more c x ended m = Memᴰ.append_left (x ∷ []) m

snoc_elim :
    (c x : ℕ) (xs : List ℕ) {B : Type 0} → (Memᴰ c xs → B) → (c ≡ x → B) → Memᴰ c (xs ++ x ∷ []) → B
snoc_elim c x xs f g m = elim (Memᴰ.append_cases xs m) [
  | inl old ↦ f old
  | inr new ↦ elim (Memᴰ.cases_cons new) [ inl e ↦ g e | inr n ↦ absurd (Memᴰ.not-nil n) ]
]

Done-more : (c x : ℕ) (ended left : List ℕ) → Done c ended left → Done c (ended ++ x ∷ []) left
Done-more c x ended left (inl m) = inl (more c x ended m)
Done-more c x ended left (inr m) = inr m

Listed-more :
    (p : Phase) (x : ℕ) (listed ended left : List ℕ)
    → Listed p listed ended left
    → Listed p listed (ended ++ x ∷ []) left
Listed-more serving x listed ended left h = tt
Listed-more channel_closed x listed ended left h = tt
Listed-more listeners_closed x listed ended left h = tt
Listed-more stopped x listed ended left h = λ c m. Done-more c x ended left (h c m)
Listed-more (closing rest) x listed ended left h = λ c m. right (Done-more c x ended left) (h c m)
Listed-more (ending y rest) x listed ended left h = λ c m. right (Done-more c x ended left) (h c m)

without-keeps : (c x : ℕ) (xs : List ℕ) → Memᴰ x xs → (x ≡ c) ⊎ Memᴰ x (without c xs)
unfolding without
without-keeps c x [] m = absurd (Memᴰ.not-nil m)
without-keeps c x (y ∷ ys) m = go (c == y) refl (without-keeps c x ys) (Memᴰ.cases_cons m)
  where
    go :
        (b : Bool)
        → (c == y) ≡ b
        → (Memᴰ x ys → (x ≡ c) ⊎ Memᴰ x (without c ys))
        → (x ≡ y) ⊎ Memᴰ x ys
        → (x ≡ c) ⊎ Memᴰ x (if b then without c ys else y ∷ without c ys)
    go true e rec (inl same) = inl (same ∙ sym ((==_iff c y).0 e))
    go true e rec (inr m) = rec m
    go false e rec (inl same) = inr (Memᴰ.head same)
    go false e rec (inr m) = right Memᴰ.tail (rec m)

-- A list in another order has the same elements.
Perm-Mem : {c : ℕ} {xs ys : List ℕ} → Permᴰ xs ys → Memᴰ c ys → Memᴰ c xs
Perm-Mem Permᴰ.nil m = m
Perm-Mem (Permᴰ.cons e p) m = elim (Memᴰ.cases_cons m) [
  | inl same ↦ Memᴰ.head (same ∙ sym e)
  | inr rest ↦ Memᴰ.tail (Perm-Mem p rest)
]
Perm-Mem (Permᴰ.swap e f) m = elim (Memᴰ.cases_cons m) [
  | inl same ↦ Memᴰ.tail (Memᴰ.head (same ∙ sym f))
  | inr rest ↦ elim (Memᴰ.cases_cons rest) [
    | inl same ↦ Memᴰ.head (same ∙ sym e)
    | inr others ↦ Memᴰ.tail (Memᴰ.tail others)
  ]
]
Perm-Mem (Permᴰ.trans p q) m = Perm-Mem p (Perm-Mem q m)

accept_by-Inv : (t : Transport) (x : ℕ) (s : Life) → Inv s → Inv (accept_by t x s)
unfolding hold
accept_by-Inv t x s h = rw (accept_by-hold t x s) h

register-kept :
    (c x : ℕ) (s : Life)
    → (Memᴰ c s.registered → Memᴰ c s.sessions ⊎ Memᴰ c s.begun)
    → Memᴰ c (s.registered ++ x ∷ [])
    → Memᴰ c (s.sessions ++ x ∷ []) ⊎ Memᴰ c s.begun
register-kept c x s kept =
    snoc_elim c x s.registered
      (λ m. elim (kept m) [ inl n ↦ inl (Memᴰ.append_left (x ∷ []) n) | inr n ↦ inr n ])
      λ e. inl (Memᴰ.append_right s.sessions (Memᴰ.head e))

clean-kept :
    (c x : ℕ) (s : Life)
    → Memᴰ x s.begun
    → Memᴰ c s.sessions ⊎ Memᴰ c s.begun
    → Memᴰ c (without x s.sessions) ⊎ Memᴰ c s.begun
clean-kept c x s begun (inr m) = inr m
clean-kept c x s begun (inl m) = elim (without-keeps x c s.sessions m) [
  | inl e ↦ inr (Memᴰ.cast e begun)
  | inr n ↦ inl n
]

-- The session whose status is set is done.
closed_one :
    (c x : ℕ) (rest ended left : List ℕ)
    → Memᴰ c (x ∷ rest) ⊎ Done c ended left
    → Memᴰ c rest ⊎ Done c (ended ++ x ∷ []) left
closed_one c x rest ended left (inr d) = inr (Done-more c x ended left d)
closed_one c x rest ended left (inl m) = elim (Memᴰ.cases_cons m) [
  | inl e ↦ inr (inl (Memᴰ.append_right ended (Memᴰ.head e)))
  | inr n ↦ inl n
]

all_closed : (c : ℕ) (ended left : List ℕ) → Memᴰ c [] ⊎ Done c ended left → Done c ended left
all_closed c ended left (inl m) = absurd (Memᴰ.not-nil m)
all_closed c ended left (inr d) = d

-- A session begins to end by itself.
leave-Early :
    (x : ℕ) (s : Life) → Early s → Early (record (send_clean x s) { begun = s.begun ++ x ∷ [] })
unfolding send_clean
leave-Early x s (kept, cleaned) = (
  λ c m. right (more c x s.begun) (kept c m),
  λ c.
      snoc_elim c x s.cleaning (λ m. more c x s.begun (cleaned c m))
        λ e. Memᴰ.append_right s.begun (Memᴰ.head e),
)

Act-Inv : {s t : Life} → Act s t → Inv s → Inv t
unfolding close_channel close_listener list_sessions send_clean end_session
Act-Inv {s} (accept t x may) h = accept_by-Inv t x s h
Act-Inv (send before t x after p e room) h = h
Act-Inv (send_panics before t x after p e l) h = h
Act-Inv (send_fails before t x after p e l) h = h
Act-Inv (take x rest e room) h = h
Act-Inv {s} (register before x after e) (early, listed) =
    (λ p. let (kept, cleaned) = early p in (λ c. register-kept c x s (kept c), cleaned), listed)
Act-Inv {s} (leave x m) (early, listed) = (λ p. leave-Early x s (early p), listed)
Act-Inv {s} (leave_end x m) (early, listed) =
    (early, Listed-more s.phase x s.listed s.ended s.left listed)
Act-Inv {s} (clean x rest e) (early, listed) = (
  λ p.
      let (kept, cleaned) = early p in
      (
        λ c m. clean-kept c x s (cleaned x (subst (Memᴰ x) (sym e) (Memᴰ.head refl))) (kept c m),
        λ c m. cleaned c (subst (Memᴰ c) (sym e) (Memᴰ.tail m)),
      ),
  listed,
)
Act-Inv (stop p) (early, listed) = (λ _. early (rw p refl), tt)
Act-Inv (close_listeners p) (early, listed) = (λ _. early (rw p refl), tt)
Act-Inv {s} (list slist p q) (early, listed) =
    let kept = (early (rw p refl)).0 in
    (λ e. absurd (cc), λ c m. elim (kept c m) [ inl n ↦ inl (Perm-Mem q n) | inr n ↦ inr (inr n) ])
Act-Inv {s} (close_one x rest p) (early, listed) =
    (λ e. absurd (cc), subst (λ p. Listed p s.listed s.ended s.left) p listed)
Act-Inv {s} (close_end x rest p) (early, listed) =
    let before = subst (λ p. Listed p s.listed s.ended s.left) p listed in
    (λ e. absurd (cc), λ c m. closed_one c x rest s.ended s.left (before c m))
Act-Inv {s} (finish p) (early, listed) =
    let before = subst (λ p. Listed p s.listed s.ended s.left) p listed in
    (λ e. absurd (cc), λ c m. all_closed c s.ended s.left (before c m))

Reach-Inv : (listeners : List Transport) {s : Life} → Reach (waiting listeners) s → Inv s
Reach-Inv listeners here =
    (λ _. (λ c m. absurd (Memᴰ.not-nil m), λ c m. absurd (Memᴰ.not-nil m)), tt)
Reach-Inv listeners (next p runs a) = Act-Inv a (Reach-Inv listeners p)

-- Where `Wait` returns, every session that was registered before it listed the sessions has ended, which is
-- to say that `CloseSession` has set its status to close, or had begun to end by itself before the list was
-- made, whatever the goroutines of the node did in between.
pub Reach-all_closed :
    (listeners : List Transport) {s : Life}
    → Reach (waiting listeners) s
    → s.phase ≡ stopped
    → (c : ℕ) → Memᴰ c s.listed
    → Memᴰ c s.ended ⊎ Memᴰ c s.left
Reach-all_closed listeners {s} p e =
    subst (λ phase. Listed phase s.listed s.ended s.left) e (Reach-Inv listeners p).1
