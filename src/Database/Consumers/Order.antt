-- ===== src/Database/Consumers/Order.antt =====
-- Which writes the workers of a channel make, and in which order.
use mathlib.Core.List.{Perm, perm_middle}
use mathlib.Core.List.Perm
use sara.Common.{ℕ, ◌≡◌, refl, ap, ◌∙◌, subst, List, [], ◌∷◌, ◌++◌, append-nil, append_assoc}
use sara.Redis.{Redis, Command}
use sara.Database.Writes.{apply, apply-append}
use sara.Database.Consumers.{
  Consumers, Work, take, make, Step, work, send, Reach, here, next, waiting, IsQuiet,
}

-- A write that is made goes behind the others.
moved :
    (made before after queue : List Command) (c : Command)
    → Perm
        (made ++ ((before ++ c ∷ after) ++ queue))
        ((made ++ c ∷ []) ++ ((before ++ after) ++ queue))
moved made before after queue c =
    rw (append_assoc made (c ∷ []) ((before ++ after) ++ queue))
      (Perm.append_left made (Perm.append_right queue (perm_middle before after)))

sent :
    (all made held queue : List Command) (c : Command)
    → Perm all (made ++ (held ++ queue))
    → Perm (all ++ c ∷ []) (made ++ (held ++ (queue ++ c ∷ [])))
sent all made held queue c p =
    subst (λ l. Perm (all ++ c ∷ []) l)
      (append_assoc made (held ++ queue) (c ∷ [])
        ∙ ap (◌++◌ made) (append_assoc held queue (c ∷ [])))
      (Perm.append_right (c ∷ []) p)

all_made :
    {made held queue : List Command} → held ≡ [] → queue ≡ [] → made ++ (held ++ queue) ≡ made
all_made {made} h q = rw (h, q) (append-nil made)

module _ (r : Redis) (total : ℕ) where
  -- In every reachable state.
  record Inv (store : r.Store) (s : Consumers r) : Type 0 where
    written : s.store ≡ apply r s.made store
    once : Perm s.sent (s.made ++ (s.held ++ s.queue))

  Inv-waiting : (store : r.Store) (cs : List Command) → Inv store (waiting store cs)
  Inv-waiting store cs = record { written = refl; once = Perm.refl cs }

  Work-Inv : {store : r.Store} {s t : Consumers r} → Work r total s t → Inv store s → Inv store t
  Work-Inv {store} (take s c rest e room) inv = record {
    written = inv.written;
    once = rw append_assoc (subst (λ q. Perm s.sent (s.made ++ (s.held ++ q))) e inv.once);
  }
  Work-Inv {store} (make s before c after e) inv = record {
    written = rw apply-append (ap (λ st. (r.cmd c st).1) inv.written);
    once =
        Perm.trans (subst (λ h. Perm s.sent (s.made ++ (h ++ s.queue))) e inv.once)
          (moved s.made before after s.queue c);
  }

  Step-Inv : {store : r.Store} {s t : Consumers r} → Step r total s t → Inv store s → Inv store t
  Step-Inv (work w) inv = Work-Inv w inv
  Step-Inv (send s c) inv = record {
    written = inv.written;
    once = sent s.sent s.made s.held s.queue c inv.once;
  }

  Reach-Inv : {store : r.Store} {s t : Consumers r} → Reach r total s t → Inv store s → Inv store t
  Reach-Inv here inv = inv
  Reach-Inv (next p st) inv = Step-Inv st (Reach-Inv p inv)

  -- When the workers of a channel have nothing left to do, every write that was ever sent has been made
  -- exactly once, in some order, and the store is what these writes make of it in that order.
  pub Reach-once :
      (store : r.Store) (cs : List Command) (s : Consumers r)
      → Reach r total (waiting store cs) s
      → IsQuiet s
      → Perm s.sent s.made × (s.store ≡ apply r s.made store)
  Reach-once store cs s p quiet =
      let inv = Reach-Inv p (Inv-waiting store cs) in
      (subst (λ l. Perm s.sent l) (all_made quiet.held quiet.queue) inv.once, inv.written)
