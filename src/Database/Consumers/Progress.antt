-- ===== src/Database/Consumers/Progress.antt =====
-- The workers of a channel come to an end.
use sara.Common.{
  ℕ, zero, suc, ◌+◌, ◌≤◌, ◌≡◌, refl, ap, subst, List, [], ◌∷◌, arith, length, length-append,
}
use sara.Redis.{Redis, Command}
use sara.Database.Consumers.{Consumers, Work, take, make, IsQuiet, left}

module _ (r : Redis) (total : ℕ) where
  -- `n` steps of workers, with nothing sent in between.
  pub data Works (s : Consumers r) : ℕ → Consumers r → Type 0 where
    stop : Works s zero s
    more : {n : ℕ} {t u : Consumers r} → Works s n t → Work r total t u → Works s (suc n) u

  Work-left : {s t : Consumers r} → Work r total s t → suc (left t) ≡ left s
  Work-left (take s c rest e room) = omega (arith, ap length e, length-append s.held (c ∷ []))
  Work-left (make s before c after e) =
      omega (arith, ap length e, length-append before (c ∷ after), length-append before after)

  Works-left : {s t : Consumers r} {n : ℕ} → Works s n t → n + left t ≡ left s
  Works-left stop = omega arith
  Works-left (more p w) = omega (arith, Works-left p, Work-left w)

  -- No deadlock: while something is left, some worker can go on.
  go_on :
      1 ≤ total → (n : ℕ) (t : Consumers r) → left t ≡ suc n → (u : Consumers r) × Work r total t u
  go_on h n t e = held t.held refl
    where
      queued : t.held ≡ [] → (q : List Command) → t.queue ≡ q → (u : Consumers r) × Work r total t u
      queued idle [] f = absurd (omega (arith, e, ap length f, ap length idle))
      queued idle (c ∷ rest) f = (_, take t c rest f (omega (arith, h, ap length idle)))

      held : (l : List Command) → t.held ≡ l → (u : Consumers r) × Work r total t u
      held [] f = queued f t.queue refl
      held (c ∷ l) f = (_, make t [] c l f)

  finish :
      {s : Consumers r}
      → 1 ≤ total
      → (n k : ℕ) (t : Consumers r) → left t ≡ n
      → Works s k t
      → (u : Consumers r) × Works s (k + n) u × (left u ≡ 0)
  finish {s} h zero k t e p = (t, subst (λ i. Works s i t) (omega arith) p, e)
  finish {s} h (suc n) k t e p =
      let (v, w) = go_on h n t e in
      let (u, q, z) = finish h n (suc k) v (omega (arith, Work-left w, e)) (more p w) in
      (u, subst (λ i. Works s i u) (omega arith) q, z)

  quiet : (q h : List Command) (s : Consumers r) → s.queue ≡ q → s.held ≡ h → left s ≡ 0 → IsQuiet s
  quiet [] [] s e f z = record { queue = e; held = f }
  quiet [] (c ∷ h) s e f z = absurd (omega (arith, ap length e, ap length f, z))
  quiet (c ∷ q) h s e f z = absurd (omega (arith, ap length e, ap length f, z))

  -- The workers of a channel, one at least, always come to an end when nothing more is sent: however
  -- they have been interleaved so far, no more than `left s` steps were made, and they can go on to a
  -- state with nothing left, after `left s` steps in all.
  pub workers_finish :
      (s t : Consumers r) (n : ℕ)
      → 1 ≤ total
      → Works s n t
      → (n ≤ left s) × (u : Consumers r) × Works s (left s) u × IsQuiet u
  workers_finish s t n h p =
      let (u, q, z) = finish h (left t) n t refl p in
      (
        omega (arith, Works-left p),
        u,
        subst (λ i. Works s i u) (Works-left p) q,
        quiet u.queue u.held u refl refl z,
      )
