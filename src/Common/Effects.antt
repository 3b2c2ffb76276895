-- ===== src/Common/Effects.antt =====
-- Effects: a step of the program changes a state and returns, or panics at some point with the
-- changes made until there kept. `(v, err)` is a `Result`.
use mathlib.Core.Path.{◌≡◌, ap}
use mathlib.Core.List.{List, [], ◌∷◌}
use sara.Common.Text.{Bytes}

pub data Result {ℓ} (A : Type ℓ) : Type ℓ where
  ok : A → Result A
  err : Bytes → Result A

pub data Outcome {ℓ} (A : Type ℓ) : Type ℓ where
  ret : A → Outcome A
  panic : Outcome A

abbrev pub Exec : Type 0 → Type 0 → Type 0
Exec S A = S → Outcome A × S

-- What a function that may panic returns, handed on.
abbrev pub after : {A B : Type 0} → Outcome A → (A → Outcome B) → Outcome B
after (ret a) f = f a
after panic f = panic

module _ {S : Type 0} where
  unfoldable pub pure : {A : Type 0} → A → Exec S A
  pure a s = (ret a, s)

  unfoldable pub fault : {A : Type 0} → Exec S A
  fault s = (panic, s)

  unfoldable pub modify : (S → S) → Exec S (Unit {0})
  modify f s = (ret tt, f s)

  -- Goes on from the outcome of a step.
  abbrev pub continue : {A B : Type 0} → (A → Exec S B) → Outcome A → S → Outcome B × S
  continue f (ret a) s = f a s
  continue f panic s = (panic, s)

  infixl 5 ◌>>=◌ ◌>>◌
  -- Opening this opens `pure`, `fault` and `modify` too.
  unfoldable pub ◌>>=◌ : {A B : Type 0} → Exec S A → (A → Exec S B) → Exec S B
  unfolding pure fault modify
  ◌>>=◌ m f s = continue f (m s).0 (m s).1

  abbrev pub ◌>>◌ : {A B : Type 0} → Exec S A → Exec S B → Exec S B
  ◌>>◌ m k = m >>= λ _. k

  -- `for _, x := range xs { body }`.
  unfoldable pub for_each : {A : Type 0} → (A → Exec S (Unit {0})) → List A → Exec S (Unit {0})
  for_each body [] = pure tt
  for_each body (x ∷ xs) = do body x; for_each body xs

  -- `defer func() { recover() }()`: a panic of `m` makes the caller return `a`.
  unfoldable pub recovered : {A : Type 0} → Exec S A → A → Exec S A
  recovered m a s = elim (m s).0 [ ret b ↦ (ret b, (m s).1) | panic ↦ (ret a, (m s).1) ]

  -- What follows a step that returned.
  pub bind-ret :
      {A B : Type 0} (m : Exec S A) (f : A → Exec S B) (s s' : S) (a : A)
      → m s ≡ (ret a, s')
      → (m >>= f) s ≡ f a s'
  unfolding ◌>>=◌
  bind-ret m f s s' a e = ap (λ p. continue f p.0 p.1) e
