-- ===== src/Common/Text.antt =====
-- Go's `string` and `[]byte`, both as lists of bytes, with the functions of `strings` and `bytes`
-- that the server calls.
use Prim.Native.Char.{code}
use Prim.Native.String.{String}
use Prim.Native.Nat.{ℕ}
use mathlib.Core.Path.{◌≡◌, refl}
use mathlib.Core.Logic.{◌≢◌, ◌↔◌, ◌⊎◌, inl, inr}
use mathlib.Core.Bool.{Bool, true, false, ◌&&◌, ◌||◌}
use mathlib.Core.List.{List, [], ◌∷◌, ◌++◌}
use native.Mathlib.Decide.{ℕ_discrete}
use native.Mathlib.Omega.{arith}
use sara.Common.Tests.{◌==◌, if◌then◌else◌}
use sara.Common.Lists.{All}

abbrev pub Bytes : Type 0
Bytes = List ℕ

-- The code points of a literal, which are its bytes where it is ASCII.
abbrev pub codes : String → Bytes
codes String.[] = []
codes (String.◌∷◌ c s) = code c ∷ codes s

abbrev pub Lacks : ℕ → Bytes → Type 0
Lacks b = All (λ c. c ≢ b)

-- `a == b` on strings.
unfoldable pub bytes_eq : Bytes → Bytes → Bool
bytes_eq [] [] = true
bytes_eq [] (y ∷ ys) = false
bytes_eq (x ∷ xs) [] = false
bytes_eq (x ∷ xs) (y ∷ ys) = (x == y) && bytes_eq xs ys

pub bytes_eq_iff : (a b : Bytes) → (bytes_eq a b ≡ true) ↔ (a ≡ b)
unfolding bytes_eq
bytes_eq_iff [] [] = (λ _. refl, λ _. refl)
bytes_eq_iff [] (y ∷ ys) = ground arith
bytes_eq_iff (x ∷ xs) [] = ground arith
bytes_eq_iff (x ∷ xs) (y ∷ ys) = ground (arith, bytes_eq_iff xs ys)

pub bytes_eq_refl : (a : Bytes) → bytes_eq a a ≡ true
bytes_eq_refl a = (bytes_eq_iff a a).1 refl

-- `len(s) == 0`.
abbrev pub is_empty : Bytes → Bool
is_empty [] = true
is_empty (c ∷ s) = false

-- `strings.HasPrefix`, the test `bytes.Index(s, p) == 0`.
unfoldable pub has_prefix : Bytes → Bytes → Bool
has_prefix [] s = true
has_prefix (c ∷ p) [] = false
has_prefix (c ∷ p) (x ∷ s) = (c == x) && has_prefix p s

-- `bytes.Contains(s, p)`.
unfoldable pub contains : Bytes → Bytes → Bool
unfolding has_prefix
contains [] p = has_prefix p []
contains (x ∷ s) p = has_prefix p (x ∷ s) || contains s p

abbrev pub cons_head : ℕ → List Bytes → List Bytes
cons_head x [] = (x ∷ []) ∷ []
cons_head x (p ∷ ps) = (x ∷ p) ∷ ps

-- `strings.Split(s, c)` and `bytes.Split(s, c)` for a separator of one byte.
unfoldable pub split : ℕ → Bytes → List Bytes
split c [] = [] ∷ []
split c (x ∷ xs) = if x == c then [] ∷ split c xs else cons_head x (split c xs)

-- `strings.Join(parts, c)`.
unfoldable pub join : ℕ → List Bytes → Bytes
join c [] = []
join c (p ∷ []) = p
join c (p ∷ q ∷ ps) = p ++ c ∷ join c (q ∷ ps)

pub has_prefix-append : (p s : Bytes) → has_prefix p (p ++ s) ≡ true
unfolding has_prefix
has_prefix-append [] s = refl
has_prefix-append (c ∷ p) s = ground (arith, has_prefix-append p s)

-- A text with no separator is its own first piece.
pub split-append : (c : ℕ) (p s : Bytes) → Lacks c p → split c (p ++ c ∷ s) ≡ p ∷ split c s
unfolding split
split-append c [] s h = ground arith
split-append c (x ∷ p) s h = ground (arith, split-append c p s h.1)

pub split-Lacks : (c : ℕ) (p : Bytes) → Lacks c p → split c p ≡ p ∷ []
unfolding split
split-Lacks c [] h = refl
split-Lacks c (x ∷ p) h = ground (arith, split-Lacks c p h.1)

abbrev pub AllPieces : (ℕ → Type 0) → List Bytes → Type 0
AllPieces P = All (All P)

-- No piece holds the separator, and a piece holds no byte that the text lacks.
pub split-AllPieces : (c : ℕ) (s : Bytes) → AllPieces (λ x. x ≢ c) (split c s)
unfolding split
split-AllPieces c [] = (tt, tt)
split-AllPieces c (x ∷ s) = go (split c s) (split-AllPieces c s)
  where
    go :
        (ps : List Bytes)
        → AllPieces (λ y. y ≢ c) ps
        → AllPieces (λ y. y ≢ c) (if x == c then [] ∷ ps else cons_head x ps)
    go [] h = ground arith
    go (p ∷ ps) h = ground arith

pub split-Lacks_other : (c b : ℕ) (s : Bytes) → Lacks b s → AllPieces (λ x. x ≢ b) (split c s)
unfolding split
split-Lacks_other c b [] h = (tt, tt)
split-Lacks_other c b (x ∷ s) h = go (split c s) (split-Lacks_other c b s h.1)
  where
    go :
        (ps : List Bytes)
        → AllPieces (λ y. y ≢ b) ps
        → AllPieces (λ y. y ≢ b) (if x == c then [] ∷ ps else cons_head x ps)
    go [] k = ground arith
    go (p ∷ ps) k = ground arith

pub split-ne-nil : (c : ℕ) (s : Bytes) → split c s ≢ []
unfolding split
split-ne-nil c [] = cc
split-ne-nil c (x ∷ s) = go (split c s)
  where
    go : (ps : List Bytes) → (if x == c then [] ∷ ps else cons_head x ps) ≢ []
    go [] = ground arith
    go (p ∷ ps) = ground arith

-- A text has the separator, and then two pieces at least, or lacks it.
pub split_cases :
    (c : ℕ) (s : Bytes)
    → Lacks c s ⊎ ((p : Bytes) × (q : Bytes) × (rest : List Bytes) × (split c s ≡ p ∷ q ∷ rest))
unfolding split
split_cases c [] = inl tt
split_cases c (x ∷ s) = elim (ℕ_discrete x c) [
  | yes e ↦ inr (at (split c s) (split-ne-nil c s) e)
  | no n ↦ elim (split_cases c s) [
    | inl h ↦ inl (n, h)
    | inr (p, q, rest, e) ↦ inr (x ∷ p, q, rest, ground (arith, e))
  ]
]
  where
    at :
        (ps : List Bytes)
        → ps ≢ []
        → x ≡ c
        → (p : Bytes) × (q : Bytes) × (rest : List Bytes) × ((if x == c
              then [] ∷ ps
              else cons_head x ps)
            ≡ p ∷ q ∷ rest)
    at [] h e = absurd (h refl)
    at (q ∷ rest) h e = ([], q, rest, ground arith)

contains-prefix : (s p : Bytes) → has_prefix p s ≡ true → contains s p ≡ true
unfolding contains
contains-prefix [] p h = h
contains-prefix (x ∷ s) p h = rw h

pub contains-append : (a p b : Bytes) → contains (a ++ (p ++ b)) p ≡ true
unfolding contains
contains-append [] p b = contains-prefix (p ++ b) p (has_prefix-append p b)
contains-append (x ∷ a) p b = ground (arith, contains-append a p b)
