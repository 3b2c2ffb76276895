-- ===== src/Common/Decimal.antt =====
-- `fmt.Sprintf("%d", n)` of a number that is not negative, and `strconv.Atoi` with its error
-- dropped.
use Prim.Native.Nat.{ℕ, zero, suc, ◌+◌, ◌-◌, ◌*◌, ◌/◌, ◌%◌, ◌≤◌, ◌<◌}
use mathlib.Core.Path.{◌≡◌, refl, ap, ◌∙◌}
use mathlib.Core.Logic.{◌≢◌, inl, inr}
use mathlib.Core.Bool.{◌&&◌}
use mathlib.Core.Option.{Option, none, some}
use mathlib.Core.List.{[], ◌∷◌, ◌++◌}
use native.Mathlib.Omega.{arith}
use sara.Common.Tests.{ltb, ◌==◌, if◌then◌else◌, Bool-cases}
use sara.Common.Text.{Bytes}
use sara.Common.Lists.{All, All-append}
use sara.Common.Int.{ℤ, pos, negsuc}

-- The number is less than `fuel`, which is enough: a tenth of it is less than one less.
unfoldable pub digits : ℕ → ℕ → Bytes
digits zero n = []
digits (suc fuel) n =
    let rest = digits fuel (n / 10) in
    if ltb n 10 then (b'0' + n) ∷ [] else rest ++ (b'0' + n % 10) ∷ []

unfoldable pub decimal : ℕ → Bytes
unfolding digits
decimal n = digits (suc n) n

-- One more digit.
abbrev scan_digit : Option ℕ → ℕ → Option ℕ
scan_digit none c = none
scan_digit (some n) c = if ltb 47 c && ltb c 58 then some (n * 10 + (c - b'0')) else none

unfoldable pub scan : Option ℕ → Bytes → Option ℕ
scan acc [] = acc
scan acc (c ∷ s) = scan (scan_digit acc c) s

abbrev pub max_int : ℕ
max_int = 9223372036854775807

-- Beyond the range of an `int` it is the nearest one that Atoi returns with the error.
abbrev pub positive : Option ℕ → ℤ
positive none = pos 0
positive (some n) = if ltb max_int n then pos max_int else pos n

abbrev pub negative : Option ℕ → ℤ
negative none = pos 0
negative (some zero) = pos 0
negative (some (suc n)) = if ltb max_int n then negsuc max_int else negsuc n

-- At least one digit.
unfoldable pub number : Bytes → Option ℕ
number [] = none
number (c ∷ s) = scan (some 0) (c ∷ s)

unfoldable pub atoi : Bytes → ℤ
unfolding number scan
atoi [] = pos 0
atoi (c ∷ s) =
    if c == b'-'
    then negative (number s)
    else if c == b'+'
    then positive (number s)
    else positive (number (c ∷ s))

scan-append :
    (acc : Option ℕ) (s : Bytes) (c : ℕ) → scan acc (s ++ c ∷ []) ≡ scan_digit (scan acc s) c
unfolding scan
scan-append acc [] c = refl
scan-append acc (x ∷ s) c = scan-append (scan_digit acc x) s c

last_digit : (n : ℕ) → scan_digit (some (n / 10)) (b'0' + n % 10) ≡ some n
last_digit n = ground arith

scan-digits : (fuel n : ℕ) → n < fuel → scan (some 0) (digits fuel n) ≡ some n
unfolding digits
scan-digits zero n h = absurd (omega arith)
scan-digits (suc fuel) n h = elim (Bool-cases (ltb n 10)) [
  | inl e ↦ rw e (unfold scan in ground arith)
  | inr e ↦
      rw
        (
          e,
          scan-append (some 0) (digits fuel (n / 10)) (b'0' + n % 10),
          scan-digits fuel (n / 10) (ground arith),
        )
        (last_digit n)
]

digits-All : (fuel n : ℕ) → All (λ c. 48 ≤ c) (digits fuel n)
unfolding digits
digits-All zero n = tt
digits-All (suc fuel) n = elim (Bool-cases (ltb n 10)) [
  | inl e ↦ rw e (omega arith, tt)
  | inr e ↦
      rw e (All-append _ (digits fuel (n / 10)) _ (digits-All fuel (n / 10)) (omega arith, tt))
]

snoc-ne-nil : (s : Bytes) (c : ℕ) → s ++ c ∷ [] ≢ []
snoc-ne-nil [] c e = cc
snoc-ne-nil (x ∷ s) c e = cc

digits-ne-nil : (fuel n : ℕ) → digits (suc fuel) n ≢ []
unfolding digits
digits-ne-nil fuel n = elim (Bool-cases (ltb n 10)) [
  | inl e ↦ rw e (λ h. cc)
  | inr e ↦ rw e (snoc-ne-nil (digits fuel (n / 10)) (b'0' + n % 10))
]

unsigned : (s : Bytes) → s ≢ [] → All (λ c. 48 ≤ c) s → atoi s ≡ positive (scan (some 0) s)
unfolding atoi number
unsigned [] n h = absurd (n refl)
unsigned (c ∷ s) n (h, hs) = ground arith

-- What is printed is read back.
pub atoi-decimal : (n : ℕ) → n ≤ max_int → atoi (decimal n) ≡ pos n
unfolding decimal
atoi-decimal n h =
    unsigned (digits (suc n) n) (digits-ne-nil n n) (digits-All (suc n) n)
    ∙ ap positive (scan-digits (suc n) n (omega arith))
    ∙ ground arith
