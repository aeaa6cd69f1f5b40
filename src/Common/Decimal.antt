-- ===== src/Common/Decimal.antt =====
-- Integers of Go's type int, and strconv's Itoa and Atoi on them.
use Prim.Native.Nat.{ℕ, zero, suc, ◌+◌, ◌-◌, ◌*◌, ◌/◌, ◌%◌, ◌^◌, ◌≤◌, ◌<◌}
use mathlib.Core.Path.{◌≡◌, refl, ap, ◌∙◌}
use mathlib.Core.Logic.{inl, inr}
use mathlib.Core.Bool.{Bool, true, false, ◌&&◌}
use mathlib.Core.Option.{Option, none, some}
use mathlib.Core.List.{[], ◌∷◌, ◌++◌}
use native.Mathlib.Omega.{arith}
use native.Mathlib.Nat.{pow-suc}
use tns_csi.Common.Tests.{ltb, leb, ◌==◌, if◌then◌else◌, Bool-cases}
use tns_csi.Common.Lists.{All, All-append}
use tns_csi.Common.Strings.{Str}

-- `negsuc n` is -(n + 1).
pub data ℤ : Type 0 where
  pos : ℕ → ℤ
  negsuc : ℕ → ℤ

-- i > 0
abbrev pub is_positive : ℤ → Bool
is_positive (pos n) = ltb 0 n
is_positive (negsuc n) = false

-- i == 0
abbrev pub is_zero : ℤ → Bool
is_zero (pos n) = n == 0
is_zero (negsuc n) = false

-- i == j
abbrev pub int_eq : ℤ → ℤ → Bool
int_eq (pos m) (pos n) = m == n
int_eq (pos m) (negsuc n) = false
int_eq (negsuc m) (pos n) = false
int_eq (negsuc m) (negsuc n) = m == n

-- math.MaxInt64
abbrev pub max_int64 : ℕ
max_int64 = 2 ^ 63 - 1

-- The decimal digits of `n`, the fuel being the number of digits at most.
unfoldable pub digits : ℕ → ℕ → Str
digits zero n = []
digits (suc fuel) n =
    let rest = digits fuel (n / 10) in
    if ltb n 10 then (b'0' + n) ∷ [] else rest ++ (b'0' + n % 10) ∷ []

-- 20 digits are enough for every int64.
abbrev digit_fuel : ℕ
digit_fuel = 20

-- strconv.Itoa(i), strconv.FormatInt(i, 10)
unfoldable pub itoa : ℤ → Str
itoa (pos n) = digits digit_fuel n
itoa (negsuc n) = b'-' ∷ digits digit_fuel (suc n)

-- The digits after the sign; `none` at any other byte.
unfoldable pub parse_digits : Str → ℕ → Option ℕ
parse_digits [] n = some n
parse_digits (c ∷ s) n =
    if leb b'0' c && leb c b'9' then parse_digits s (n * 10 + (c - b'0')) else none

-- A syntax error at no digits.
parse_nat : Str → Option ℕ
parse_nat [] = none
parse_nat (c ∷ s) = parse_digits (c ∷ s) 0

-- The range check of the signed value.
in_range : Bool → Option ℕ → Option ℤ
in_range negative none = none
in_range false (some n) = if leb n max_int64 then some (pos n) else none
in_range true (some zero) = some (pos 0)
in_range true (some (suc n)) = if leb n max_int64 then some (negsuc n) else none

-- strconv.Atoi(s), strconv.ParseInt(s, 10, 64)
unfoldable pub atoi : Str → Option ℤ
unfolding parse_nat in_range
atoi [] = none
atoi (c ∷ s) =
    if c == b'-'
    then in_range true (parse_nat s)
    else if c == b'+'
    then in_range false (parse_nat s)
    else in_range false (parse_nat (c ∷ s))

atoi_examples :
    (atoi (itoa (pos 42)) ≡ some (pos 42))
    × (atoi (itoa (negsuc 6)) ≡ some (negsuc 6))
    × (itoa (pos 9223372036854775807)
        ≡ b'9' ∷ b'2' ∷ b'2' ∷ b'3' ∷ b'3' ∷ b'7' ∷ b'2' ∷ b'0' ∷ b'3' ∷ b'6' ∷ b'8' ∷ b'5' ∷ b'4'
          ∷ b'7' ∷ b'7' ∷ b'5' ∷ b'8' ∷ b'0' ∷ b'7' ∷ [])
    × (atoi (itoa (pos 9223372036854775808)) ≡ none)
unfolding atoi itoa digits parse_digits
atoi_examples = (refl, refl, refl, refl)

parse_digits-append :
    (s : Str) (n m c : ℕ)
    → parse_digits s n ≡ some m
    → c < 10
    → parse_digits (s ++ (b'0' + c) ∷ []) n ≡ some (m * 10 + c)
unfolding parse_digits
parse_digits-append [] n m c h lt = ground arith
parse_digits-append (d ∷ s) n m c h lt =
    ground (arith, parse_digits-append s (n * 10 + (d - b'0')) m c)

parse_digits-digits : (fuel n : ℕ) → n < 10 ^ fuel → parse_digits (digits fuel n) 0 ≡ some n
unfolding parse_digits digits
parse_digits-digits zero n h = ap some (omega arith)
parse_digits-digits (suc fuel) n h = elim (Bool-cases (ltb n 10)) [
  | inl small ↦ rw small (ground arith)
  | inr large ↦ rw large (
      parse_digits-append (digits fuel (n / 10)) 0 (n / 10) (n % 10)
        (parse_digits-digits fuel (n / 10) (omega (arith, pow-suc 10 fuel))) (omega arith)
      ∙ ap some (omega arith))
]

digits_step :
    (fuel n : ℕ)
    → digits (suc fuel) n
      ≡ (if ltb n 10 then (b'0' + n) ∷ [] else digits fuel (n / 10) ++ (b'0' + n % 10) ∷ [])
unfolding digits
digits_step fuel n = refl

-- A list of digits is not empty, and begins with no sign.
pub digits-first :
    (fuel n : ℕ)
    → n < 10 ^ suc fuel
    → (c : ℕ) × (s : Str) × (digits (suc fuel) n ≡ c ∷ s) × (b'0' ≤ c)
digits-first zero n h = (b'0' + n, [], rw (digits_step zero n) (ground arith), omega arith)
digits-first (suc f) n h = elim (Bool-cases (ltb n 10)) [
  | inl small ↦ (b'0' + n, [], rw (digits_step (suc f) n, small), omega arith)
  | inr large ↦
      let (c, s, e, low) = digits-first f (n / 10) (omega (arith, pow-suc 10 (suc f))) in
      (c, s ++ (b'0' + n % 10) ∷ [], rw (digits_step (suc f) n, large, e), low)
]

atoi_nat :
    (c n : ℕ) (s : Str)
    → b'0' ≤ c
    → parse_digits (c ∷ s) 0 ≡ some n
    → n ≤ max_int64
    → atoi (c ∷ s) ≡ some (pos n)
unfolding atoi
atoi_nat c n s low h fits = ground arith

atoi_negative :
    (n : ℕ) (s : Str)
    → parse_nat s ≡ some (suc n)
    → n ≤ max_int64
    → atoi (b'-' ∷ s) ≡ some (negsuc n)
unfolding atoi
atoi_negative n s h fits = ground arith

abbrev pub IsDigit : ℕ → Type 0
IsDigit c = (b'0' ≤ c) × (c ≤ b'9')

pub digits-IsDigit : (fuel n : ℕ) → All IsDigit (digits fuel n)
unfolding digits
digits-IsDigit zero n = tt
digits-IsDigit (suc fuel) n = elim (Bool-cases (ltb n 10)) [
  | inl small ↦ rw small ((omega arith, ground arith), tt)
  | inr large ↦ rw large (
      All-append IsDigit (digits fuel (n / 10)) _ (digits-IsDigit fuel (n / 10))
        ((omega arith, omega arith), tt))
]

int64_digits : (n : ℕ) → n ≤ max_int64 → n + 1 < 10 ^ digit_fuel
int64_digits n h = omega arith

abbrev pub IsInt64 : ℤ → Type 0
IsInt64 (pos n) = n ≤ max_int64
IsInt64 (negsuc n) = n ≤ max_int64

atoi_of_digits :
    (n : ℕ) (t : Str)
    → n ≤ max_int64
    → parse_digits t 0 ≡ some n
    → (c : ℕ) × (s : Str) × (t ≡ c ∷ s) × (b'0' ≤ c)
    → atoi t ≡ some (pos n)
atoi_of_digits n t h p (c, s, e, low) = rw e (atoi_nat c n s low (rw e at p) h)

parse_nat_of_digits :
    (n : ℕ) (t : Str)
    → parse_digits t 0 ≡ some n
    → (c : ℕ) × (s : Str) × (t ≡ c ∷ s) × (b'0' ≤ c)
    → parse_nat t ≡ some n
unfolding parse_nat
parse_nat_of_digits n t p (c, s, e, low) = rw e (rw e at p)

-- What Itoa prints, Atoi reads back, for every value of the type int.
pub atoi-itoa : (i : ℤ) → IsInt64 i → atoi (itoa i) ≡ some i
unfolding itoa
atoi-itoa (pos n) h =
    atoi_of_digits n (digits 20 n) h (parse_digits-digits 20 n (omega arith))
      (digits-first 19 n (omega arith))
atoi-itoa (negsuc n) h =
    atoi_negative n (digits 20 (suc n))
      (parse_nat_of_digits (suc n) (digits 20 (suc n))
        (parse_digits-digits 20 (suc n) (omega arith)) (digits-first 19 (suc n) (omega arith)))
      h
