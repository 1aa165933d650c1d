-- ===== src/Common/Digits.antt =====
-- Decimal numbers as text: `strconv.Itoa`, `strconv.ParseUint` to the base 10 and `strconv.Atoi`.
use Prim.Native.Nat.{ℕ, zero, suc, ◌+◌, ◌-◌, ◌*◌, ◌/◌, ◌%◌, ◌<◌}
use mathlib.Core.Path.{◌≡◌, refl, sym, ap, ◌∙◌}
use mathlib.Core.Logic.{inl, inr}
use mathlib.Core.Bool.{Bool, true, false, ◌&&◌}
use mathlib.Core.Option.{Option, none, some}
use mathlib.Core.List.{[], ◌∷◌, ◌++◌}
use native.Mathlib.Omega.{arith}
use netping.Common.Tests.{ltb, leb, ◌==◌, if◌then◌else◌, Bool-cases, and_then, if_cases, ltb→lt}
use netping.Common.Lists.{All, All-append}
use netping.Common.Text.{Str, is_empty}
use netping.Common.Words.{ℤ, pos, negsuc, two63}

unfoldable pub is_digit : ℕ → Bool
is_digit c = leb b'0' c && leb c b'9'

-- the digits in turn, with the number read so far
unfoldable pub scan_digits : ℕ → Str → Option ℕ
unfolding is_digit
scan_digits acc [] = some acc
scan_digits acc (c ∷ s) =
    let rest = scan_digits (acc * 10 + (c - b'0')) s in if is_digit c then rest else none

-- strconv.ParseUint(s, 10, bits), with 2^bits as the limit
unfoldable pub parse_uint : ℕ → Str → Option ℕ
unfolding scan_digits
parse_uint limit s =
    if is_empty s
    then none
    else and_then (scan_digits 0 s) (λ n. if ltb n limit then some n else none)

abbrev negated : ℕ → ℤ
negated zero = pos 0
negated (suc n) = negsuc n

abbrev signed : ℕ → Str → Option ℤ
signed c s =
    if c == b'-'
    then and_then (parse_uint (suc two63) s) (λ n. some (negated n))
    else if c == b'+'
    then and_then (parse_uint two63 s) (λ n. some (pos n))
    else and_then (parse_uint two63 (c ∷ s)) (λ n. some (pos n))

-- strconv.Atoi
unfoldable pub atoi : Str → Option ℤ
unfolding parse_uint
atoi [] = none
atoi (c ∷ s) = signed c s

-- the digits of a number, with fuel for them
unfoldable pub digits : ℕ → ℕ → Str
digits zero n = []
digits (suc f) n =
    let rest = digits f (n / 10) ++ (b'0' + n % 10) ∷ [] in
    if ltb n 10 then (b'0' + n) ∷ [] else rest

-- strconv.Itoa of a number that is not negative; it has no more digits than one and itself
unfoldable pub itoa : ℕ → Str
unfolding digits
itoa n = digits (suc n) n

scan_digits-append :
    (acc : ℕ) (s : Str) (c : ℕ)
    → scan_digits acc (s ++ c ∷ [])
      ≡ and_then (scan_digits acc s) (λ n. if is_digit c then some (n * 10 + (c - b'0')) else none)
unfolding scan_digits
scan_digits-append acc [] c = refl
scan_digits-append acc (d ∷ s) c = elim (Bool-cases (is_digit d)) [
  | inl e ↦ rw e (scan_digits-append (acc * 10 + (d - b'0')) s c)
  | inr e ↦ rw e refl
]

is_digit-last : (n : ℕ) → is_digit (b'0' + n % 10) ≡ true
unfolding is_digit
is_digit-last n = ground arith

scan_digits-digits : (f n : ℕ) → n < f → scan_digits 0 (digits f n) ≡ some n
unfolding digits
scan_digits-digits zero n h = absurd (omega arith)
scan_digits-digits (suc f) n h = elim (Bool-cases (ltb n 10)) [
  | inl small ↦ rw small (one n small)
  | inr large ↦ rw large (
      scan_digits-append 0 (digits f (n / 10)) (b'0' + n % 10)
      ∙ rw (scan_digits-digits f (n / 10) (ground arith), is_digit-last n) (ap some (omega arith)))
]
  where
    one : (k : ℕ) → ltb k 10 ≡ true → scan_digits 0 ((b'0' + k) ∷ []) ≡ some k
    one k small = unfold scan_digits in ground arith

is_empty-append : (s : Str) (c : ℕ) → is_empty (s ++ c ∷ []) ≡ false
is_empty-append [] c = refl
is_empty-append (d ∷ s) c = refl

is_empty-itoa : (n : ℕ) → is_empty (itoa n) ≡ false
unfolding itoa
is_empty-itoa n =
    if_cases (λ s. is_empty s ≡ false) (ltb n 10) (λ e. refl)
      (λ e. is_empty-append (digits n (n / 10)) (b'0' + n % 10))

-- Printing and reading a number.
pub parse_uint-itoa : (limit n : ℕ) → n < limit → parse_uint limit (itoa n) ≡ some n
unfolding parse_uint
parse_uint-itoa limit n h = rw (is_empty-itoa n, scan_itoa) (ground arith)
  where
    scan_itoa : scan_digits 0 (itoa n) ≡ some n
    scan_itoa = unfold itoa in scan_digits-digits (suc n) n (omega arith)

pub atoi-parse_uint : (s : Str) (n : ℕ) → parse_uint two63 s ≡ some n → atoi s ≡ some (pos n)
atoi-parse_uint [] n h = unfold parse_uint in cc
atoi-parse_uint (c ∷ s) n h = elim (Bool-cases (is_digit c)) [
  | inl e ↦ unfold atoi in rw (not_minus e, not_plus e, h) refl
  | inr e ↦ absurd (none_read e)
]
  where
    not_minus : is_digit c ≡ true → (c == b'-') ≡ false
    not_minus e = unfold is_digit in ground arith

    not_plus : is_digit c ≡ true → (c == b'+') ≡ false
    not_plus e = unfold is_digit in ground arith

    nothing : is_digit c ≡ false → parse_uint two63 (c ∷ s) ≡ none
    nothing e = unfold parse_uint scan_digits in rw e refl

    none_read : is_digit c ≡ false → ⊥
    none_read e = let f : none ≡ some n = sym (nothing e) ∙ h in cc

pub atoi-itoa : (n : ℕ) → n < two63 → atoi (itoa n) ≡ some (pos n)
atoi-itoa n h = atoi-parse_uint (itoa n) n (parse_uint-itoa two63 n h)

digit_of : (n : ℕ) → n < 10 → is_digit (b'0' + n) ≡ true
unfolding is_digit
digit_of n h = ground arith

digits-is_digit : (f n : ℕ) → All (λ c. is_digit c ≡ true) (digits f n)
unfolding digits
digits-is_digit zero n = tt
digits-is_digit (suc f) n =
    if_cases (All (λ c. is_digit c ≡ true)) (ltb n 10) (λ e. (digit_of n (ltb→lt n 10 e), tt))
      (λ e.
        All-append (λ c. is_digit c ≡ true) (digits f (n / 10)) ((b'0' + n % 10) ∷ [])
          (digits-is_digit f (n / 10)) (is_digit-last n, tt))

pub itoa-is_digit : (n : ℕ) → All (λ c. is_digit c ≡ true) (itoa n)
unfolding itoa
itoa-is_digit n = digits-is_digit (suc n) n
