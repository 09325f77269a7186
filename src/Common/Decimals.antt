-- ===== src/Common/Decimals.antt =====
-- Decimal texts: what `toString` writes of a number, padding, and reading it back.
use Prim.Native.Nat.{ℕ, zero, suc, ◌+◌, ◌-◌, ◌*◌, ◌/◌, ◌%◌, ◌<◌, ◌≤◌}
use mathlib.Core.Path.{◌≡◌, refl, ap, ◌∙◌}
use mathlib.Core.Bool.{Bool, true, ◌&&◌}
use mathlib.Core.List.{List, [], ◌∷◌, ◌++◌}
use native.Mathlib.Omega.{arith}
use qrib.Common.Chars.{is_digit, decimal_from}
use qrib.Common.Lists.{length, all}
use qrib.Common.Strings.{Text}

abbrev digit : ℕ → ℕ
digit n = b'0' + n % 10

-- The digits before the last one: none of a number below 10.
abbrev before_last : ℕ → (ℕ → Text) → Text
before_last zero more = []
before_last (suc m) more = more (suc m)

abbrev digits : ℕ → ℕ → Text
digits zero n = []
digits (suc fuel) n = before_last (n / 10) (digits fuel) ++ digit n ∷ []

-- `n.toString()`; a number has fewer digits than its successor has units.
abbrev pub to_decimal : ℕ → Text
to_decimal n = digits (suc n) n

abbrev pub zeros : ℕ → Text
zeros zero = []
zeros (suc n) = b'0' ∷ zeros n

-- `s.padStart(n, "0")`
abbrev pub pad_start : ℕ → Text → Text
pad_start n s = zeros (n - length s) ++ s

-- `s.padEnd(n, "0")`
abbrev pub pad_end : ℕ → Text → Text
pad_end n s = s ++ zeros (n - length s)

pub decimal_from-append :
    (acc : ℕ) (s t : Text) → decimal_from acc (s ++ t) ≡ decimal_from (decimal_from acc s) t
decimal_from-append acc [] t = refl
decimal_from-append acc (c ∷ s) t = decimal_from-append (acc * 10 + (c - b'0')) s t

-- With fuel above the number; a number that is 0 has no digits before the last.
decimal_from-digits : (fuel n : ℕ) → n < fuel → decimal_from 0 (digits fuel n) ≡ n
decimal_from-digits zero n h = absurd (omega (arith, h))
decimal_from-digits (suc fuel) n h =
    decimal_from-append 0 (before_last (n / 10) (digits fuel)) (digit n ∷ [])
    ∙ ap (λ (m : ℕ). decimal_from m (digit n ∷ []))
        (front (n / 10) (omega (arith, h)) (decimal_from-digits fuel (n / 10)))
    ∙ omega arith
  where
    front :
        (m : ℕ)
        → m + m ≤ fuel
        → (m < fuel → decimal_from 0 (digits fuel m) ≡ m)
        → decimal_from 0 (before_last m (digits fuel)) ≡ m
    front zero k ih = refl
    front (suc m) k ih = ih (omega (arith, k))

pub decimal_from-to_decimal : (n : ℕ) → decimal_from 0 (to_decimal n) ≡ n
decimal_from-to_decimal n = decimal_from-digits (suc n) n (omega arith)

pub all-append {ℓ} :
    {A : Type ℓ} (p : A → Bool) (xs ys : List A) → all p (xs ++ ys) ≡ (all p xs && all p ys)
all-append p [] ys = refl
all-append p (x ∷ xs) ys = ground (arith, all-append p xs ys)

before_last-digits :
    (more : ℕ → Text) (m : ℕ)
    → all is_digit (more m) ≡ true
    → all is_digit (before_last m more) ≡ true
before_last-digits more zero h = refl
before_last-digits more (suc m) h = h

all_digits : (fuel n : ℕ) → all is_digit (digits fuel n) ≡ true
all_digits zero n = refl
all_digits (suc fuel) n = ground (
  arith,
  all-append is_digit (before_last (n / 10) (digits fuel)) (digit n ∷ []),
  before_last-digits (digits fuel) (n / 10) (all_digits fuel (n / 10)),
)

pub to_decimal_digits : (n : ℕ) → all is_digit (to_decimal n) ≡ true
to_decimal_digits n = all_digits (suc n) n

pub zeros_digits : (n : ℕ) → all is_digit (zeros n) ≡ true
zeros_digits zero = refl
zeros_digits (suc n) = zeros_digits n

pub decimal_from-zeros : (n : ℕ) → decimal_from 0 (zeros n) ≡ 0
decimal_from-zeros zero = refl
decimal_from-zeros (suc n) = decimal_from-zeros n

pub length-zeros : (n : ℕ) → length (zeros n) ≡ n
length-zeros zero = refl
length-zeros (suc n) = ap suc (length-zeros n)

pub pad_start_value : (n : ℕ) (s : Text) → decimal_from 0 (pad_start n s) ≡ decimal_from 0 s
pad_start_value n s =
    decimal_from-append 0 (zeros (n - length s)) s
    ∙ ap (λ (m : ℕ). decimal_from m s) (decimal_from-zeros (n - length s))
