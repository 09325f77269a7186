-- ===== src/Engine/Quote/Display.antt =====
-- `formatMicros` of src/engine/quote.ts: an amount in millionths, as a text.
use Prim.Native.Nat.{zero}
use qrib.Common.{
  Text, ℤ, ℕ, if◌then◌else◌, pos, pad_start, text_eq, ◌≤◌, take, all, length, is_decimal,
  decimal_from, IsWorth, negsuc, to_decimal, [], codes, ◌≡◌, ◌++◌, is_digit, ◌-◌, arith, drop, ◌*◌,
  subst, strip_zeros, suc, true, length-append, ap, ◌+◌, strip_zeros-IsWorth, ◌∷◌, zeros,
  all-append, ◌&&◌, sym, length-zeros, zeros_digits, ◌∙◌, refl, to_decimal_digits,
  decimal_from-append, pad_start_value, decimal_from-to_decimal,
}

-- The last six digits behind a point, and no zeros at the end.
abbrev pub micros_text : ℕ → Text
micros_text n =
    let s = pad_start 7 (to_decimal n) in
    let cut = length s - 6 in strip_zeros (take cut s ++ b'.' ∷ drop cut s)

abbrev pub or_zero : Text → Text
or_zero s = if text_eq s [] then codes "0" else s

-- `formatMicros`
unfoldable pub format_micros : ℤ → Text
format_micros (pos n) = or_zero (micros_text n)
format_micros (negsuc n) = codes "-" ++ or_zero (micros_text (suc n))

length-take : (n : ℕ) (s : Text) → n ≤ length s → length (take n s) ≡ n
length-take zero s h = refl
length-take (suc n) [] h = absurd (omega (arith, h))
length-take (suc n) (c ∷ s) h = ap suc (length-take n s (omega (arith, h)))

take-drop : (n : ℕ) (s : Text) → take n s ++ drop n s ≡ s
take-drop zero s = refl
take-drop (suc n) [] = refl
take-drop (suc n) (c ∷ s) = ap (λ t. c ∷ t) (take-drop n s)

-- Six digits after a number.
six_digits :
    (acc : ℕ) (f : Text)
    → all is_digit f ≡ true
    → length f ≡ 6
    → decimal_from acc f ≡ acc * 1_000_000 + decimal_from 0 f
six_digits acc (a ∷ b ∷ c ∷ d ∷ e ∷ g ∷ []) h six = omega arith
six_digits acc (a ∷ b ∷ c ∷ d ∷ e ∷ g ∷ i ∷ s) h six = absurd (omega (arith, six))
six_digits acc (a ∷ b ∷ c ∷ d ∷ e ∷ []) h six = absurd (omega (arith, six))
six_digits acc (a ∷ b ∷ c ∷ d ∷ []) h six = absurd (omega (arith, six))
six_digits acc (a ∷ b ∷ c ∷ []) h six = absurd (omega (arith, six))
six_digits acc (a ∷ b ∷ []) h six = absurd (omega (arith, six))
six_digits acc (a ∷ []) h six = absurd (omega (arith, six))
six_digits acc [] h six = absurd (omega (arith, six))

module _ (n : ℕ) where
  abbrev padded : Text
  padded = pad_start 7 (to_decimal n)

  abbrev cut : ℕ
  cut = length padded - 6

  padded_long : 7 ≤ length padded
  padded_long = omega (
    arith,
    length-append (zeros (7 - length (to_decimal n))) (to_decimal n),
    length-zeros (7 - length (to_decimal n)),
  )

  padded_digits : all is_digit padded ≡ true
  padded_digits = ground (
    arith,
    all-append is_digit (zeros (7 - length (to_decimal n))) (to_decimal n),
    zeros_digits (7 - length (to_decimal n)),
    to_decimal_digits n,
  )

  parts_digits : (all is_digit (take cut padded) ≡ true) × (all is_digit (drop cut padded) ≡ true)
  parts_digits =
      let both : (all is_digit (take cut padded) && all is_digit (drop cut padded)) ≡ true =
        sym (all-append is_digit (take cut padded) (drop cut padded))
        ∙ ap (all is_digit) (take-drop cut padded)
        ∙ padded_digits in
      (ground (arith, both), ground (arith, both))

  whole_length : length (take cut padded) ≡ cut
  whole_length = length-take cut padded (omega arith)

  frac_length : length (drop cut padded) ≡ 6
  frac_length =
      let total = ap length (take-drop cut padded) in
      omega
        (arith, total, length-append (take cut padded) (drop cut padded), whole_length, padded_long)

  whole_decimal : is_decimal (take cut padded) ≡ true
  whole_decimal =
      decimal_of (take cut padded) parts_digits.0 (omega (arith, whole_length, padded_long))
    where
      decimal_of : (s : Text) → all is_digit s ≡ true → 1 ≤ length s → is_decimal s ≡ true
      decimal_of [] h k = absurd (omega (arith, k))
      decimal_of (c ∷ s) h k = ground (arith, h)

  parts_worth : decimal_from 0 (take cut padded) * 1_000_000 + decimal_from 0 (drop cut padded) ≡ n
  parts_worth =
      sym
        (six_digits (decimal_from 0 (take cut padded)) (drop cut padded) parts_digits.1 frac_length)
      ∙ sym (decimal_from-append 0 (take cut padded) (drop cut padded))
      ∙ ap (decimal_from 0) (take-drop cut padded)
      ∙ pad_start_value 7 (to_decimal n)
      ∙ decimal_from-to_decimal n

  micros_text-IsWorth : IsWorth n (micros_text n)
  micros_text-IsWorth =
      subst (λ m. IsWorth m (micros_text n)) parts_worth
        (strip_zeros-IsWorth (take cut padded) (drop cut padded) whole_decimal parts_digits.1
          frac_length)

or_zero-IsWorth : (n : ℕ) (s : Text) → IsWorth n s → IsWorth n (or_zero s)
or_zero-IsWorth n [] h = absurd (ground (arith, h.fixed))
or_zero-IsWorth n (c ∷ s) h = h

-- What `formatMicros` writes is a decimal with at most six places that is worth the amount.
pub format_micros-IsWorth : (n : ℕ) → IsWorth n (format_micros (pos n))
unfolding format_micros
format_micros-IsWorth n = or_zero-IsWorth n (micros_text n) (micros_text-IsWorth n)
