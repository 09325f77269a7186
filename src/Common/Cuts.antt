-- ===== src/Common/Cuts.antt =====
-- Cutting the zeros off a decimal with six places, and reading it at its point.
use Prim.Native.Nat.{ℕ, zero, suc, ◌+◌, ◌-◌, ◌*◌, ◌≤◌, ◌^◌}
use mathlib.Core.Path.{◌≡◌, refl, sym, ap, ◌∙◌}
use mathlib.Core.Logic.{inl, inr}
use mathlib.Core.Bool.{Bool, true, false, ◌&&◌, not}
use mathlib.Core.Option.{Option, none, some}
use mathlib.Core.List.{[], ◌∷◌, ◌++◌, reverse, reverse_aux}
use native.Mathlib.Omega.{arith}
use qrib.Common.Tests.{leb, ◌==◌, Bool-cases, ==_iff}
use qrib.Common.Lists.{all, length}
use qrib.Common.Strings.{Text, text_eq, append_right_nil}
use qrib.Common.Chars.{is_digit, is_decimal, is_space, trim, trim_start, decimal_from}
use qrib.Common.Decimals.{zeros, pad_end, all-append, decimal_from-zeros}
use qrib.Common.Scans.{before_point, after_point, is_fixed, all_zeros, is_tail, strip_zeros}

-- Every code unit is one that `trim` keeps.
abbrev pub is_solid : Text → Bool
is_solid s = all (λ c. not (is_space c)) s

all-reverse_aux : (p : ℕ → Bool) (s t : Text) → all p (reverse_aux s t) ≡ (all p s && all p t)
all-reverse_aux p [] t = refl
all-reverse_aux p (c ∷ s) t = ground (arith, all-reverse_aux p s (c ∷ t))

reverse_aux_twice : (s t u : Text) → reverse_aux (reverse_aux s t) u ≡ reverse_aux t (s ++ u)
reverse_aux_twice [] t u = refl
reverse_aux_twice (c ∷ s) t u = reverse_aux_twice s (c ∷ t) u

trim_start-solid : (s : Text) → is_solid s ≡ true → trim_start s ≡ s
trim_start-solid [] h = refl
trim_start-solid (c ∷ s) h = ground (arith, h)

pub trim-solid : (s : Text) → is_solid s ≡ true → trim s ≡ s
trim-solid s h =
    let back : is_solid (reverse s) ≡ true =
      ground (arith, h, all-reverse_aux (λ c. not (is_space c)) s []) in
    rw (trim_start-solid s h, trim_start-solid (reverse s) back)
      (reverse_aux_twice s [] [] ∙ append_right_nil s)

digits-solid : (s : Text) → all is_digit s ≡ true → is_solid s ≡ true
digits-solid [] h = refl
digits-solid (c ∷ s) h = ground (arith, h, digits-solid s)

-- Cutting the zeros off digits and filling them in again.
record IsCutOf (f g : Text) : Type 0 where
  only_digits : all is_digit g ≡ true
  short : length g ≤ length f
  filled : g ++ zeros (length f - length g) ≡ f

zeros_of : (f : Text) → all (λ c. c == b'0') f ≡ true → zeros (length f) ≡ f
zeros_of [] h = refl
zeros_of (c ∷ f) h =
    let zero : c ≡ b'0' = (==_iff c b'0').0 (ground (arith, h)) in
    ap (λ (s : Text). b'0' ∷ s) (zeros_of f (ground (arith, h))) ∙ ap (λ (d : ℕ). d ∷ f) (sym zero)

digit_tail : (c : ℕ) (f : Text) → is_digit c ≡ true → is_tail (c ∷ f) ≡ all_zeros (c ∷ f)
digit_tail c f h = ground (arith, h)

strip_zeros-IsCutOf : (f : Text) → all is_digit f ≡ true → IsCutOf f (strip_zeros f)
strip_zeros-IsCutOf [] h = record { only_digits = refl; short = omega arith; filled = refl }
strip_zeros-IsCutOf (c ∷ f) h = elim (Bool-cases (is_tail (c ∷ f))) [
  | inl tail ↦
      let zero : all (λ d. d == b'0') (c ∷ f) ≡ true =
        ground (arith, tail, digit_tail c f (ground (arith, h))) in
      let none_cut : suc (length f) - 0 ≡ suc (length f) = omega arith in
      rw tail (record {
        only_digits = refl;
        short = omega arith;
        filled = ap zeros none_cut ∙ zeros_of (c ∷ f) zero;
      })
  | inr kept ↦
      let ih = strip_zeros-IsCutOf f (ground (arith, h)) in
      let same_cut : suc (length f) - suc (length (strip_zeros f))
          ≡ length f - length (strip_zeros f) =
        omega arith in
      rw kept (record {
        only_digits = ground (arith, h, ih.only_digits);
        short = omega (arith, ih.short);
        filled =
            ap (λ (n : ℕ). c ∷ (strip_zeros f ++ zeros n)) same_cut
            ∙ ap (λ (s : Text). c ∷ s) ih.filled;
      })
]

no_zeros_past_point : (w f : Text) → all (λ c. c == b'0') (w ++ b'.' ∷ f) ≡ false
no_zeros_past_point [] f = refl
no_zeros_past_point (c ∷ w) f = ground (arith, no_zeros_past_point w f)

-- Nothing is cut off before the point.
strip_zeros-point :
    (w f : Text) → all is_digit w ≡ true → strip_zeros (w ++ b'.' ∷ f) ≡ w ++ strip_zeros (b'.' ∷ f)
strip_zeros-point [] f h = refl
strip_zeros-point (c ∷ w) f h =
    let kept : is_tail (c ∷ (w ++ b'.' ∷ f)) ≡ false = ground (arith, h, no_zeros_past_point w f) in
    rw kept (ap (λ (s : Text). c ∷ s) (strip_zeros-point w f (ground (arith, h))))

before_point-digits :
    (w t : Text) → all is_digit w ≡ true → before_point (w ++ t) ≡ w ++ before_point t
before_point-digits [] t h = refl
before_point-digits (c ∷ w) t h =
    let digit : (c == b'.') ≡ false = ground (arith, h) in
    rw digit (ap (λ (s : Text). c ∷ s) (before_point-digits w t (ground (arith, h))))

after_point-digits : (w t : Text) → all is_digit w ≡ true → after_point (w ++ t) ≡ after_point t
after_point-digits [] t h = refl
after_point-digits (c ∷ w) t h =
    let digit : (c == b'.') ≡ false = ground (arith, h) in
    rw digit (after_point-digits w t (ground (arith, h)))

-- What a decimal with at most `n` places is worth in units of its last place: `parseUnits`.
abbrev pub places_of : Option Text → Text
places_of none = []
places_of (some frac) = frac

abbrev pub fixed_value : ℕ → Text → ℕ
fixed_value n s =
    decimal_from 0 (before_point s) * 10 ^ n
    + decimal_from 0 (pad_end n (places_of (after_point s)))

-- A text that the source's regular expression accepts, with its worth.
pub record IsWorth (n : ℕ) (s : Text) : Type 0 where
  pub fixed : is_fixed 6 s ≡ true
  pub solid : is_solid s ≡ true
  pub worth : fixed_value 6 s ≡ n

all_zeros-zeros : (n : ℕ) → all_zeros (zeros (suc n)) ≡ true
all_zeros-zeros zero = refl
all_zeros-zeros (suc n) = ground (arith, all_zeros-zeros n)

left_over : (f g : Text) → IsCutOf f g → all_zeros f ≡ false → length f ≡ 6 → text_eq g [] ≡ false
left_over f (c ∷ g) cut some_left six = refl
left_over f [] cut some_left six =
    let n : length f - 0 ≡ suc 5 = omega (arith, six) in
    let all_six : zeros (suc 5) ≡ f = ap zeros (sym n) ∙ cut.filled in
    absurd (ground (arith, some_left, ap all_zeros all_six, all_zeros-zeros 5))

is_decimal_digits : (w : Text) → is_decimal w ≡ true → all is_digit w ≡ true
is_decimal_digits w h = ground (arith, h)

module _ (w f : Text) (whole : is_decimal w ≡ true) (frac : all is_digit f ≡ true)
    (six : length f ≡ 6) where
  abbrev worth_of : ℕ
  worth_of = decimal_from 0 w * 1_000_000 + decimal_from 0 f

  whole_only : all_zeros f ≡ true → IsWorth worth_of (w ++ [])
  whole_only none_left =
      let digits = is_decimal_digits w whole in
      let before : before_point (w ++ []) ≡ w =
        before_point-digits w [] digits ∙ append_right_nil w in
      let after : after_point (w ++ []) ≡ none = after_point-digits w [] digits in
      let zero : decimal_from 0 f ≡ 0 =
        ap (decimal_from 0) (sym (zeros_of f (ground (arith, none_left))))
        ∙ decimal_from-zeros (length f) in
      record {
        fixed = rw (before, after) (ground (arith, whole));
        solid = rw (append_right_nil w) (digits-solid w digits);
        worth = rw (before, after) (omega (arith, zero));
      }

  with_places : (g : Text) → IsCutOf f g → text_eq g [] ≡ false → IsWorth worth_of (w ++ b'.' ∷ g)
  with_places g cut some_left =
      let digits = is_decimal_digits w whole in
      let before : before_point (w ++ b'.' ∷ g) ≡ w =
        before_point-digits w (b'.' ∷ g) digits ∙ append_right_nil w in
      let after : after_point (w ++ b'.' ∷ g) ≡ some g = after_point-digits w (b'.' ∷ g) digits in
      let padded : pad_end 6 g ≡ f =
        ap (λ (n : ℕ). g ++ zeros (n - length g)) (sym six) ∙ cut.filled in
      let few : leb (length g) 6 ≡ true = ground (arith, cut.short, six) in
      record {
        fixed = rw (before, after) (ground (arith, whole, some_left, few, cut.only_digits));
        solid = ground (
          arith,
          digits-solid w digits,
          digits-solid g cut.only_digits,
          all-append (λ c. not (is_space c)) w (b'.' ∷ g),
        );
        worth = rw (before, after, padded) refl;
      }

  -- The decimal is worth the same without the zeros at its end.
  pub strip_zeros-IsWorth : IsWorth worth_of (strip_zeros (w ++ b'.' ∷ f))
  strip_zeros-IsWorth =
      rw (strip_zeros-point w f (is_decimal_digits w whole)) (elim (Bool-cases (all_zeros f)) [
        | inl none_left ↦ rw none_left (whole_only none_left)
        | inr some_left ↦
            let cut = strip_zeros-IsCutOf f frac in
            rw some_left
              (with_places (strip_zeros f) cut (left_over f (strip_zeros f) cut some_left six))
      ])
