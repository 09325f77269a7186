-- ===== src/Qris/Amount.antt =====
-- `wholeRupiah` of src/qris/parse.ts: the amount in its shortest form.
use qrib.Qris.Reader.{whole_rupiah, is_amount, drop_zeros, ok, is_zeros}
use qrib.Common.{
  Text, decimal_from, all, ◌≡◌, true, is_digit, ◌∷◌, arith, Bool-cases, refl, ◌==◌, ==_iff, ◌*◌,
  ◌+◌, ◌-◌, ◌&&◌, ℕ, inl, ◌∙◌, inr, ap, before_point, after_point,
}
use mathlib.Core.List.{[]}

-- At most 13 digits, the first not 0 unless it stands alone.
pub record IsShortest (t : Text) : Type 0 where
  pub digits : is_amount t ≡ true
  pub no_zeros : drop_zeros t ≡ t

drop_zeros-is_amount : (s : Text) → is_amount s ≡ true → is_amount (drop_zeros s) ≡ true
drop_zeros-is_amount [] h = h
drop_zeros-is_amount (c ∷ []) h = h
drop_zeros-is_amount (c ∷ d ∷ s) h = ground (arith, h, drop_zeros-is_amount (d ∷ s))

drop_zeros_idem : (s : Text) → drop_zeros (drop_zeros s) ≡ drop_zeros s
drop_zeros_idem [] = refl
drop_zeros_idem (c ∷ []) = refl
drop_zeros_idem (c ∷ d ∷ s) = elim (Bool-cases (c == b'0')) [
  | inl zero ↦ rw zero (drop_zeros_idem (d ∷ s))
  | inr other ↦ rw (other, other) refl
]

decimal_from-drop_zeros : (s : Text) → decimal_from 0 (drop_zeros s) ≡ decimal_from 0 s
decimal_from-drop_zeros [] = refl
decimal_from-drop_zeros (c ∷ []) = refl
decimal_from-drop_zeros (c ∷ d ∷ s) = elim (Bool-cases (c == b'0')) [
  | inl zero ↦
      let n : c ≡ b'0' = (==_iff c b'0').0 zero in
      let acc : 0 * 10 + (d - b'0') ≡ (0 * 10 + (c - b'0')) * 10 + (d - b'0') = omega (arith, n) in
      rw zero (decimal_from-drop_zeros (d ∷ s) ∙ ap (λ (a : ℕ). decimal_from a s) acc)
  | inr other ↦ rw other refl
]

before_point-digits : (s : Text) → all is_digit s ≡ true → before_point s ≡ s
before_point-digits [] h = refl
before_point-digits (c ∷ s) h = ground (arith, h, before_point-digits s)

shortest : (s : Text) → is_amount s ≡ true → IsShortest (drop_zeros s)
shortest s h = record { digits = drop_zeros-is_amount s h; no_zeros = drop_zeros_idem s }

-- What `wholeRupiah` returns: the shortest form of the digits before the point, with their value.
pub whole_rupiah-IsShortest :
    (raw t : Text)
    → whole_rupiah raw ≡ ok t
    → IsShortest t × (decimal_from 0 t ≡ decimal_from 0 (before_point raw))
unfolding whole_rupiah
whole_rupiah-IsShortest raw t e = elim (Bool-cases (is_amount raw)) [
  | inl plain ↦
      let same : drop_zeros raw ≡ t = ground (arith, e, plain) in
      let digits : all is_digit raw ≡ true = ground (arith, plain) in
      rw (← same)
        (shortest raw plain, rw (before_point-digits raw digits) (decimal_from-drop_zeros raw))
  | inr other ↦ elim (Bool-cases (is_amount (before_point raw) && is_zeros (after_point raw))) [
    | inl pointed ↦
        let same : drop_zeros (before_point raw) ≡ t = ground (arith, e, other, pointed) in
        let whole : is_amount (before_point raw) ≡ true = ground (arith, pointed) in
        rw (← same) (shortest (before_point raw) whole, decimal_from-drop_zeros (before_point raw))
    | inr neither ↦ absurd (ground (arith, e, other, neither))
  ]
]
