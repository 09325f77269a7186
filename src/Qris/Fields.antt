-- ===== src/Qris/Fields.antt =====
-- `parseTLVs` of src/qris/parse.ts reads exactly what a printer of fields writes.
mod Rounds
pub use Rounds.*
use qrib.Qris.Reader.{
  Tlv, two_digits, read_fields, ok, ◌>>=◌, tlv, Parsed, err, bad_header, overruns_payload,
  parse_tlvs, out_of_fuel,
}
use qrib.Common.{
  ◌≤◌, is_digit, Text, ◌+◌, ◌/◌, ◌∷◌, ◌%◌, ◌≡◌, true, length, arith, ◌++◌, All, refl, take,
  take-length-append, ap, drop, drop-length-append, sym, ◌∙◌, ==_iff, Bool, Bool-cases, false, ◌==◌,
  all, ◌↔◌, inr, inl, length-append, ◌<◌, ◌≢◌,
}
use mathlib.Core.List.{List, []}
use Prim.Native.Nat.{zero, ℕ, suc}

-- The reader takes nothing but printed fields.
read_fields_inv :
    (fuel : ℕ) (s : Text) (fields : List Tlv)
    → read_fields fuel s ≡ ok fields
    → All IsField fields × (print_fields fields ≡ s)
unfolding read_fields
read_fields_inv zero s fields e = absurd (ground (arith, e))
read_fields_inv (suc fuel) [] fields e = let h : [] ≡ fields = cc in rw (← h) (tt, refl)
read_fields_inv (suc fuel) (a ∷ []) fields e = absurd (ground (arith, e))
read_fields_inv (suc fuel) (a ∷ b ∷ []) fields e = absurd (ground (arith, e))
read_fields_inv (suc fuel) (a ∷ b ∷ c ∷ []) fields e = absurd (ground (arith, e))
read_fields_inv (suc fuel) (a ∷ b ∷ c ∷ d ∷ rest) fields e =
    elim (Bool-cases (header_ok fuel a b c d rest)) [
      | inr bad ↦ absurd (ground (arith, e, round-bad_header fuel a b c d rest bad))
      | inl h ↦ elim (Bool-cases (value_ok fuel a b c d rest)) [
        | inr bad ↦ absurd (ground (arith, e, round-overruns fuel a b c d rest h bad))
        | inl k ↦
            let n = two_digits c d in
            let (fs, read, same) =
              cons_ok (read_fields fuel (drop n rest)) (tlv a b (take n rest)) fields
                (sym (round-field fuel a b c d rest h k) ∙ e) in
            let (ih, printed) = read_fields_inv fuel (drop n rest) fs read in
            rw (← same) (
              (header-IsField fuel a b c d rest h k, ih),
              print-field_here fuel a b c d rest fs h k printed,
            )
      ]
    ]

length-print_fields :
    (f : Tlv) (rest : List Tlv)
    → IsField f
    → length (print_fields rest) + 4 ≤ length (print_fields (f ∷ rest))
length-print_fields f rest (a, b, e, _, _, _) =
    let two : length f.id ≡ 2 = ap length e in
    omega (
      arith,
      two,
      length-append (print_field f) (print_fields rest),
      length-append f.id (len_text (length f.value) ++ f.value),
      length-append (len_text (length f.value)) f.value,
    )

read_fields_complete :
    (fuel : ℕ) (fields : List Tlv)
    → All IsField fields
    → length (print_fields fields) ≤ fuel
    → read_fields (suc fuel) (print_fields fields) ≡ ok fields
unfolding read_fields ◌>>=◌
read_fields_complete fuel [] h enough = refl
read_fields_complete zero (f ∷ rest) h enough =
    absurd (omega (arith, enough, length-print_fields f rest h.0))
read_fields_complete (suc fuel) (f ∷ rest) h enough =
    let ih =
      read_fields_complete fuel rest h.1 (omega (arith, enough, length-print_fields f rest h.0)) in
    read_fields-print (suc fuel) f (print_fields rest) h.0
    ∙ ap (λ (m : Parsed (List Tlv)). m >>= λ fields. ok (f ∷ fields)) ih

-- `parseTLVs` returns a list of fields exactly where the text is what a printer of these fields
-- writes: each has a tag of two digits, and the length of its value in two digits.
pub parse_tlvs_iff :
    (s : Text) (fields : List Tlv)
    → (parse_tlvs s ≡ ok fields) ↔ (All IsField fields × (print_fields fields ≡ s))
unfolding parse_tlvs
parse_tlvs_iff s fields = (
  read_fields_inv (suc (length s)) s fields,
  λ h. rw (← h.1) (read_fields_complete (length (print_fields fields)) fields h.0 (omega arith)),
)

append_fuel :
    (m : Parsed (List Tlv)) (f : Tlv)
    → m ≢ err out_of_fuel
    → (m >>= λ fields. ok (f ∷ fields)) ≢ err out_of_fuel
unfolding ◌>>=◌
append_fuel (ok fields) f h e = ground (arith, e)
append_fuel (err x) f h e = h (ground (arith, e))

length-drop : (n : ℕ) (s : Text) → length (drop n s) ≤ length s
length-drop zero s = omega arith
length-drop (suc n) [] = omega arith
length-drop (suc n) (c ∷ s) = omega (arith, length-drop n s)

read_fields_ends : (fuel : ℕ) (s : Text) → length s < fuel → read_fields fuel s ≢ err out_of_fuel
unfolding read_fields
read_fields_ends zero s h e = absurd (omega (arith, h))
read_fields_ends (suc fuel) [] h e = ground (arith, e)
read_fields_ends (suc fuel) (a ∷ []) h e = ground (arith, e)
read_fields_ends (suc fuel) (a ∷ b ∷ []) h e = ground (arith, e)
read_fields_ends (suc fuel) (a ∷ b ∷ c ∷ []) h e = ground (arith, e)
read_fields_ends (suc fuel) (a ∷ b ∷ c ∷ d ∷ rest) h e =
    elim (Bool-cases (header_ok fuel a b c d rest)) [
      | inr bad ↦ ground (arith, e, round-bad_header fuel a b c d rest bad)
      | inl k ↦ elim (Bool-cases (value_ok fuel a b c d rest)) [
        | inr bad ↦ ground (arith, e, round-overruns fuel a b c d rest k bad)
        | inl l ↦
            let n = two_digits c d in
            append_fuel (read_fields fuel (drop n rest)) (tlv a b (take n rest))
              (read_fields_ends fuel (drop n rest) (omega (arith, h, length-drop n rest)))
              (sym (round-field fuel a b c d rest k l) ∙ e)
      ]
    ]

-- `parseTLVs` ends on every text: its loop never runs out of fuel.
pub parse_tlvs_ends : (s : Text) → parse_tlvs s ≢ err out_of_fuel
unfolding parse_tlvs
parse_tlvs_ends s = read_fields_ends (suc (length s)) s (omega arith)
