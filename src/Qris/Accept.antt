-- ===== src/Qris/Accept.antt =====
-- `parseTLVs` and the CRC gate of src/qris/parse.ts on a payload that is closed by its CRC.
use qrib.Common.{
  ◌++◌, ◌<◌, ◌≡◌, length, ◌∷◌, ◌/◌, All, upper, ◌%◌, All-append, ap, hex_digit, ◌∙◌, arith,
  append_right_nil, some, text_eq_refl, sym, refl, ℕ, to_upper,
}
use mathlib.Core.List.{append_assoc, List, []}
use qrib.Qris.Reader.{Tlv, parse_tlvs, crc16, crc_from, hex4, ◌>>=◌, ◌>>◌, ok}
use qrib.Common.{Text, codes}
use qrib.Qris.Code.{check_crc, without_crc, last?}
use qrib.Qris.Fields.{IsField, print_fields, print_field, parse_tlvs_iff, the_tlv, len_text}
use qrib.Qris.Seal.{without_crc-append}

-- The last field of a payload: the CRC of the fields before and of its own header.
abbrev pub crc_field : List Tlv → Tlv
crc_field front = the_tlv (codes "63") (crc16 (print_fields front ++ codes "6304"))

abbrev pub sealed : List Tlv → List Tlv
sealed front = front ++ crc_field front ∷ []

upper-hex_digit : (d : ℕ) → d < 16 → upper (hex_digit d) ≡ hex_digit d
upper-hex_digit d h = ground (arith, h)

to_upper-hex4 : (n : ℕ) → to_upper (hex4 n) ≡ hex4 n
to_upper-hex4 n =
    rw
      (
        upper-hex_digit (n / 4096 % 16) (omega arith),
        upper-hex_digit (n / 256 % 16) (omega arith),
        upper-hex_digit (n / 16 % 16) (omega arith),
        upper-hex_digit (n % 16) (omega arith),
      )
      refl

to_upper-crc16 : (s : Text) → to_upper (crc16 s) ≡ crc16 s
unfolding crc16
to_upper-crc16 s = to_upper-hex4 (crc_from 0xffff s)

length-crc16 : (s : Text) → length (crc16 s) ≡ 4
unfolding crc16
length-crc16 s = refl

last?-append : (front : List Tlv) (f : Tlv) → last? (front ++ f ∷ []) ≡ some f
last?-append [] f = refl
last?-append (g ∷ []) f = refl
last?-append (g ∷ h ∷ rest) f = last?-append (h ∷ rest) f

print_fields-append :
    (xs ys : List Tlv) → print_fields (xs ++ ys) ≡ print_fields xs ++ print_fields ys
print_fields-append [] ys = refl
print_fields-append (f ∷ xs) ys =
    ap (λ (t : Text). print_field f ++ t) (print_fields-append xs ys)
    ∙ sym (append_assoc (print_field f) (print_fields xs) (print_fields ys))

print_sealed :
    (front : List Tlv)
    → print_fields (sealed front) ≡ print_fields front ++ (codes "6304" ++ (crc_field front).value)
print_sealed front =
    let sum = (crc_field front).value in
    let one : print_fields (crc_field front ∷ []) ≡ codes "6304" ++ sum =
      append_right_nil (print_field (crc_field front))
      ∙ ap (λ (n : ℕ). codes "63" ++ (len_text n ++ sum))
          (length-crc16 (print_fields front ++ codes "6304")) in
    print_fields-append front (crc_field front ∷ [])
    ∙ ap (λ (t : Text). print_fields front ++ t) one

check_crc-sealed :
    (front : List Tlv) → check_crc (print_fields (sealed front)) (sealed front) ≡ ok tt
unfolding check_crc ◌>>=◌ ◌>>◌
check_crc-sealed front =
    let body = print_fields front ++ codes "6304" in
    let four = length-crc16 body in
    let cut : without_crc (print_fields (sealed front)) ≡ body =
      ap without_crc (print_sealed front)
      ∙ without_crc-append (print_fields front) (crc16 body) four in
    rw
      (
        last?-append front (crc_field front),
        four,
        cut,
        to_upper-crc16 body,
        text_eq_refl (crc16 body),
      )
      refl

All-sealed : (front : List Tlv) → All IsField front → All IsField (sealed front)
All-sealed front h =
    let four = length-crc16 (print_fields front ++ codes "6304") in
    All-append IsField front (crc_field front ∷ []) h
      ((b'6', b'3', refl, refl, refl, omega (arith, four)), tt)

-- A list of fields, printed and closed by the field "63" with the CRC of what stands before it, is
-- read back by `parseTLVs` and passes the CRC gate.
pub check_crc_accepts :
    (front : List Tlv)
    → All IsField front
    → (parse_tlvs (print_fields (sealed front)) ≡ ok (sealed front))
      × (check_crc (print_fields (sealed front)) (sealed front) ≡ ok tt)
check_crc_accepts front h = (
  (parse_tlvs_iff (print_fields (sealed front)) (sealed front)).1 (All-sealed front h, refl),
  check_crc-sealed front,
)
