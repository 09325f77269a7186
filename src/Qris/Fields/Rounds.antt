-- ===== src/Qris/Fields/Rounds.antt =====
-- One round of the loop of `parseTLVs` in src/qris/parse.ts, and the print of one field.
use qrib.Qris.Reader.{
  Tlv, two_digits, read_fields, ok, ◌>>=◌, tlv, Parsed, err, bad_header, overruns_payload,
}
use qrib.Common.{
  ◌≤◌, is_digit, Text, ◌+◌, ◌/◌, ◌∷◌, ◌%◌, ◌≡◌, true, length, arith, ◌++◌, refl, take,
  take-length-append, ap, drop, drop-length-append, sym, ◌∙◌, ==_iff, Bool, false, ◌==◌, all,
}
use mathlib.Core.List.{List, []}
use Prim.Native.Nat.{zero, ℕ, suc}

abbrev pub the_tlv : Text → Text → Tlv
the_tlv t v = record { id = t; value = v }

-- Two digits, and a value of at most 99 code units whose length they spell.
abbrev pub IsField : Tlv → Type 0
IsField f =
    (a b : ℕ) × (f.id ≡ a ∷ b ∷ [])
    × (is_digit a ≡ true)
    × (is_digit b ≡ true)
    × (length f.value ≤ 99)

abbrev pub len_text : ℕ → Text
len_text n = (b'0' + n / 10) ∷ (b'0' + n % 10) ∷ []

-- What a field looks like in a payload.
abbrev pub print_field : Tlv → Text
print_field f = f.id ++ (len_text (length f.value) ++ f.value)

abbrev pub print_fields : List Tlv → Text
print_fields [] = []
print_fields (f ∷ rest) = print_field f ++ print_fields rest

pub len_digits :
    (n : ℕ)
    → n ≤ 99
    → (is_digit (b'0' + n / 10) ≡ true)
      × (is_digit (b'0' + n % 10) ≡ true)
      × (two_digits (b'0' + n / 10) (b'0' + n % 10) ≡ n)
len_digits n h = (ground (arith, h), ground (arith, h), omega (arith, h))

two_digits_text :
    (c d : ℕ)
    → is_digit c ≡ true
    → is_digit d ≡ true
    → (len_text (two_digits c d) ≡ c ∷ d ∷ []) × (two_digits c d ≤ 99)
two_digits_text c d hc hd =
    let c_lo : b'0' ≤ c = ground (arith, hc) in
    let c_hi : c ≤ b'9' = ground (arith, hc) in
    let d_lo : b'0' ≤ d = ground (arith, hd) in
    let d_hi : d ≤ b'9' = ground (arith, hd) in
    let tens : b'0' + two_digits c d / 10 ≡ c = omega arith in
    let ones : b'0' + two_digits c d % 10 ≡ d = omega arith in (rw (tens, ones) refl, omega arith)

-- The reader takes a printed field off the front.
read_tlv :
    (fuel a b : ℕ) (v rest : Text)
    → is_digit a ≡ true
    → is_digit b ≡ true
    → length v ≤ 99
    → read_fields (suc fuel) (a ∷ b ∷ (len_text (length v) ++ (v ++ rest)))
      ≡ (read_fields fuel rest >>= λ fields. ok (tlv a b v ∷ fields))
unfolding read_fields
read_tlv fuel a b v rest ha hb short =
    let (hc, hd, n) = len_digits (length v) short in
    rw
      (
        n,
        ha,
        hb,
        hc,
        hd,
        take-length-append v rest,
        drop-length-append v rest,
        (==_iff (length v) (length v)).1 refl,
      )
      refl

pub read_fields-print :
    (fuel : ℕ) (f : Tlv) (rest : Text)
    → IsField f
    → read_fields (suc fuel) (print_field f ++ rest)
      ≡ (read_fields fuel rest >>= λ fields. ok (f ∷ fields))
read_fields-print fuel f rest (a, b, e, ha, hb, short) =
    let same : tlv a b f.value ≡ f = ap (λ (t : Text). the_tlv t f.value) (sym e) in
    let printed : print_field f ++ rest ≡ a ∷ b ∷ (len_text (length f.value) ++ (f.value ++ rest)) =
      ap (λ (t : Text). (t ++ (len_text (length f.value) ++ f.value)) ++ rest) e in
    rw printed (
      read_tlv fuel a b f.value rest ha hb short
      ∙ ap (λ (g : Tlv). read_fields fuel rest >>= λ fields. ok (g ∷ fields)) same)

pub cons_ok :
    (m : Parsed (List Tlv)) (f : Tlv) (fields : List Tlv)
    → (m >>= λ fs. ok (f ∷ fs)) ≡ ok fields
    → (fs : List Tlv) × (m ≡ ok fs) × (f ∷ fs ≡ fields)
unfolding ◌>>=◌
cons_ok (ok fs) f fields e = (fs, refl, cc)
cons_ok (err x) f fields e = absurd (ground (arith, e))

pub take-drop : (n : ℕ) (s : Text) → take n s ++ drop n s ≡ s
take-drop zero s = refl
take-drop (suc n) [] = refl
take-drop (suc n) (c ∷ s) = ap (λ t. c ∷ t) (take-drop n s)

module _ (fuel a b c d : ℕ) (rest : Text) where
  abbrev pub header_ok : Bool
  header_ok = all is_digit (a ∷ b ∷ c ∷ d ∷ [])

  abbrev pub value_here : Text
  value_here = take (two_digits c d) rest

  abbrev pub value_ok : Bool
  value_ok = length value_here == two_digits c d

  pub round-bad_header :
      header_ok ≡ false → read_fields (suc fuel) (a ∷ b ∷ c ∷ d ∷ rest) ≡ err bad_header
  unfolding read_fields
  round-bad_header h = rw h refl

  pub round-overruns :
      header_ok ≡ true
      → value_ok ≡ false
      → read_fields (suc fuel) (a ∷ b ∷ c ∷ d ∷ rest) ≡ err overruns_payload
  unfolding read_fields
  round-overruns h k = rw (h, k) refl

  pub round-field :
      header_ok ≡ true
      → value_ok ≡ true
      → read_fields (suc fuel) (a ∷ b ∷ c ∷ d ∷ rest) ≡ (
          read_fields fuel (drop (two_digits c d) rest) >>= λ fields.
          ok (tlv a b value_here ∷ fields))
  unfolding read_fields
  round-field h k = rw (h, k) refl

  header_digits :
      header_ok ≡ true
      → (is_digit a ≡ true) × (is_digit b ≡ true) × (is_digit c ≡ true) × (is_digit d ≡ true)
  header_digits h = ground (arith, h)

  pub header-IsField : header_ok ≡ true → value_ok ≡ true → IsField (tlv a b value_here)
  header-IsField h k =
      let (ha, hb, hc, hd) = header_digits h in
      let short = (two_digits_text c d hc hd).1 in
      let n = (==_iff (length value_here) (two_digits c d)).0 k in
      (a, b, refl, ha, hb, omega (arith, short, n))

  pub print-field_here :
      (fs : List Tlv)
      → header_ok ≡ true
      → value_ok ≡ true
      → print_fields fs ≡ drop (two_digits c d) rest
      → print_fields (tlv a b value_here ∷ fs) ≡ a ∷ b ∷ c ∷ d ∷ rest
  print-field_here fs h k ih =
      let (ha, hb, hc, hd) = header_digits h in
      let n = (==_iff (length value_here) (two_digits c d)).0 k in
      let len : len_text (length value_here) ≡ c ∷ d ∷ [] =
        ap len_text n ∙ (two_digits_text c d hc hd).0 in
      ap (λ (t : Text). (a ∷ b ∷ (t ++ value_here)) ++ print_fields fs) len
      ∙ ap (λ (t : Text). a ∷ b ∷ c ∷ d ∷ (value_here ++ t)) ih
      ∙ ap (λ (t : Text). a ∷ b ∷ c ∷ d ∷ t) (take-drop (two_digits c d) rest)
