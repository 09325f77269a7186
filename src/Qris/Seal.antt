-- ===== src/Qris/Seal.antt =====
-- The CRC that closes a payload of `parseQris` in src/qris/parse.ts.
use mathlib.Core.Option.{none}
use qrib.Common.{
  ◌≡◌, ◌++◌, some, trim, arith, codes, to_upper, text_eq_sound, sym, ==_iff, ap, ◌∙◌, ℕ, ◌∷◌,
  append_right_nil, ◌-◌, true, length-append, take, take-length-append, refl,
}
use qrib.Qris.Reader.{Tlv, found_or, crc16, ◌>>◌, QrisError, ok, no_crc, has_tag}
use qrib.Common.{Text, List, Option, length}
use qrib.Qris.Code.{last?, check_crc, without_crc, parse_qris, QrisData}
use qrib.Qris.Fields.{print_field, print_fields, len_text, parse_tlvs_iff}
use mathlib.Core.List.{append_assoc, []}
use qrib.Qris.Gate.{
  Yields, Yields-bind, Yields-skip, Yields-throw, Yields-throw_last, Yields-ok, AmountFits,
  read_code-IsReadOf,
}

-- What the digits of the CRC are taken of, and the digits.
pub record IsSealed (payload : Text) : Type 0 where
  pub body : Text
  pub sum : Text
  pub ends : payload ≡ body ++ (codes "6304" ++ sum)
  pub agrees : to_upper sum ≡ crc16 (body ++ codes "6304")

print_fields-last? :
    (fields : List Tlv) (f : Tlv)
    → last? fields ≡ some f
    → (front : Text) × (print_fields fields ≡ front ++ print_field f)
print_fields-last? [] f e = absurd (ground (arith, e))
print_fields-last? (g ∷ []) f e =
    let same : g ≡ f = ground (arith, e) in
    ([], append_right_nil (print_field g) ∙ ap print_field same)
print_fields-last? (g ∷ h ∷ rest) f e =
    let (front, printed) = print_fields-last? (h ∷ rest) f e in
    (
      print_field g ++ front,
      ap (λ (t : Text). print_field g ++ t) printed
          ∙ sym (append_assoc (print_field g) front (print_field f)),
    )

-- What is left of a sealed payload without its CRC.
pub without_crc-append :
    (body sum : Text)
    → length sum ≡ 4
    → without_crc (body ++ (codes "6304" ++ sum)) ≡ body ++ codes "6304"
without_crc-append body sum four =
    let whole = body ++ codes "6304" in
    let split : body ++ (codes "6304" ++ sum) ≡ whole ++ sum =
      sym (append_assoc body (codes "6304") sum) in
    let cut : length (whole ++ sum) - 4 ≡ length whole =
      omega (arith, length-append whole sum, four) in
    ap without_crc split ∙ ap (λ (n : ℕ). take n (whole ++ sum)) cut ∙ take-length-append whole sum

found_or-Yields :
    {A : Type 0} (o : Option A) (x : QrisError) → Yields (λ a. o ≡ some a) (found_or o x)
found_or-Yields none x = record { at = λ a e. absurd (ground (arith, e)) }
found_or-Yields (some b) x = Yields-ok (λ a. some b ≡ some a) b refl

module _ (payload : Text) (fields : List Tlv) (printed : print_fields fields ≡ payload) where
  last_field-IsSealed :
      (final : Tlv)
      → last? fields ≡ some final
      → has_tag (codes "63") final ≡ true
      → length final.value ≡ 4
      → crc16 (without_crc payload) ≡ to_upper final.value
      → IsSealed payload
  last_field-IsSealed final found tagged four crc =
      let (front, ends) = print_fields-last? fields final found in
      let tag : final.id ≡ codes "63" = text_eq_sound final.id (codes "63") tagged in
      let last : print_field final ≡ codes "6304" ++ final.value =
        ap (λ (t : Text). t ++ (len_text (length final.value) ++ final.value)) tag
        ∙ ap (λ (n : ℕ). codes "63" ++ (len_text n ++ final.value)) four in
      let whole : payload ≡ front ++ (codes "6304" ++ final.value) =
        sym printed ∙ ends ∙ ap (λ (t : Text). front ++ t) last in
      record {
        body = front;
        sum = final.value;
        ends = whole;
        agrees =
            sym crc ∙ ap crc16 (ap without_crc whole ∙ without_crc-append front final.value four);
      }

  check_crc-IsSealed : Yields (λ _. IsSealed payload) (check_crc payload fields)
  unfolding check_crc
  check_crc-IsSealed =
      let P = λ (_ : Unit {0}). IsSealed payload in
      Yields-bind (λ f. last? fields ≡ some f) P _ _ (found_or-Yields (last? fields) no_crc)
        λ final found. Yields-throw P _ _ _ λ shaped. Yields-throw_last P _ _ λ same.
          last_field-IsSealed final found (ground (arith, shaped))
            ((==_iff (length final.value) 4).0 (ground (arith, shaped)))
            (text_eq_sound (crc16 (without_crc payload)) (to_upper final.value)
              (ground (arith, same)))

parse_qris-Yields :
    (input : Text)
    → Yields
        (λ d.
          IsSealed (trim input) × (d.payload ≡ trim input) × AmountFits d.initiation d.amount_idr)
        (parse_qris input)
unfolding parse_qris ◌>>◌
parse_qris-Yields input =
    let P = λ (d : QrisData).
      IsSealed (trim input) × (d.payload ≡ trim input) × AmountFits d.initiation d.amount_idr in
    Yields-skip P _ _ λ _.
      Yields-bind (λ fs. print_fields fs ≡ trim input) P _ _
        (record { at = λ fs e. ((parse_tlvs_iff (trim input) fs).0 e).1 })
        λ fields printed. Yields-skip P _ _ λ i.
          Yields-bind (λ _. IsSealed (trim input)) P _ _
            (check_crc-IsSealed (trim input) fields printed)
            λ _ sealed. record {
              at = λ d e.
                  let read = (read_code-IsReadOf (trim input) i fields).at d e in
                  (sealed, read.whole, read.amount);
            }

-- Where `parseQris` returns, the trimmed text ends with "6304" and the CRC of all that stands
-- before, in either case; it is the payload returned, and a dynamic code has an amount in its
-- shortest form, a static one has none.
pub parse_qris-IsSealed :
    (input : Text) (d : QrisData)
    → parse_qris input ≡ ok d
    → IsSealed (trim input) × (d.payload ≡ trim input) × AmountFits d.initiation d.amount_idr
parse_qris-IsSealed input d e = (parse_qris-Yields input).at d e
