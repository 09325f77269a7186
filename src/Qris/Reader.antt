-- ===== src/Qris/Reader.antt =====
-- `parseTLVs`, `crc16ccitt`, `once` and `wholeRupiah` of src/qris/parse.ts: an EMVCo payload as tagged
-- fields, and the checks on it.
use mathlib.Core.List.{[]}
use mathlib.Core.Bool.{true, not}
use Option.{none}
use Prim.Native.Nat.{ℕ, bit_xor, suc, bit_and, zero}
use qrib.Common.{
  Text, Bool, ◌∷◌, List, if◌then◌else◌, hex_digit, [], text_eq, select, ◌==◌, is_decimal, false,
  ◌&&◌, take, length, leb, drop, all, is_digit, ◌-◌, ◌*◌, ◌/◌, ◌%◌, ◌+◌, before_point, all_zeros,
  after_point,
}
use mathlib.Core.Option.{Option, some, none}
use mathlib.Core.Option

-- `QrisError`, one constructor for each message.
pub data QrisError : Type 0 where
  truncated_header bad_header overruns_payload : QrisError
  not_exactly_one : Text → QrisError
  non_whole_rupiah not_a_payload unsupported_format bad_initiation : QrisError
  no_crc crc_mismatch no_merchant_block no_pan : QrisError
  unsupported_currency unsupported_country dynamic_without_amount static_with_amount : QrisError
  -- of the model alone: the reader has used up its fuel
  out_of_fuel : QrisError

pub data Parsed {ℓ} (A : Type ℓ) : Type ℓ where
  ok : A → Parsed A
  err : QrisError → Parsed A

module _ {ℓ κ} {A : Type ℓ} {B : Type κ} where
  infixl 5 ◌>>=◌ ◌>>◌
  unfoldable pub ◌>>=◌ : Parsed A → (A → Parsed B) → Parsed B
  ok a >>= f = f a
  err e >>= f = err e

  unfoldable pub ◌>>◌ : Parsed A → Parsed B → Parsed B
  unfolding ◌>>=◌
  m >> k = m >>= λ _. k

-- `if (b) throw …`
abbrev pub throw_if : Bool → QrisError → Parsed (Unit {0})
throw_if true e = err e
throw_if false e = ok tt

abbrev pub found_or {ℓ} : {A : Type ℓ} → Option A → QrisError → Parsed A
found_or none e = err e
found_or (some a) e = ok a

-- `TLV`
pub record Tlv : Type 0 where
  pub id : Text
  pub value : Text

abbrev pub tlv : ℕ → ℕ → Text → Tlv
tlv a b value = record { id = a ∷ b ∷ []; value = value }

-- Two decimal digits: `parseInt(len, 10)`.
abbrev pub two_digits : ℕ → ℕ → ℕ
two_digits c d = (c - b'0') * 10 + (d - b'0')

-- The loop of `parseTLVs` over what is left of the text. Each round takes four code units or more.
unfoldable pub read_fields : ℕ → Text → Parsed (List Tlv)
read_fields zero s = err out_of_fuel
read_fields (suc fuel) [] = ok []
read_fields (suc fuel) (a ∷ b ∷ c ∷ d ∷ rest) =
    let n = two_digits c d in
    let value = take n rest in
    let more = read_fields fuel (drop n rest) in
    if not (all is_digit (a ∷ b ∷ c ∷ d ∷ []))
    then err bad_header
    else if not (length value == n)
    then err overruns_payload
    else more >>= λ fields. ok (tlv a b value ∷ fields)
read_fields (suc fuel) s = err truncated_header

-- `parseTLVs`
unfoldable pub parse_tlvs : Text → Parsed (List Tlv)
parse_tlvs s = read_fields (suc (length s)) s

-- One bit of the division: the top bit is shifted out, and the polynomial is added where it was set.
abbrev pub crc_bit : ℕ → ℕ
crc_bit crc =
    if bit_and crc 0x8000 == 0 then (crc * 2) % 65536 else bit_xor (crc * 2) 0x1021 % 65536

unfoldable pub crc_byte : ℕ → ℕ → ℕ
crc_byte crc c =
    crc_bit
      (crc_bit (crc_bit (crc_bit (crc_bit (crc_bit (crc_bit (crc_bit (bit_xor crc (c * 256)))))))))

unfoldable pub crc_from : ℕ → Text → ℕ
crc_from crc [] = crc
crc_from crc (c ∷ s) = crc_from (crc_byte crc c) s

-- Four hexadecimal digits in upper case, of a number below 65,536.
abbrev pub hex4 : ℕ → Text
hex4 n =
    hex_digit (n / 4096 % 16)
    ∷ hex_digit (n / 256 % 16)
    ∷ hex_digit (n / 16 % 16)
    ∷ hex_digit (n % 16)
    ∷ []

-- `crc16ccitt`
unfoldable pub crc16 : Text → Text
unfolding crc_byte crc_from
crc16 input = hex4 (crc_from 0xffff input)

abbrev pub has_tag : Text → Tlv → Bool
has_tag id f = text_eq f.id id

abbrev pub exactly_one : Text → List Tlv → Parsed Text
exactly_one id [] = err (not_exactly_one id)
exactly_one id (f ∷ []) = ok f.value
exactly_one id (f ∷ g ∷ rest) = err (not_exactly_one id)

-- `once`
unfoldable pub once : List Tlv → Text → Parsed Text
once fields id = exactly_one id (select (has_tag id) fields)

-- `raw.replace(/^0+(?=\d)/, "")` on digits
abbrev pub drop_zeros : Text → Text
drop_zeros (c ∷ d ∷ s) = if c == b'0' then drop_zeros (d ∷ s) else c ∷ d ∷ s
drop_zeros s = s

abbrev pub is_amount : Text → Bool
is_amount s = is_decimal s && leb (length s) 13

-- `.0`, `.00` and so on
abbrev pub is_zeros : Option Text → Bool
is_zeros none = false
is_zeros (some s) = all_zeros s

-- `wholeRupiah`
unfoldable pub whole_rupiah : Text → Parsed Text
whole_rupiah raw =
    if is_amount raw
    then ok (drop_zeros raw)
    else if is_amount (before_point raw) && is_zeros (after_point raw)
    then ok (drop_zeros (before_point raw))
    else err non_whole_rupiah
