-- ===== src/Qris/Code.antt =====
-- `parseQris` of src/qris/parse.ts: the payload of a QRIS code, closed by its CRC.
use mathlib.Core.List.{[]}
use mathlib.Core.Bool.{true, not}
use Option.{none}
use qrib.Common.{
  Text, Bool, ◌∷◌, List, if◌then◌else◌, [], text_eq, ◌==◌, false, ◌&&◌, take, length, leb, all, ◌-◌,
  codes, ltb, ◌||◌, to_upper, trim, is_some, first, starts_with, or_else, any,
}
use mathlib.Core.Option.{Option, some, none}
use mathlib.Core.Option
use qrib.Qris.Reader.{
  Parsed, QrisError, Tlv, bad_initiation, crc16, crc_mismatch, dynamic_without_amount, err,
  found_or, has_tag, no_crc, no_merchant_block, no_pan, not_a_payload, ok, once, parse_tlvs,
  static_with_amount, throw_if, unsupported_country, unsupported_currency, unsupported_format,
  whole_rupiah, ◌>>=◌, ◌>>◌,
}

pub data Initiation : Type 0 where
  static dynamic : Initiation

-- `QrisData`; its currency is always IDR.
pub record QrisData : Type 0 where
  pub initiation : Initiation
  pub merchant_name : Text
  pub merchant_city : Text
  pub merchant_pan : Text
  pub merchant_id : Option Text
  pub mcc : Text
  pub amount_idr : Option Text
  pub payload : Text

-- `^[\x20-\x7E]+$` on twenty code units or more.
abbrev pub is_payload : Text → Bool
is_payload s = leb 20 (length s) && all (λ c. leb 0x20 c && leb c 0x7e) s

-- The point of initiation, of a payload of format 01.
unfoldable pub read_initiation : List Tlv → Parsed Initiation
read_initiation fields = do
  format ← once fields (codes "00")
  throw_if (not (text_eq format (codes "01"))) unsupported_format
  method ← once fields (codes "01")
  if text_eq method (codes "11")
      then ok static
      else if text_eq method (codes "12")
      then ok dynamic
      else err bad_initiation

abbrev pub last? {ℓ} : {A : Type ℓ} → List A → Option A
last? [] = none
last? (x ∷ []) = some x
last? (x ∷ y ∷ rest) = last? (y ∷ rest)

-- `payload.slice(0, -4)`
abbrev pub without_crc : Text → Text
without_crc s = take (length s - 4) s

-- The authenticity gate: the last field is the CRC of all that stands before its value.
unfoldable pub check_crc : Text → List Tlv → Parsed (Unit {0})
check_crc payload fields = do
  final ← found_or (last? fields) no_crc
  throw_if (not (has_tag (codes "63") final && length final.value == 4)) no_crc
  throw_if (not (text_eq (crc16 (without_crc payload)) (to_upper final.value))) crc_mismatch

-- Comparison of two texts by code units: `s < t`.
abbrev pub text_lt : Text → Text → Bool
text_lt s [] = false
text_lt [] (d ∷ t) = true
text_lt (c ∷ s) (d ∷ t) = ltb c d || ((c == d) && text_lt s t)

abbrev pub is_account : Tlv → Bool
is_account f = not (text_lt f.id (codes "02")) && not (text_lt (codes "51") f.id)

-- The account blocks, each read as fields.
unfoldable pub read_blocks : List Tlv → Parsed (List (List Tlv))
read_blocks [] = ok []
read_blocks (f ∷ rest) =
    let more = read_blocks rest in
    if is_account f then (do subs ← parse_tlvs f.value; blocks ← more; ok (subs ∷ blocks)) else more

abbrev pub value_of : Option Tlv → Option Text
value_of none = none
value_of (some f) = some f.value

abbrev pub sub_value : Text → List Tlv → Option Text
sub_value id subs = value_of (first (has_tag id) subs)

-- `guidOf`
abbrev pub guid_of : List Tlv → Text
guid_of subs = to_upper (or_else (sub_value (codes "00") subs) [])

abbrev pub is_filled : Option Text → Bool
is_filled none = false
is_filled (some t) = not (text_eq t [])

abbrev pub pan_block : List (List Tlv) → Option (List Tlv)
pan_block blocks = first (λ subs. any (has_tag (codes "01")) subs) blocks

abbrev pub of_block : Text → Option (List Tlv) → Option Text
of_block id none = none
of_block id (some subs) = sub_value id subs

-- The merchant's id of the national block, else of the block with the PAN.
abbrev pub national_id : List (List Tlv) → Option Text
national_id [] = none
national_id (subs ∷ rest) =
    if starts_with (guid_of subs) (codes "ID.CO.QRIS") && is_filled (sub_value (codes "02") subs)
    then sub_value (codes "02") subs
    else national_id rest

abbrev pub merchant_id_of : List (List Tlv) → Option Text
merchant_id_of blocks =
    let national = national_id blocks in
    if is_some national then national else of_block (codes "02") (pan_block blocks)

abbrev pub filled_or : Option Text → QrisError → Parsed Text
filled_or o e = if is_filled o then found_or o e else err e

-- The PAN and the id of the merchant.
unfoldable pub read_merchant : List Tlv → Parsed (Text × Option Text)
read_merchant fields = do
  blocks ← read_blocks fields
  throw_if (not (any is_account fields)) no_merchant_block
  pan ← filled_or (of_block (codes "01") (pan_block blocks)) no_pan
  ok (pan, merchant_id_of blocks)

abbrev pub is_dynamic : Initiation → Bool
is_dynamic static = false
is_dynamic dynamic = true

abbrev pub amount_of : Option Text → Parsed (Option Text)
amount_of none = ok none
amount_of (some raw) = whole_rupiah raw >>= λ amount. ok (some amount)

-- A dynamic code carries an amount, a static one does not.
unfoldable pub read_amount : Initiation → List Tlv → Parsed (Option Text)
read_amount initiation fields = do
  let raw = sub_value (codes "54") fields
  throw_if (is_dynamic initiation && not (is_some raw)) dynamic_without_amount
  throw_if (not (is_dynamic initiation) && is_some raw) static_with_amount
  amount_of raw

-- The fields of a payload whose CRC has been checked.
unfoldable pub read_code : Text → Initiation → List Tlv → Parsed QrisData
read_code payload initiation fields = do
  merchant ← read_merchant fields
  mcc ← once fields (codes "52")
  currency ← once fields (codes "53")
  throw_if (not (text_eq currency (codes "360"))) unsupported_currency
  country ← once fields (codes "58")
  throw_if (not (text_eq country (codes "ID"))) unsupported_country
  name ← once fields (codes "59")
  city ← once fields (codes "60")
  amount ← read_amount initiation fields
  ok (record {
    initiation = initiation;
    merchant_name = name;
    merchant_city = city;
    merchant_pan = merchant.0;
    merchant_id = merchant.1;
    mcc = mcc;
    amount_idr = amount;
    payload = payload;
  })

-- `parseQris` on a text.
unfoldable pub parse_qris : Text → Parsed QrisData
parse_qris input = do
  let payload = trim input
  throw_if (not (is_payload payload)) not_a_payload
  fields ← parse_tlvs payload
  initiation ← read_initiation fields
  check_crc payload fields
  read_code payload initiation fields
