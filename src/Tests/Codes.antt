-- ===== src/Tests/Codes.antt =====
-- The theorems on QRIS payloads, at the payloads of src/qris/parse.test.ts.
use qrib.Common.{
  ◌≡◌, List, trim, Text, codes, ◌∷◌, ◌↔◌, ◌≢◌, some, decimal_from, [], All, refl, arith,
  before_point,
}
use qrib.Qris.Fields.{IsField, print_fields, parse_tlvs_iff, parse_tlvs_ends}
use qrib.Qris.Amount.{whole_rupiah-IsShortest, IsShortest}
use qrib.Qris.Seal.{parse_qris-IsSealed, IsSealed}
use qrib.Qris.Accept.{sealed, check_crc_accepts}
use qrib.Qris.Reader.{once, ◌>>◌}
use qrib.Qris.Code.{check_crc, read_code, read_initiation, read_merchant, read_blocks, read_amount}
use qrib.Qris.Gate.{AmountFits}
use qrib.Qris.Reader.{parse_tlvs, read_fields, QrisError, Tlv, crc16, whole_rupiah, ok, err}
use qrib.Qris.Code.{parse_qris, QrisData, dynamic}

-- The standard check value of the CRC.
crc16_standard : crc16 (codes "123456789") ≡ codes "29B1"
unfolding crc16
crc16_standard = refl

abbrev dynamic_code : Text
dynamic_code =
    codes
      "00020101021226480014ID.CO.QRIS.WWW011993600814000000012340203UMI5204541153033605405150005802ID5911TOKO BERKAH6007BANDUNG63043574"

abbrev dynamic_data : QrisData
dynamic_data = record {
  initiation = dynamic;
  merchant_name = codes "TOKO BERKAH";
  merchant_city = codes "BANDUNG";
  merchant_pan = codes "9360081400000001234";
  merchant_id = some (codes "UMI");
  mcc = codes "5411";
  amount_idr = some (codes "15000");
  payload = dynamic_code;
}

parse_dynamic : parse_qris dynamic_code ≡ ok dynamic_data
unfolding parse_qris ◌>>◌ parse_tlvs read_fields read_initiation once check_crc crc16 read_code
    read_merchant read_blocks read_amount whole_rupiah
parse_dynamic = refl

parse_qris-IsSealed_example :
    IsSealed (trim dynamic_code)
    × (dynamic_data.payload ≡ trim dynamic_code)
    × AmountFits dynamic (some (codes "15000"))
parse_qris-IsSealed_example = parse_qris-IsSealed dynamic_code dynamic_data parse_dynamic

-- The merchant block of this payload.
abbrev block : List Tlv
block =
    record { id = codes "00"; value = codes "ID.CO.QRIS.WWW" }
    ∷ record { id = codes "02"; value = codes "UMI" }
    ∷ []

parse_tlvs_iff_example :
    (parse_tlvs (codes "0014ID.CO.QRIS.WWW0203UMI") ≡ ok block)
    ↔ (All IsField block × (print_fields block ≡ codes "0014ID.CO.QRIS.WWW0203UMI"))
parse_tlvs_iff_example = parse_tlvs_iff (codes "0014ID.CO.QRIS.WWW0203UMI") block

parse_tlvs_ends_example : parse_tlvs (codes "0203UMI62") ≢ err QrisError.out_of_fuel
parse_tlvs_ends_example = parse_tlvs_ends (codes "0203UMI62")

whole_rupiah_pointed : whole_rupiah (codes "0015000.00") ≡ ok (codes "15000")
unfolding whole_rupiah
whole_rupiah_pointed = refl

whole_rupiah-IsShortest_example :
    IsShortest (codes "15000")
    × (decimal_from 0 (codes "15000") ≡ decimal_from 0 (before_point (codes "0015000.00")))
whole_rupiah-IsShortest_example =
    whole_rupiah-IsShortest (codes "0015000.00") (codes "15000") whole_rupiah_pointed

check_crc_accepts_example :
    (parse_tlvs (print_fields (sealed block)) ≡ ok (sealed block))
    × (check_crc (print_fields (sealed block)) (sealed block) ≡ ok tt)
check_crc_accepts_example =
    check_crc_accepts block (
      (b'0', b'0', refl, refl, refl, omega arith),
      ((b'0', b'2', refl, refl, refl, omega arith), tt),
    )
