-- ===== src/Tests/Message.antt =====
-- An authorization request: its type, its bitmap and its headers.
use fluxrig.Prelude.{
  ℕ, ◌≤◌, ◌≡◌, refl, false, [], ◌∷◌, ◌++◌, some, arith, Bytes, codes, decimal, length,
}
use fluxrig.Prelude.Int.{pos}
use fluxrig.Frame.Bitmap.{
  extract_bitmaps, has_field, ebcdic, binary_bitmaps, extract_fields, fields_from, byte_fields,
  all_hex, is_hex_char,
}
use fluxrig.Frame.Bitmap.Active.{is_on}
use fluxrig.Frame.Bitmap.Extract.{bitmap_bytes, extract_bitmaps-fields}
use fluxrig.Frame.Mti.{bcd, generic, decode_mti}
use fluxrig.Frame.Mti.Forms.{Digits, zoned, packed, decode_mti-digits, decode_mti-generic}
use fluxrig.Frame.Header.{
  Config, variant_visa, metadata_bytes, decode_raw_header, swap_tpdu, build_visa_header,
  extract_header,
}
use fluxrig.Frame.Header.Preserved.{decode_raw_header-metadata_bytes, swap_tpdu_twice}
use fluxrig.Frame.Header.Visa.{value, station, extract_header-build_visa_header}

-- Fields 2, 3, 4 and 7, and the start of field 2.
abbrev body : Bytes
body = 0x72 ∷ 0 ∷ 0 ∷ 0 ∷ 0 ∷ 0 ∷ 0 ∷ 0 ∷ 0x10 ∷ 0x41 ∷ []

extract_bitmaps_run :
    extract_bitmaps body (codes "ascii")
    ≡ record { count = 1; fields = 2 ∷ 3 ∷ 4 ∷ 7 ∷ []; used = 8 }
unfolding extract_bitmaps binary_bitmaps extract_fields fields_from byte_fields all_hex is_hex_char
extract_bitmaps_run = refl

extract_bitmaps-fields_example :
    (let r = extract_bitmaps body (codes "ascii") in
      (r.count ≤ 3)
      × (r.used ≤ length body)
      × ((m : ℕ) → has_field m r.fields ≡ is_on (bitmap_bytes body (codes "ascii") r) 0 m))
extract_bitmaps-fields_example = extract_bitmaps-fields body (codes "ascii")

abbrev request : Digits
request = record {
  a = 0;
  b = 2;
  c = 0;
  d = 0;
  a_small = omega arith;
  b_small = omega arith;
  c_small = omega arith;
  d_small = omega arith;
}

abbrev tpdu : Bytes
tpdu = 0x60 ∷ 0 ∷ 3 ∷ 0 ∷ 0 ∷ []

decode_mti-digits_example :
    (decode_mti (tpdu ++ (zoned 0xf0 request ++ body)) 5 ebcdic ≡ (codes "0200", 4))
    × (decode_mti (tpdu ++ (packed request ++ body)) 5 bcd ≡ (codes "0200", 2))
    × (decode_mti (tpdu ++ (zoned 0x30 request ++ body)) 5 (codes "ascii") ≡ (codes "0200", 4))
decode_mti-digits_example =
    decode_mti-digits request tpdu body (codes "ascii") (λ e. cc e) (λ e. cc e)

decode_mti-generic_run :
    (decode_mti (tpdu ++ (packed request ++ body)) 5 generic ≡ (codes "0200", 2))
    × (decode_mti (tpdu ++ (zoned 0x30 request ++ body)) 5 generic ≡ (codes "0200", 4))
decode_mti-generic_run = decode_mti-generic request tpdu body (omega arith) (omega arith)

decode_raw_header-metadata_bytes_run : decode_raw_header (metadata_bytes tpdu) ≡ some tpdu
decode_raw_header-metadata_bytes_run =
    decode_raw_header-metadata_bytes tpdu
      (omega arith, (omega arith, (omega arith, (omega arith, (omega arith, tt)))))

swap_tpdu_twice_run :
    (swap_tpdu (swap_tpdu tpdu (pos 5)) (pos 5) ≡ tpdu)
    × (length (swap_tpdu tpdu (pos 5)) ≡ 5)
    × ((id d1 d2 s1 s2 : ℕ) (rest : Bytes)
        → swap_tpdu (id ∷ d1 ∷ d2 ∷ s1 ∷ s2 ∷ rest) (pos 5) ≡ id ∷ s1 ∷ s2 ∷ d1 ∷ d2 ∷ rest)
swap_tpdu_twice_run = swap_tpdu_twice tpdu (pos 5)

abbrev visa_config : Config
visa_config = record {
  variant = variant_visa;
  protocol_header_size = pos 22;
  visa_dst_id = codes "000000";
  visa_src_id = codes "123456";
  tpdu_enabled = false;
  tpdu_length = pos 5;
}

extract_header-build_visa_header_example :
    (let header = build_visa_header visa_config (station 0x12 0x34 0x56) (station 0xab 0 1) 10 in
      let meta = extract_header (header ++ body) visa_config in
      (length header ≡ 22)
      × (value (codes "iso8583.visa.message_length") meta ≡ decimal (length (header ++ body)))
      × (value (codes "iso8583.src_id") meta ≡ codes "123456")
      × (value (codes "iso8583.dst_id") meta ≡ codes "AB0001"))
extract_header-build_visa_header_example =
    extract_header-build_visa_header visa_config body 0x12 0x34 0x56 0xab 0 1 refl (omega arith)
      (omega arith) (omega arith) (omega arith) (omega arith) (omega arith) (omega arith)
