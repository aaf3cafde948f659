-- ===== src/Frame/Bitmap.antt =====
-- `extractBitmaps` of pkg/gears/native/iso8583/io/frame.go and what it calls.
pub mod Active
pub mod Extract
use fluxrig.Prelude.{
  ℕ, zero, suc, ◌+◌, ◌-◌, ◌*◌, ◌/◌, ◌%◌, ◌^◌, Bool, true, false, not, ◌&&◌, ◌||◌, List, [], ◌∷◌,
  ◌++◌, Bytes, codes, equal, length, take, drop, get_or, replicate, ltb, leb, ◌==◌, if◌then◌else◌,
}

abbrev pub ebcdic : Bytes
ebcdic = codes "ebcdic"

abbrev pub within : ℕ → ℕ → ℕ → Bool
within low b high = leb low b && leb b high

-- `isHexChar`.
unfoldable pub is_hex_char : ℕ → Bytes → Bool
is_hex_char b encoding =
    if equal encoding ebcdic
    then within 0xf0 b 0xf9 || within 0xc1 b 0xc6 || within 0x81 b 0x86
    else within b'0' b b'9' || within b'A' b b'F' || within b'a' b b'f'

-- `decodeHexNibble`.
unfoldable pub decode_hex_nibble : ℕ → Bytes → ℕ
decode_hex_nibble b encoding =
    if equal encoding ebcdic
    then (if within 0xf0 b 0xf9
        then b - 0xf0
        else if within 0xc1 b 0xc6
        then b - 0xc1 + 10
        else if within 0x81 b 0x86
        then b - 0x81 + 10
        else 0)
    else if within b'0' b b'9'
    then b - b'0'
    else if within b'A' b b'F'
    then b - b'A' + 10
    else if within b'a' b b'f'
    then b - b'a' + 10
    else 0

-- The loop of `decodeHexBitmap`.
unfoldable pub hex_bytes : Bytes → Bytes → Bytes
unfolding decode_hex_nibble
hex_bytes (high ∷ low ∷ bs) encoding =
    (decode_hex_nibble high encoding * 2 ^ 4 + decode_hex_nibble low encoding)
    ∷ hex_bytes bs encoding
hex_bytes _ encoding = []

-- `decodeHexBitmap`; its callers ignore the error.
unfoldable pub decode_hex_bitmap : Bytes → Bytes → Bytes
unfolding hex_bytes
decode_hex_bitmap bytes encoding =
    if not (length bytes == 16) then replicate 8 0 else hex_bytes bytes encoding

abbrev pub bit_set : ℕ → ℕ → Bool
bit_set b bit = b / 2 ^ (7 - bit) % 2 == 1

-- The inner loop of `extractFieldsFromBitmap`: the rounds left and the bit; `first` is
-- `offset + (i * 8)`.
unfoldable pub byte_fields : ℕ → ℕ → ℕ → ℕ → List ℕ
byte_fields zero bit b first = []
byte_fields (suc rounds) bit b first =
    let rest = byte_fields rounds (bit + 1) b first in
    if bit_set b bit then (first + bit + 1) ∷ rest else rest

-- Its outer loop, from a position.
unfoldable pub fields_from : Bytes → ℕ → ℕ → List ℕ
unfolding byte_fields
fields_from [] offset i = []
fields_from (b ∷ bs) offset i =
    let rest = fields_from bs offset (i + 1) in
    if b == 0 then rest else byte_fields 8 0 b (offset + i * 8) ++ rest

-- `extractFieldsFromBitmap`.
unfoldable pub extract_fields : Bytes → ℕ → List ℕ
unfolding fields_from
extract_fields bitmap offset = fields_from bitmap offset 0

unfoldable pub all_hex : Bytes → Bytes → Bool
unfolding is_hex_char
all_hex [] encoding = true
all_hex (b ∷ bs) encoding = is_hex_char b encoding && all_hex bs encoding

abbrev pub has_field : ℕ → List ℕ → Bool
has_field n [] = false
has_field n (f ∷ fs) = n == f || has_field n fs

abbrev pub starts_with : ℕ → List ℕ → Bool
starts_with n [] = false
starts_with n (f ∷ fs) = f == n

-- What `extractBitmaps` returns: the number of bitmaps, the fields, and the bytes consumed.
pub record Extracted : Type 0 where
  pub count : ℕ
  pub fields : List ℕ
  pub used : ℕ

-- Its branch `if isHex`.
unfoldable pub hex_bitmaps : Bytes → Bytes → Extracted
unfolding decode_hex_bitmap extract_fields
hex_bitmaps bytes encoding =
    let primary = extract_fields (decode_hex_bitmap (take 16 bytes) encoding) 0 in
    if starts_with 1 primary && leb 32 (length bytes)
    then (let secondary =
          extract_fields (decode_hex_bitmap (take 16 (drop 16 bytes)) encoding) 64 in
        if has_field 65 (primary ++ secondary) && leb 48 (length bytes)
        then record {
          count = 3;
          fields =
              (primary ++ secondary)
              ++ extract_fields (decode_hex_bitmap (take 16 (drop 32 bytes)) encoding) 128;
          used = 48;
        }
        else record { count = 2; fields = primary ++ secondary; used = 32 })
    else record { count = 1; fields = primary; used = 16 }

-- Its last branch.
unfoldable pub binary_bitmaps : Bytes → Extracted
unfolding extract_fields
binary_bitmaps bytes =
    let primary = extract_fields (take 8 bytes) 0 in
    if bit_set (get_or (take 8 bytes) 0 0) 0 && leb 16 (length bytes)
    then (let both = primary ++ extract_fields (take 8 (drop 8 bytes)) 64 in
        if bit_set (get_or (take 8 (drop 8 bytes)) 0 0) 0 && leb 24 (length bytes)
        then record {
          count = 3;
          fields = both ++ extract_fields (take 8 (drop 16 bytes)) 128;
          used = 24;
        }
        else record { count = 2; fields = both; used = 16 })
    else record { count = 1; fields = primary; used = 8 }

-- `extractBitmaps`.
unfoldable pub extract_bitmaps : Bytes → Bytes → Extracted
unfolding all_hex hex_bitmaps binary_bitmaps
extract_bitmaps bytes encoding =
    if ltb (length bytes) 8
    then record { count = 0; fields = []; used = 0 }
    else if leb 16 (length bytes) && all_hex (take 16 bytes) encoding
    then hex_bitmaps bytes encoding
    else binary_bitmaps bytes
