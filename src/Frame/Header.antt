-- ===== src/Frame/Header.antt =====
-- The headers in front of a message: pkg/gears/native/iso8583/io/frame.go, and `SetMetadataBytes` of
-- pkg/fluxmsg/struct.go, which stores a header that `decodeRawHeader` reads. The metadata of a
-- message is a list of keys with their values. `hex` of the standard library is as documented.
pub mod Preserved
pub mod Visa
use fluxrig.Prelude.{
  ℕ, zero, suc, ◌+◌, ◌-◌, ◌*◌, ◌/◌, ◌%◌, ◌^◌, Bool, true, false, not, ◌&&◌, ◌||◌, List, [], ◌∷◌,
  ◌++◌, Option, none, some, Bytes, codes, decimal, equal, has_prefix, length, take, drop, get_or,
  replicate, ltb, leb, ◌==◌, if◌then◌else◌,
}
use fluxrig.Prelude.Int.{ℤ, pos, negsuc}
use fluxrig.Frame.Bitmap.{within}
use fluxrig.Frame.Mti.{hex_byte}

-- The fields of `Config` that headers read.
pub record Config : Type 0 where
  pub variant : Bytes
  pub protocol_header_size : ℤ
  pub visa_dst_id : Bytes
  pub visa_src_id : Bytes
  pub tpdu_enabled : Bool
  pub tpdu_length : ℤ

abbrev pub variant_visa : Bytes
variant_visa = codes "visa"

-- `len > n`, for an int.
abbrev pub longer : Bytes → ℤ → Bool
longer bytes (pos n) = ltb n (length bytes)
longer bytes (negsuc n) = true

abbrev pub positive : ℤ → Bool
positive (pos n) = ltb 0 n
positive (negsuc n) = false

-- `GetHeaderOffset`.
unfoldable pub get_header_offset : Bytes → Config → ℤ
get_header_offset payload cfg =
    if cfg.tpdu_enabled && longer payload cfg.tpdu_length
    then cfg.tpdu_length
    else if positive cfg.protocol_header_size && longer payload cfg.protocol_header_size
    then cfg.protocol_header_size
    else pos 0

-- `tpduLen == tpduSize`.
abbrev pub is_tpdu_size : ℤ → Bool
is_tpdu_size (pos n) = n == 5
is_tpdu_size (negsuc n) = false

-- `swapTPDU`.
unfoldable pub swap_tpdu : Bytes → ℤ → Bytes
swap_tpdu h tpdu_len =
    if not (is_tpdu_size tpdu_len) || ltb (length h) 5
    then h
    else take 1 h ++ (take 2 (drop 3 h) ++ (take 2 (drop 1 h) ++ drop 5 h))

-- `hex.EncodeToString`.
abbrev pub lower_digit : ℕ → ℕ
lower_digit n = if ltb n 10 then b'0' + n else b'a' + (n - 10)

unfoldable pub hex_text : Bytes → Bytes
hex_text [] = []
hex_text (b ∷ bs) = lower_digit (b / 16) ∷ lower_digit (b % 16) ∷ hex_text bs

-- `hex.DecodeString`; `none` is its error, of an odd length or of another character.
unfoldable pub nibble : ℕ → Option ℕ
nibble b =
    if within b'0' b b'9'
    then some (b - b'0')
    else if within b'a' b b'f'
    then some (b - b'a' + 10)
    else if within b'A' b b'F'
    then some (b - b'A' + 10)
    else none

abbrev pub joined : Option ℕ → Option ℕ → Option Bytes → Option Bytes
joined (some h) (some l) (some bs) = some ((h * 16 + l) ∷ bs)
joined _ _ _ = none

unfoldable pub hex_decode : Bytes → Option Bytes
unfolding nibble
hex_decode [] = some []
hex_decode (x ∷ []) = none
hex_decode (h ∷ l ∷ bs) = joined (nibble h) (nibble l) (hex_decode bs)

abbrev pub hex_mark : Bytes
hex_mark = codes "hex:"

-- `SetMetadataBytes`: the value stored.
unfoldable pub metadata_bytes : Bytes → Bytes
unfolding hex_text
metadata_bytes v = hex_mark ++ hex_text v

-- `decodeRawHeader`; `none` is nil.
unfoldable pub decode_raw_header : Bytes → Option Bytes
unfolding has_prefix hex_decode
decode_raw_header v = if has_prefix v hex_mark then hex_decode (drop 4 v) else some v

-- `copy` into `n` zeros.
abbrev pub fixed : ℕ → Bytes → Bytes
fixed zero bs = []
fixed (suc n) [] = 0 ∷ fixed n []
fixed (suc n) (b ∷ bs) = b ∷ fixed n bs

-- `hexToBytesFixed`.
unfoldable pub hex_to_bytes_fixed : Bytes → ℕ → Bytes
unfolding hex_decode
hex_to_bytes_fixed s n =
    let even = if not (length s % 2 == 0) then b'0' ∷ s else s in
    elim (hex_decode even) [ none ↦ fixed n [] | some bytes ↦ fixed n bytes ]

abbrev pub otherwise : Bytes → Bytes → Bytes
otherwise [] default = default
otherwise (b ∷ bs) default = b ∷ bs

-- `buildVisaHeader`.
unfoldable pub build_visa_header : Config → Bytes → Bytes → ℕ → Bytes
unfolding hex_to_bytes_fixed
build_visa_header cfg src dst payload_len =
    let total = 22 + payload_len in
    0x16
    ∷ 0x01
    ∷ 0x02
    ∷ (total / 2 ^ 8 % 256)
    ∷ (total % 256)
    ∷ (hex_to_bytes_fixed (otherwise dst cfg.visa_dst_id) 3
        ++ (hex_to_bytes_fixed (otherwise src cfg.visa_src_id) 3
            ++ (0 ∷ 0 ∷ 0 ∷ 0 ∷ 0 ∷ 0 ∷ 0 ∷ 0 ∷ 0 ∷ 0 ∷ 0 ∷ [])))

-- `BuildHeader`; `none` is nil.
unfoldable pub build_header : Config → Bytes → Bytes → ℕ → Option Bytes
unfolding equal build_visa_header
build_header cfg src dst payload_len =
    if equal cfg.variant variant_visa
    then some (build_visa_header cfg src dst payload_len)
    else none

abbrev pub Metadata : Type 0
Metadata = List (Bytes × Bytes)

-- The bytes from one position up to another, as `%02X` prints each.
abbrev pub hex_bytes_of : Bytes → Bytes
hex_bytes_of [] = []
hex_bytes_of (b ∷ bs) = hex_byte b ++ hex_bytes_of bs

abbrev pub span : Bytes → ℕ → ℕ → Bytes
span payload from to = hex_bytes_of (take (to - from) (drop from payload))

abbrev pub reject_fields : Bytes → Metadata
reject_fields payload =
    (codes "iso8583.visa.reject_bitmap", span payload 22 24)
    ∷ (codes "iso8583.visa.reject_code", span payload 24 26)
    ∷ []

-- `ExtractHeader`.
unfoldable pub extract_header : Bytes → Config → Metadata
unfolding equal decimal
extract_header payload cfg =
    let at = λ (i : ℕ). get_or payload i 0 in
    if equal cfg.variant variant_visa && leb 22 (length payload)
    then (codes "iso8583.visa.header_length", decimal (at 0))
      ∷ (codes "iso8583.visa.header_format", span payload 1 2)
      ∷ (codes "iso8583.visa.text_format", span payload 2 3)
      ∷ (codes "iso8583.visa.message_length", decimal (at 3 * 2 ^ 8 + at 4))
      ∷ (codes "iso8583.dst_id", span payload 5 8)
      ∷ (codes "iso8583.src_id", span payload 8 11)
      ∷ (codes "iso8583.visa.round_trip", span payload 11 12)
      ∷ (codes "iso8583.visa.flags", span payload 12 14)
      ∷ (codes "iso8583.visa.status_flags", span payload 14 17)
      ∷ (codes "iso8583.visa.batch_number", span payload 17 18)
      ∷ (codes "iso8583.visa.user_info", span payload 21 22)
      ∷ (if leb 26 (at 0) && leb 26 (length payload) then reject_fields payload else [])
    else []
