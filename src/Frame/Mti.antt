-- ===== src/Frame/Mti.antt =====
-- `decodeMTI` of pkg/gears/native/iso8583/io/frame.go.
pub mod Forms
use fluxrig.Prelude.{
  ℕ, ◌+◌, ◌-◌, ◌/◌, ◌%◌, Bool, true, false, ◌&&◌, List, [], ◌∷◌, ◌++◌, Bytes, codes, equal, length,
  take, drop, get_or, ltb, leb, if◌then◌else◌, map,
}
use fluxrig.Frame.Bitmap.{ebcdic, within}

abbrev pub bcd : Bytes
bcd = codes "bcd"

abbrev pub generic : Bytes
generic = codes "generic"

-- A digit, and a byte, as `%02X` prints them.
abbrev pub hex_digit : ℕ → ℕ
hex_digit n = if ltb n 10 then b'0' + n else b'A' + (n - 10)

abbrev pub hex_byte : ℕ → Bytes
hex_byte b = hex_digit (b / 16) ∷ hex_digit (b % 16) ∷ []

-- The loop of the EBCDIC branch.
abbrev pub from_ebcdic : ℕ → ℕ
from_ebcdic b = if within 0xf0 b 0xf9 then b - 0xc0 else b'?'

abbrev pub all_digits : Bytes → Bool
all_digits [] = true
all_digits (b ∷ bs) = within b'0' b b'9' && all_digits bs

-- The two bytes at the offset as hexadecimal text.
abbrev pub two_bytes : Bytes → ℕ → Bytes
two_bytes payload offset =
    hex_byte (get_or payload offset 0) ++ hex_byte (get_or payload (offset + 1) 0)

-- `decodeMTI`: the text, and the bytes consumed.
unfoldable pub decode_mti : Bytes → ℕ → Bytes → Bytes × ℕ
unfolding equal
decode_mti payload offset encoding =
    let n = length payload in
    let first = get_or payload offset 0 in
    let four = take 4 (drop offset payload) in
    if ltb n (offset + 2)
    then ([], 0)
    else if equal encoding ebcdic && leb (offset + 4) n
    then (map from_ebcdic four, 4)
    else if equal encoding bcd
    then (two_bytes payload offset, 2)
    else if equal encoding generic && (ltb first 0x30 && ltb 0 first)
    then (two_bytes payload offset, 2)
    else if leb (offset + 4) n && all_digits four
    then (four, 4)
    else (two_bytes payload offset, 2)
