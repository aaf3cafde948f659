-- ===== src/Frame/Header/Preserved.antt =====
-- A header that is stored, read back and sent to the other side.
use fluxrig.Prelude.{ℕ, ◌/◌, ◌%◌, ◌<◌, ◌≡◌, refl, [], ◌∷◌, some, arith, Bytes, IsByte, length, All}
use fluxrig.Prelude.Int.{ℤ, pos, negsuc}
use fluxrig.Frame.Header.{
  swap_tpdu, hex_text, nibble, hex_decode, metadata_bytes, decode_raw_header, lower_digit,
}

nibble-lower_digit : (n : ℕ) → n < 16 → nibble (lower_digit n) ≡ some n
unfolding nibble
nibble-lower_digit n h = ground arith

hex_decode-hex_text : (bs : Bytes) → All IsByte bs → hex_decode (hex_text bs) ≡ some bs
unfolding hex_decode hex_text
hex_decode-hex_text [] v = refl
hex_decode-hex_text (b ∷ bs) (vb, v) = ground (
  arith,
  nibble-lower_digit (b / 16) (omega arith),
  nibble-lower_digit (b % 16) (omega arith),
  hex_decode-hex_text bs v,
)

-- The bytes of a header that are stored in the metadata are the bytes that are read back.
pub decode_raw_header-metadata_bytes :
    (header : Bytes) → All IsByte header → decode_raw_header (metadata_bytes header) ≡ some header
unfolding decode_raw_header metadata_bytes
decode_raw_header-metadata_bytes header v = hex_decode-hex_text header v

-- Swapping the addresses of a header twice gives the header back, of any length; one swap keeps the
-- length, and exchanges the addresses of a standard header.
pub swap_tpdu_twice :
    (h : Bytes) (tpdu_len : ℤ)
    → (swap_tpdu (swap_tpdu h tpdu_len) tpdu_len ≡ h)
      × (length (swap_tpdu h tpdu_len) ≡ length h)
      × ((id d1 d2 s1 s2 : ℕ) (rest : Bytes)
          → swap_tpdu (id ∷ d1 ∷ d2 ∷ s1 ∷ s2 ∷ rest) (pos 5) ≡ id ∷ s1 ∷ s2 ∷ d1 ∷ d2 ∷ rest)
unfolding swap_tpdu
swap_tpdu_twice h (negsuc n) = (refl, refl, λ id d1 d2 s1 s2 rest. ground arith)
swap_tpdu_twice [] (pos n) = (ground arith, ground arith, λ id d1 d2 s1 s2 rest. ground arith)
swap_tpdu_twice (a ∷ []) (pos n) = (ground arith, ground arith, λ id d1 d2 s1 s2 rest. ground arith)
swap_tpdu_twice (a ∷ b ∷ []) (pos n) =
    (ground arith, ground arith, λ id d1 d2 s1 s2 rest. ground arith)
swap_tpdu_twice (a ∷ b ∷ c ∷ []) (pos n) =
    (ground arith, ground arith, λ id d1 d2 s1 s2 rest. ground arith)
swap_tpdu_twice (a ∷ b ∷ c ∷ d ∷ []) (pos n) =
    (ground arith, ground arith, λ id d1 d2 s1 s2 rest. ground arith)
swap_tpdu_twice (a ∷ b ∷ c ∷ d ∷ e ∷ h) (pos n) =
    (ground arith, ground arith, λ id d1 d2 s1 s2 rest. ground arith)
