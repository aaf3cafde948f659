-- ===== src/Frame/Header/Visa.antt =====
-- The Visa header that is built is the header that is read.
use fluxrig.Prelude.{
  ℕ, ◌+◌, ◌*◌, ◌/◌, ◌%◌, ◌^◌, ◌<◌, ◌≡◌, refl, ap, ◌∙◌, true, [], ◌∷◌, ◌++◌, some, arith, Bytes,
  codes, decimal, equal, length, leb, if◌then◌else◌,
}
use fluxrig.Frame.Mti.{hex_byte, hex_digit}
use fluxrig.Frame.Header.{
  Config, variant_visa, nibble, hex_decode, hex_to_bytes_fixed, build_visa_header, Metadata,
  extract_header,
}

-- `m[key]`; a key that is missing is an empty text.
abbrev pub value : Bytes → Metadata → Bytes
value key [] = []
value key ((k, v) ∷ m) = let rest = value key m in if equal k key then v else rest

-- Three bytes as six hexadecimal digits, as stations are named.
abbrev pub station : ℕ → ℕ → ℕ → Bytes
station x y z = hex_byte x ++ (hex_byte y ++ hex_byte z)

nibble-hex_digit : (n : ℕ) → n < 16 → nibble (hex_digit n) ≡ some n
unfolding nibble
nibble-hex_digit n h = ground arith

hex_decode-hex_byte :
    (x : ℕ) (text bytes : Bytes)
    → x < 256
    → hex_decode text ≡ some bytes
    → hex_decode (hex_byte x ++ text) ≡ some (x ∷ bytes)
unfolding hex_decode
hex_decode-hex_byte x text bytes h e =
    let sum : x / 16 * 16 + x % 16 ≡ x = omega arith in
    rw (nibble-hex_digit (x / 16) (omega arith), nibble-hex_digit (x % 16) (omega arith), e)
      (ap (λ b. some (b ∷ bytes)) sum)

hex_to_bytes_fixed-station :
    (x y z : ℕ)
    → x < 256
    → y < 256
    → z < 256
    → hex_to_bytes_fixed (station x y z) 3 ≡ x ∷ y ∷ z ∷ []
unfolding hex_to_bytes_fixed
hex_to_bytes_fixed-station x y z hx hy hz =
    let read : hex_decode (station x y z) ≡ some (x ∷ y ∷ z ∷ []) =
      hex_decode-hex_byte x (hex_byte y ++ hex_byte z) (y ∷ z ∷ []) hx (
        hex_decode-hex_byte y (hex_byte z) (z ∷ []) hy
          (hex_decode-hex_byte z [] [] hz (unfold hex_decode in refl))) in
    rw (read, hex_to_bytes_fixed) refl

-- The bytes of a header.
abbrev laid_out : (hi lo x y z u v w : ℕ) → Bytes
laid_out hi lo x y z u v w =
    0x16 ∷ 0x01 ∷ 0x02 ∷ hi ∷ lo ∷ u ∷ v ∷ w ∷ x ∷ y ∷ z ∷ 0 ∷ 0 ∷ 0 ∷ 0 ∷ 0 ∷ 0 ∷ 0 ∷ 0 ∷ 0 ∷ 0 ∷ 0
    ∷ []

extract_header-laid_out :
    (cfg : Config) (payload : Bytes) (hi lo x y z u v w : ℕ)
    → cfg.variant ≡ variant_visa
    → (let meta = extract_header (laid_out hi lo x y z u v w ++ payload) cfg in
        (value (codes "iso8583.visa.message_length") meta ≡ decimal (hi * 2 ^ 8 + lo))
        × (value (codes "iso8583.src_id") meta ≡ station x y z)
        × (value (codes "iso8583.dst_id") meta ≡ station u v w))
unfolding extract_header equal
extract_header-laid_out cfg payload hi lo x y z u v w visa =
    let long : leb 22 (length (laid_out hi lo x y z u v w ++ payload)) ≡ true = ground arith in
    rw (visa, long) (refl, refl, refl)

build_visa_header-laid_out :
    (cfg : Config) (n x y z u v w : ℕ)
    → x < 256
    → y < 256
    → z < 256
    → u < 256
    → v < 256
    → w < 256
    → build_visa_header cfg (station x y z) (station u v w) n
      ≡ laid_out ((22 + n) / 2 ^ 8 % 256) ((22 + n) % 256) x y z u v w
unfolding build_visa_header
build_visa_header-laid_out cfg n x y z u v w hx hy hz hu hv hw =
    rw (hex_to_bytes_fixed-station x y z hx hy hz, hex_to_bytes_fixed-station u v w hu hv hw) refl

-- A Visa header has 22 bytes, and what is read from it, with any message of the stated length behind
-- it, is the length of the whole, while this is below 2^16, and the stations it was built with: those
-- that are handed over.
pub extract_header-build_visa_header :
    (cfg : Config) (payload : Bytes) (x y z u v w : ℕ)
    → cfg.variant ≡ variant_visa
    → x < 256
    → y < 256
    → z < 256
    → u < 256
    → v < 256
    → w < 256
    → 22 + length payload < 2 ^ 16
    → (let header = build_visa_header cfg (station x y z) (station u v w) (length payload) in
        let meta = extract_header (header ++ payload) cfg in
        (length header ≡ 22)
        × (value (codes "iso8583.visa.message_length") meta ≡ decimal (length (header ++ payload)))
        × (value (codes "iso8583.src_id") meta ≡ station x y z)
        × (value (codes "iso8583.dst_id") meta ≡ station u v w))
extract_header-build_visa_header cfg payload x y z u v w visa hx hy hz hu hv hw small =
    let n = length payload in
    let hi = (22 + n) / 2 ^ 8 % 256 in
    let lo = (22 + n) % 256 in
    let (stated, from, to) = extract_header-laid_out cfg payload hi lo x y z u v w visa in
    let whole : hi * 2 ^ 8 + lo ≡ length (laid_out hi lo x y z u v w ++ payload) = omega arith in
    rw (build_visa_header-laid_out cfg n x y z u v w hx hy hz hu hv hw)
      (refl, stated ∙ ap decimal whole, from, to)
