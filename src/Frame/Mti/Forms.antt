-- ===== src/Frame/Mti/Forms.antt =====
-- The forms in which four digits are sent, and that `decodeMTI` reads each.
use fluxrig.Prelude.{
  ℕ, ◌+◌, ◌*◌, ◌<◌, ◌≡◌, ◌≢◌, refl, [], ◌∷◌, ◌++◌, arith, Bytes, equal, equal_iff, length,
  length-append, get_or, take, drop, Bool, true, false, ◌&&◌, leb, ltb, if◌then◌else◌, drop-append,
}
use fluxrig.Frame.Bitmap.{ebcdic}
use fluxrig.Frame.Mti.{bcd, generic, decode_mti, all_digits}

-- Four digits.
pub record Digits : Type 0 where
  pub a : ℕ
  pub b : ℕ
  pub c : ℕ
  pub d : ℕ
  pub a_small : a < 10
  pub b_small : b < 10
  pub c_small : c < 10
  pub d_small : d < 10

-- Each digit behind a zone: 0x30 in ASCII, 0xf0 in EBCDIC.
abbrev pub zoned : ℕ → Digits → Bytes
zoned zone t = (zone + t.a) ∷ (zone + t.b) ∷ (zone + t.c) ∷ (zone + t.d) ∷ []

-- Two digits in a byte.
abbrev pub packed : Digits → Bytes
packed t = (t.a * 16 + t.b) ∷ (t.c * 16 + t.d) ∷ []

get_or-append : (pre : Bytes) (x : ℕ) (rest : Bytes) → get_or (pre ++ (x ∷ rest)) (length pre) 0 ≡ x
get_or-append [] x rest = refl
get_or-append (y ∷ pre) x rest = get_or-append pre x rest

get_or-append_next :
    (pre : Bytes) (x y : ℕ) (rest : Bytes) → get_or (pre ++ (x ∷ y ∷ rest)) (length pre + 1) 0 ≡ y
get_or-append_next [] x y rest = refl
get_or-append_next (z ∷ pre) x y rest = ground (arith, get_or-append_next pre x y rest)

module _ (t : Digits) (pre rest : Bytes) where
  reads_zoned :
      (zone : ℕ) → take 4 (drop (length pre) (pre ++ (zoned zone t ++ rest))) ≡ zoned zone t
  reads_zoned zone = rw (drop-append pre (zoned zone t ++ rest) (length pre) refl) refl

  reads_ebcdic : decode_mti (pre ++ (zoned 0xf0 t ++ rest)) (length pre) ebcdic ≡ (zoned 0x30 t, 4)
  unfolding decode_mti
  reads_ebcdic = ground (
    arith,
    reads_zoned 0xf0,
    length-append pre (zoned 0xf0 t ++ rest),
    t.a_small,
    t.b_small,
    t.c_small,
    t.d_small,
  )

  reads_bcd : decode_mti (pre ++ (packed t ++ rest)) (length pre) bcd ≡ (zoned 0x30 t, 2)
  unfolding decode_mti
  reads_bcd = ground (
    arith,
    get_or-append pre (t.a * 16 + t.b) ((t.c * 16 + t.d) ∷ rest),
    get_or-append_next pre (t.a * 16 + t.b) (t.c * 16 + t.d) rest,
    length-append pre (packed t ++ rest),
    t.a_small,
    t.b_small,
    t.c_small,
    t.d_small,
  )

  reads_generic :
      (0 < t.a + t.b)
      → t.a < 3
      → decode_mti (pre ++ (packed t ++ rest)) (length pre) generic ≡ (zoned 0x30 t, 2)
  unfolding decode_mti equal
  reads_generic some_digit h = ground (
    arith,
    get_or-append pre (t.a * 16 + t.b) ((t.c * 16 + t.d) ∷ rest),
    get_or-append_next pre (t.a * 16 + t.b) (t.c * 16 + t.d) rest,
    length-append pre (packed t ++ rest),
    t.b_small,
    t.c_small,
    t.d_small,
  )

  reads_ascii :
      (encoding : Bytes)
      → encoding ≢ ebcdic
      → encoding ≢ bcd
      → decode_mti (pre ++ (zoned 0x30 t ++ rest)) (length pre) encoding ≡ (zoned 0x30 t, 4)
  unfolding decode_mti
  reads_ascii encoding not_ebcdic not_bcd =
      let e1 : equal encoding ebcdic ≡ false = ground (arith, equal_iff encoding ebcdic) in
      let e2 : equal encoding bcd ≡ false = ground (arith, equal_iff encoding bcd) in
      let first : get_or (pre ++ (zoned 0x30 t ++ rest)) (length pre) 0 ≡ 0x30 + t.a =
        get_or-append pre (0x30 + t.a) ((0x30 + t.b) ∷ (0x30 + t.c) ∷ (0x30 + t.d) ∷ rest) in
      let enough : leb (length pre + 4) (length (pre ++ (zoned 0x30 t ++ rest))) ≡ true =
        ground (arith, length-append pre (zoned 0x30 t ++ rest)) in
      let roomy : ltb (length (pre ++ (zoned 0x30 t ++ rest))) (length pre + 2) ≡ false =
        ground (arith, length-append pre (zoned 0x30 t ++ rest)) in
      let above : ltb (0x30 + t.a) 0x30 ≡ false = ground arith in
      rw (e1, e2, first, enough, roomy, above, reads_zoned 0x30, digits)
        (last (equal encoding generic) _)
    where
      digits : all_digits (zoned 0x30 t) ≡ true
      digits = ground (arith, t.a_small, t.b_small, t.c_small, t.d_small)

      last :
          (b : Bool) (x : Bytes)
          → ◌≡◌ {A = Bytes × ℕ} (if b && false then (x, 2) else (zoned 0x30 t, 4)) (zoned 0x30 t, 4)
      last b x = ground arith

-- Four digits at the offset are read as those digits, with as many bytes as they take: in EBCDIC or
-- packed in two bytes under those encodings, and in ASCII under any other.
pub decode_mti-digits :
    (t : Digits) (pre rest encoding : Bytes)
    → encoding ≢ ebcdic
    → encoding ≢ bcd
    → (decode_mti (pre ++ (zoned 0xf0 t ++ rest)) (length pre) ebcdic ≡ (zoned 0x30 t, 4))
      × (decode_mti (pre ++ (packed t ++ rest)) (length pre) bcd ≡ (zoned 0x30 t, 2))
      × (decode_mti (pre ++ (zoned 0x30 t ++ rest)) (length pre) encoding ≡ (zoned 0x30 t, 4))
decode_mti-digits t pre rest encoding not_ebcdic not_bcd = (
  reads_ebcdic t pre rest,
  reads_bcd t pre rest,
  reads_ascii t pre rest encoding not_ebcdic not_bcd,
)

-- Under the generic encoding both ASCII digits and packed ones are told apart and read, if the first
-- packed byte is from 0x01 to 0x29.
pub decode_mti-generic :
    (t : Digits) (pre rest : Bytes)
    → 0 < t.a + t.b
    → t.a < 3
    → (decode_mti (pre ++ (packed t ++ rest)) (length pre) generic ≡ (zoned 0x30 t, 2))
      × (decode_mti (pre ++ (zoned 0x30 t ++ rest)) (length pre) generic ≡ (zoned 0x30 t, 4))
decode_mti-generic t pre rest some_digit h =
    (reads_generic t pre rest some_digit h, reads_ascii t pre rest generic (λ e. cc e) (λ e. cc e))
