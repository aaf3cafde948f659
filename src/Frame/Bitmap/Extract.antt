-- ===== src/Frame/Bitmap/Extract.antt =====
-- What `extractBitmaps` consumes and reports, in each of its branches.
use fluxrig.Prelude.{
  ℕ, zero, suc, ◌+◌, ◌*◌, ◌^◌, ◌≤◌, ◌≡◌, refl, sym, ap, ◌∙◌, Bool, true, false, ◌&&◌, List, [], ◌∷◌,
  ◌++◌, arith, Bytes, length, length-append, take, drop, get_or, ltb, leb, ◌==◌, if◌then◌else◌,
  Bool-cases, inl, inr, length-take, length-drop,
}
use fluxrig.Frame.Bitmap.{
  bit_set, decode_hex_nibble, extract_fields, has_field, hex_bytes, decode_hex_bitmap, Extracted,
  hex_bitmaps, binary_bitmaps, extract_bitmaps, all_hex, starts_with,
}
use fluxrig.Frame.Bitmap.Active.{is_on, has_field-append, has_field-extract_fields, is_on-append}

-- The bitmaps that were consumed, as bytes.
abbrev pub bitmap_bytes : Bytes → Bytes → Extracted → Bytes
bitmap_bytes bytes encoding r =
    if r.used == 8 * r.count then take r.used bytes else hex_bytes (take r.used bytes) encoding

record Reads (bytes encoding : Bytes) (r : Extracted) : Type 0 where
  few : r.count ≤ 3
  inside : r.used ≤ length bytes
  fields : (m : ℕ) → has_field m r.fields ≡ is_on (bitmap_bytes bytes encoding r) 0 m

three :
    (a b c : Bytes) (m : ℕ)
    → length a ≡ 8
    → length b ≡ 8
    → has_field m ((extract_fields a 0 ++ extract_fields b 64) ++ extract_fields c 128)
      ≡ is_on ((a ++ b) ++ c) 0 m
three a b c m ha hb = ground (
  arith,
  has_field-append m (extract_fields a 0 ++ extract_fields b 64) (extract_fields c 128),
  has_field-append m (extract_fields a 0) (extract_fields b 64),
  has_field-extract_fields a 0 m,
  has_field-extract_fields b 64 m,
  has_field-extract_fields c 128 m,
  is_on-append (a ++ b) c 0 m,
  is_on-append a b 0 m,
  length-append a b,
)

two :
    (a b : Bytes) (m : ℕ)
    → length a ≡ 8
    → has_field m (extract_fields a 0 ++ extract_fields b 64) ≡ is_on (a ++ b) 0 m
two a b m ha = ground (
  arith,
  has_field-append m (extract_fields a 0) (extract_fields b 64),
  has_field-extract_fields a 0 m,
  has_field-extract_fields b 64 m,
  is_on-append a b 0 m,
)

take_nothing : (n : ℕ) → take {A = ℕ} n [] ≡ []
take_nothing zero = refl
take_nothing (suc n) = refl

take-plus : (n k : ℕ) (xs : Bytes) → take (n + k) xs ≡ take n xs ++ take k (drop n xs)
take-plus zero k xs = ap (λ i. take i xs) (omega arith)
take-plus (suc n) k [] = take_nothing (suc n + k) ∙ sym (take_nothing k)
take-plus (suc n) k (x ∷ xs) = ap (λ i. take i (x ∷ xs)) next ∙ ap (◌∷◌ x) (take-plus n k xs)
  where
    next : suc n + k ≡ suc (n + k)
    next = omega arith

hex_bytes-append :
    (k : ℕ) (xs ys encoding : Bytes)
    → length xs ≡ k * 2
    → hex_bytes (xs ++ ys) encoding ≡ hex_bytes xs encoding ++ hex_bytes ys encoding
unfolding hex_bytes
hex_bytes-append zero [] ys encoding h = refl
hex_bytes-append zero (x ∷ xs) ys encoding h = absurd (omega arith)
hex_bytes-append (suc k) [] ys encoding h = absurd (omega arith)
hex_bytes-append (suc k) (x ∷ []) ys encoding h = absurd (omega arith)
hex_bytes-append (suc k) (x ∷ y ∷ xs) ys encoding h =
    ap (◌∷◌ (decode_hex_nibble x encoding * 2 ^ 4 + decode_hex_nibble y encoding))
      (hex_bytes-append k xs ys encoding (omega arith))

length-hex_bytes :
    (k : ℕ) (xs encoding : Bytes) → length xs ≡ k * 2 → length (hex_bytes xs encoding) ≡ k
unfolding hex_bytes
length-hex_bytes zero [] encoding h = refl
length-hex_bytes zero (x ∷ xs) encoding h = absurd (omega arith)
length-hex_bytes (suc k) [] encoding h = absurd (omega arith)
length-hex_bytes (suc k) (x ∷ []) encoding h = absurd (omega arith)
length-hex_bytes (suc k) (x ∷ y ∷ xs) encoding h =
    omega (arith, length-hex_bytes k xs encoding (omega arith))

full : (n k : ℕ) (xs : Bytes) → n + k ≤ length xs → length (take k (drop n xs)) ≡ k
full n k xs h = omega (arith, length-take k (drop n xs), length-drop n xs)

binary_bitmaps-Reads :
    (bytes encoding : Bytes) → 8 ≤ length bytes → Reads bytes encoding (binary_bitmaps bytes)
unfolding binary_bitmaps
binary_bitmaps-Reads bytes encoding h =
    elim (Bool-cases (bit_set (get_or (take 8 bytes) 0 0) 0 && leb 16 (length bytes))) [
      | inr one ↦ rw one (record {
        few = omega arith;
        inside = omega arith;
        fields = λ m. has_field-extract_fields (take 8 bytes) 0 m;
      })
      | inl more ↦
          elim (Bool-cases
            (bit_set (get_or (take 8 (drop 8 bytes)) 0 0) 0 && leb 24 (length bytes))) [
              | inr both ↦
                  rw (more, both)
                    (record {
                      few = omega arith;
                      inside = ground arith;
                      fields = λ m.
                          two (take 8 bytes) (take 8 (drop 8 bytes)) m
                            (omega (arith, length-take 8 bytes))
                          ∙ ap (λ x. is_on x 0 m) (sym (take-plus 8 8 bytes));
                    })
              | inl all ↦
                  rw (more, all)
                    (record {
                      few = omega arith;
                      inside = ground arith;
                      fields = λ m.
                          three (take 8 bytes) (take 8 (drop 8 bytes)) (take 8 (drop 16 bytes)) m
                            (omega (arith, length-take 8 bytes)) (full 8 8 bytes (ground arith))
                          ∙ ap (λ x. is_on (x ++ take 8 (drop 16 bytes)) 0 m)
                              (sym (take-plus 8 8 bytes))
                          ∙ ap (λ x. is_on x 0 m) (sym (take-plus 16 8 bytes));
                    })
            ]
    ]

decode_hex_bitmap-hex_bytes :
    (bs encoding : Bytes) → length bs ≡ 16 → decode_hex_bitmap bs encoding ≡ hex_bytes bs encoding
unfolding decode_hex_bitmap
decode_hex_bitmap-hex_bytes bs encoding h = ground arith

room : (p : Bool) (k n : ℕ) → (p && leb k n) ≡ true → k ≤ n
room true k n h = ground arith
room false k n h = cc

hex_bitmaps-Reads :
    (bytes encoding : Bytes) → 16 ≤ length bytes → Reads bytes encoding (hex_bitmaps bytes encoding)
unfolding hex_bitmaps
hex_bitmaps-Reads bytes encoding h =
    elim (Bool-cases (starts_with 1 primary && leb 32 (length bytes))) [
      | inr one ↦ rw one (record {
        few = omega arith;
        inside = omega arith;
        fields = λ m. has_field-extract_fields (decode a) 0 m ∙ ap (λ x. is_on x 0 m) hex_a;
      })
      | inl more ↦
          let r32 : 32 ≤ length bytes = room (starts_with 1 primary) 32 (length bytes) more in
          let hex_b : decode b ≡ hex_bytes b encoding =
            decode_hex_bitmap-hex_bytes b encoding (full 16 16 bytes r32) in
          let long_b : length (decode b) ≡ 8 =
            rw hex_b (length-hex_bytes 8 b encoding (full 16 16 bytes r32)) in
          let ab : decode a ++ decode b ≡ hex_bytes (take 32 bytes) encoding =
            rw (hex_a, hex_b, take-plus 16 16 bytes)
              (sym (hex_bytes-append 8 a b encoding long16)) in
          elim (Bool-cases
            (has_field 65 (primary ++ extract_fields (decode b) 64) && leb 48 (length bytes))) [
              | inr both ↦
                  rw (more, both)
                    (record {
                      few = omega arith;
                      inside = ground arith;
                      fields = λ m. two (decode a) (decode b) m long_a ∙ ap (λ x. is_on x 0 m) ab;
                    })
              | inl all ↦
                  let r48 : 48 ≤ length bytes =
                    room (has_field 65 (primary ++ extract_fields (decode b) 64)) 48 (length bytes)
                      all in
                  let hex_c : decode c ≡ hex_bytes c encoding =
                    decode_hex_bitmap-hex_bytes c encoding (full 32 16 bytes r48) in
                  let abc : (decode a ++ decode b) ++ decode c
                      ≡ hex_bytes (take 48 bytes) encoding =
                    rw (ab, hex_c, take-plus 32 16 bytes)
                      (sym (
                        hex_bytes-append 16 (take 32 bytes) c encoding
                          (omega (arith, length-take 32 bytes, r48)))) in
                  rw (more, all)
                    (record {
                      few = omega arith;
                      inside = ground arith;
                      fields = λ m.
                          three (decode a) (decode b) (decode c) m long_a long_b
                          ∙ ap (λ x. is_on x 0 m) abc;
                    })
            ]
    ]
  where
    a : Bytes
    a = take 16 bytes

    b : Bytes
    b = take 16 (drop 16 bytes)

    c : Bytes
    c = take 16 (drop 32 bytes)

    decode : Bytes → Bytes
    decode x = decode_hex_bitmap x encoding

    primary : List ℕ
    primary = extract_fields (decode a) 0

    long16 : length a ≡ 16
    long16 = omega (arith, length-take 16 bytes)

    hex_a : decode a ≡ hex_bytes a encoding
    hex_a = decode_hex_bitmap-hex_bytes a encoding long16

    long_a : length (decode a) ≡ 8
    long_a = rw hex_a (length-hex_bytes 8 a encoding long16)

-- Whatever the bytes and the encoding, `extractBitmaps` consumes at most three bitmaps and no more
-- bytes than there are, and it reports a field exactly if its bit is set in the bitmaps it consumed:
-- read as they stand, or as hexadecimal text.
pub extract_bitmaps-fields :
    (bytes encoding : Bytes)
    → (let r = extract_bitmaps bytes encoding in
        (r.count ≤ 3)
        × (r.used ≤ length bytes)
        × ((m : ℕ) → has_field m r.fields ≡ is_on (bitmap_bytes bytes encoding r) 0 m))
unfolding extract_bitmaps
extract_bitmaps-fields bytes encoding = elim (Bool-cases (ltb (length bytes) 8)) [
  | inl short ↦ rw short (omega arith, omega arith, λ m. ground arith)
  | inr long ↦ elim (Bool-cases (leb 16 (length bytes) && all_hex (take 16 bytes) encoding)) [
    | inl hex ↦
        let r = hex_bitmaps-Reads bytes encoding (ground arith) in
        rw (long, hex) (r.few, r.inside, r.fields)
    | inr binary ↦
        let r = binary_bitmaps-Reads bytes encoding (ground arith) in
        rw (long, binary) (r.few, r.inside, r.fields)
  ]
]
