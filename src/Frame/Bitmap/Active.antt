-- ===== src/Frame/Bitmap/Active.antt =====
-- The fields that `extractBitmaps` reports are the bits that are set.
use fluxrig.Prelude.{
  ℕ, zero, suc, ◌+◌, ◌-◌, ◌*◌, ◌≤◌, ◌<◌, ◌≡◌, refl, sym, ap, ◌∙◌, Bool, false, ◌&&◌, ◌||◌, List, [],
  ◌∷◌, ◌++◌, arith, Bytes, length, ltb, leb, ◌==◌, if◌then◌else◌, Bool-cases, inl, inr,
}
use fluxrig.Frame.Bitmap.{bit_set, byte_fields, fields_from, extract_fields, has_field}

-- Bit `k` of a bitmap, counted from its first byte's highest bit.
abbrev pub bit_at : Bytes → ℕ → Bool
bit_at [] k = false
bit_at (b ∷ bs) k = let later = bit_at bs (k - 8) in if ltb k 8 then bit_set b k else later

-- Is field `m` on, in a bitmap whose first field is `offset + 1`?
abbrev pub is_on : Bytes → ℕ → ℕ → Bool
is_on bitmap offset m = ltb offset m && bit_at bitmap (m - offset - 1)

pub has_field-append :
    (m : ℕ) (xs ys : List ℕ) → has_field m (xs ++ ys) ≡ (has_field m xs || has_field m ys)
has_field-append m [] ys = refl
has_field-append m (x ∷ xs) ys = ground (arith, has_field-append m xs ys)

has_field-byte_fields :
    (rounds bit b first m : ℕ)
    → has_field m (byte_fields rounds bit b first)
      ≡ (ltb (first + bit) m && leb m (first + bit + rounds) && bit_set b (m - first - 1))
unfolding byte_fields
has_field-byte_fields zero bit b first m = ground arith
has_field-byte_fields (suc rounds) bit b first m = elim (Bool-cases (m == first + bit + 1)) [
  | inl e ↦ ground (arith, has_field-byte_fields rounds (bit + 1) b first m)
  | inr e ↦ ground (arith, has_field-byte_fields rounds (bit + 1) b first m)
]

bit_set_zero : (k : ℕ) → k < 8 → bit_set 0 k ≡ false
bit_set_zero k h = ground arith

abbrev in_byte : ℕ → ℕ → ℕ → Bool
in_byte b first m = ltb first m && leb m (first + 8) && bit_set b (m - first - 1)

is_on-cons :
    (b : ℕ) (bs : Bytes) (first m : ℕ)
    → is_on (b ∷ bs) first m ≡ (in_byte b first m || is_on bs (first + 8) m)
is_on-cons b bs first m =
    let at : m - first - 1 - 8 ≡ m - (first + 8) - 1 = omega arith in rw at (ground arith)

in_byte_zero : (first m : ℕ) → in_byte 0 first m ≡ false
in_byte_zero first m = ground (arith, bit_set_zero (m - first - 1))

has_field-fields_from :
    (bs : Bytes) (offset i m : ℕ)
    → has_field m (fields_from bs offset i) ≡ is_on bs (offset + i * 8) m
unfolding fields_from
has_field-fields_from [] offset i m = ground arith
has_field-fields_from (b ∷ bs) offset i m =
    let ih : has_field m (fields_from bs offset (i + 1)) ≡ is_on bs (first + 8) m =
      has_field-fields_from bs offset (i + 1) m ∙ ap (λ f. is_on bs f m) (omega arith) in
    elim (Bool-cases (b == 0)) [
      | inl e ↦
          let zeros : b ≡ 0 = ground arith in
          let none_here : in_byte b first m ≡ false = rw zeros (in_byte_zero first m) in
          rw e
            (ih ∙ sym (is_on-cons b bs first m ∙ ap (λ x. x || is_on bs (first + 8) m) none_here))
      | inr e ↦ rw e (
          has_field-append m (byte_fields 8 0 b first) (fields_from bs offset (i + 1))
          ∙ ap (λ x. x || has_field m (fields_from bs offset (i + 1))) byte
          ∙ ap (λ x. in_byte b first m || x) ih
          ∙ sym (is_on-cons b bs first m))
    ]
  where
    first : ℕ
    first = offset + i * 8

    byte : has_field m (byte_fields 8 0 b first) ≡ in_byte b first m
    byte =
        has_field-byte_fields 8 0 b first m
        ∙ ap (λ f. ltb f m && leb m (f + 8) && bit_set b (m - first - 1)) (omega arith)

pub has_field-extract_fields :
    (bitmap : Bytes) (offset m : ℕ)
    → has_field m (extract_fields bitmap offset) ≡ is_on bitmap offset m
unfolding extract_fields
has_field-extract_fields bitmap offset m =
    has_field-fields_from bitmap offset 0 m ∙ ap (λ f. is_on bitmap f m) (omega arith)

-- Bitmaps one behind the other.
bit_at-append :
    (a b : Bytes) (k : ℕ)
    → bit_at (a ++ b) k ≡ (if ltb k (8 * length a) then bit_at a k else bit_at b (k - 8 * length a))
bit_at-append [] b k = ground arith
bit_at-append (x ∷ a) b k = ground (arith, bit_at-append a b (k - 8))

bit_at_end : (a : Bytes) (k : ℕ) → 8 * length a ≤ k → bit_at a k ≡ false
bit_at_end [] k h = refl
bit_at_end (x ∷ a) k h = ground (arith, bit_at_end a (k - 8))

pub is_on-append :
    (a b : Bytes) (offset m : ℕ)
    → is_on (a ++ b) offset m ≡ (is_on a offset m || is_on b (offset + 8 * length a) m)
is_on-append a b offset m =
    ground (arith, bit_at-append a b (m - offset - 1), bit_at_end a (m - offset - 1))
