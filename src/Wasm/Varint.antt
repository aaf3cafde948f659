-- ===== src/Wasm/Varint.antt =====
-- `Uvarint` reads back what `PutUvarint` wrote.
use fluxrig.Prelude.{
  ℕ, zero, suc, ◌+◌, ◌*◌, ◌/◌, ◌%◌, ◌^◌, ◌≤◌, ◌<◌, ◌≡◌, refl, ap, ◌∷◌, ◌++◌, some, arith, Bytes,
  length, ◌∙◌,
}
use fluxrig.Prelude.{Bool-cases, inl, inr, leb, ltb, false, ◌==◌}
use mathlib.Core.Path.{ap₂}
use fluxrig.Wasm.{put_loop, put_uvarint, uvarint_loop, uvarint}
use native.Mathlib.Nat.{div-add-mod}
use native.Mathlib.Numerals.{towards_suc}

pow_step : (i : ℕ) → 2 ^ (7 * (i + 1)) ≡ 128 * 2 ^ (7 * i)
pow_step i = ap (λ (n : ℕ). 2 ^ n) (omega arith) ∙ seven (7 * i)
  where
    seven : (s : ℕ) → 2 ^ (s + 7) ≡ 128 * 2 ^ s
    seven s = simp towards_suc (omega arith)

-- The low seven bits of `v`, and the rest, both at bit `7 * i`.
split_group : (v i : ℕ) → v * 2 ^ (7 * i) ≡ v % 128 * 2 ^ (7 * i) + v / 128 * 2 ^ (7 * (i + 1))
split_group v i = omega (
  arith,
  ap (λ (t : ℕ). t * 2 ^ (7 * i)) (div-add-mod v 128),
  ap (λ (t : ℕ). v / 128 * t) (pow_step i),
)

tenth_byte : (v i x : ℕ) → i ≡ 9 → v * 2 ^ (7 * i) + x < 2 ^ 64 → v ≤ 1
tenth_byte v i x e h = nine (rw e at h)
  where
    nine : v * 2 ^ (7 * 9) + x < 2 ^ 64 → v ≤ 1
    nine h' = omega arith

last_byte :
    (v i x : ℕ) (rest : Bytes)
    → v < 128
    → i < 10
    → v * 2 ^ (7 * i) + x < 2 ^ 64
    → uvarint_loop (v ∷ rest) i x ≡ some (x + v * 2 ^ (7 * i), i + 1)
unfolding uvarint_loop
last_byte v i x rest small few fits = ground (arith, tenth_byte v i x)

inner_byte :
    (g i x : ℕ) (rest : Bytes)
    → g < 128
    → i < 10
    → x + g * 2 ^ (7 * i) < 2 ^ 64
    → uvarint_loop ((g + 128) ∷ rest) i x ≡ uvarint_loop rest (i + 1) (x + g * 2 ^ (7 * i))
unfolding uvarint_loop
inner_byte g i x rest small few fits =
    let not_last : (i == 10) ≡ false = ground arith in
    let long : ltb (g + 128) 128 ≡ false = ground arith in
    let low : (g + 128) % 128 ≡ g = omega arith in
    let fit : (x + g * 2 ^ (7 * i)) % 2 ^ 64 ≡ x + g * 2 ^ (7 * i) = omega arith in
    rw (not_last, long, low, fit) refl

uvarint_loop-put_loop :
    (fuel v i x : ℕ) (rest : Bytes)
    → v < 128 ^ suc fuel
    → fuel + i ≡ 9
    → x + v * 2 ^ (7 * i) < 2 ^ 64
    → uvarint_loop (put_loop fuel v ++ rest) i x
      ≡ some (x + v * 2 ^ (7 * i), i + length (put_loop fuel v))
unfolding put_loop
uvarint_loop-put_loop zero v i x rest h few fits =
    last_byte v i x rest (omega arith) (omega arith) (omega arith)
    ∙ ap (λ n. some (x + v * 2 ^ (7 * i), n)) (omega arith)
uvarint_loop-put_loop (suc fuel) v i x rest h few fits = elim (Bool-cases (leb 128 v)) [
  | inr short ↦ rw short (
      last_byte v i x rest (ground arith) (omega arith) (omega arith)
      ∙ ap (λ n. some (x + v * 2 ^ (7 * i), n)) (omega arith))
  | inl long ↦ rw long (
      inner_byte (v % 128) i x _ (omega arith) (omega arith) (omega (arith, split_group v i))
      ∙ uvarint_loop-put_loop fuel (v / 128) (i + 1) (x + v % 128 * 2 ^ (7 * i)) rest (omega arith)
          (omega arith) (omega (arith, split_group v i))
      ∙ ap₂ (λ a n. some (a, n)) (omega (arith, split_group v i)) (omega arith))
]

-- A uint64 that `PutUvarint` wrote is read back, whatever follows it.
pub uvarint-put_uvarint :
    (v : ℕ) (rest : Bytes)
    → v < 2 ^ 64
    → uvarint (put_uvarint v ++ rest) ≡ some (v, length (put_uvarint v))
unfolding uvarint put_uvarint
uvarint-put_uvarint v rest h =
    uvarint_loop-put_loop 9 v 0 0 rest (omega arith) (omega arith) (omega arith)
    ∙ ap₂ (λ a n. some (a, n)) (omega arith) (omega arith)
