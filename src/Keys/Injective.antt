-- ===== src/Keys/Injective.antt =====
-- No two sequences of parts have one joined key.
use fluxrig.Prelude.{
  ℕ, zero, suc, ◌+◌, ◌-◌, ◌*◌, ◌/◌, ◌%◌, ◌<◌, ◌≤◌, ◌≡◌, ◌≢◌, refl, sym, ap, ◌∙◌, List, [], ◌∷◌,
  ◌++◌, Bytes, decimal, decimal_loop, length, length-append, arith, All, ltb, inl, inr, Bool-cases,
}
use fluxrig.Keys.{join_keys}

-- The number that digits stand for, behind those already read.
abbrev read : ℕ → Bytes → ℕ
read n [] = n
read n (c ∷ cs) = read (n * 10 + (c - b'0')) cs

abbrev IsDigit : ℕ → Type 0
IsDigit c = (b'0' ≤ c) × (c < b':')

read-decimal_loop :
    (fuel n : ℕ) (out : Bytes) → n < fuel → read 0 (decimal_loop fuel n out) ≡ read n out
unfolding decimal_loop
read-decimal_loop zero n out h = absurd (omega arith)
read-decimal_loop (suc fuel) n out h = elim (Bool-cases (ltb n 10)) [
  | inl small ↦ rw small (ap (λ m. read m out) (omega arith))
  | inr big ↦ rw big (
      read-decimal_loop fuel (n / 10) ((b'0' + n % 10) ∷ out) (ground arith)
      ∙ ap (λ m. read m out) (omega arith))
]

digits-decimal_loop :
    (fuel n : ℕ) (out : Bytes) → n < fuel → All IsDigit out → All IsDigit (decimal_loop fuel n out)
unfolding decimal_loop
digits-decimal_loop zero n out h v = v
digits-decimal_loop (suc fuel) n out h v = elim (Bool-cases (ltb n 10)) [
  | inl small ↦ rw small ((omega arith, ground arith), v)
  | inr big ↦ rw big (
      digits-decimal_loop fuel (n / 10) ((b'0' + n % 10) ∷ out) (ground arith)
        ((omega arith, omega arith), v))
]

-- Digits end at the first colon.
colon_unique :
    (a b s t : Bytes)
    → All IsDigit a
    → All IsDigit b
    → a ++ (b':' ∷ s) ≡ b ++ (b':' ∷ t)
    → (a ≡ b) × (s ≡ t)
colon_unique [] [] s t va vb h = (refl, cc)
colon_unique [] (y ∷ b) s t va (vy, vb) h = let e : b':' ≡ y = cc in absurd (omega arith)
colon_unique (x ∷ a) [] s t (vx, va) vb h = let e : x ≡ b':' = cc in absurd (omega arith)
colon_unique (x ∷ a) (y ∷ b) s t (vx, va) (vy, vb) h =
    let tails : a ++ (b':' ∷ s) ≡ b ++ (b':' ∷ t) = cc in
    let (e, f) = colon_unique a b s t va vb tails in let heads : x ≡ y = cc in (cc, f)

decimal-colon :
    (m n : ℕ) (s t : Bytes) → decimal m ++ (b':' ∷ s) ≡ decimal n ++ (b':' ∷ t) → (m ≡ n) × (s ≡ t)
unfolding decimal
decimal-colon m n s t h =
    let (e, f) =
      colon_unique (decimal_loop (suc m) m []) (decimal_loop (suc n) n []) s t
        (digits-decimal_loop (suc m) m [] (omega arith) tt)
        (digits-decimal_loop (suc n) n [] (omega arith) tt) h in
    (
      sym (read-decimal_loop (suc m) m [] (omega arith))
          ∙ ap (read 0) e
          ∙ read-decimal_loop (suc n) n [] (omega arith),
      f,
    )

same_length : (a b s t : Bytes) → length a ≡ length b → a ++ s ≡ b ++ t → (a ≡ b) × (s ≡ t)
same_length [] [] s t l h = (refl, h)
same_length [] (y ∷ b) s t l h = absurd (omega arith)
same_length (x ∷ a) [] s t l h = absurd (omega arith)
same_length (x ∷ a) (y ∷ b) s t l h =
    let tails : a ++ s ≡ b ++ t = cc in
    let (e, f) = same_length a b s t (omega arith) tails in let heads : x ≡ y = cc in (cc, f)

decimal-ne-nil : (n : ℕ) (s : Bytes) → decimal n ++ (b':' ∷ s) ≢ []
decimal-ne-nil n s h = absurd (omega (arith, ap length h, length-append (decimal n) (b':' ∷ s)))

-- Two sequences of parts, of any bytes and any lengths, that join to one key are the same sequence.
pub join_keys-injective : (ps qs : List Bytes) → join_keys ps ≡ join_keys qs → ps ≡ qs
unfolding join_keys
join_keys-injective [] [] h = refl
join_keys-injective [] (q ∷ qs) h = absurd (decimal-ne-nil (length q) (q ++ join_keys qs) (sym h))
join_keys-injective (p ∷ ps) [] h = absurd (decimal-ne-nil (length p) (p ++ join_keys ps) h)
join_keys-injective (p ∷ ps) (q ∷ qs) h =
    let (n, rest) = decimal-colon (length p) (length q) (p ++ join_keys ps) (q ++ join_keys qs) h in
    let (same, more) = same_length p q (join_keys ps) (join_keys qs) n rest in
    let tails = join_keys-injective ps qs more in cc
