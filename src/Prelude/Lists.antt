-- ===== src/Prelude/Lists.antt =====
-- Lists measured and cut by native numbers, under the library's names, and predicates over lists.
use Prim.Native.Nat.{ℕ, zero, suc, ◌+◌, ◌-◌, ◌≤◌, min}
use mathlib.Core.Path.{◌≡◌, refl, ap}
use mathlib.Core.Logic.{◌⊎◌, inl, inr}
use mathlib.Core.List.{List, [], ◌∷◌, ◌++◌}
use mathlib.Core.Option.{Option, none, some}
use native.Mathlib.Omega.{arith}

module _ {ℓ} {A : Type ℓ} where
  abbrev pub length : List A → ℕ
  length [] = 0
  length (x ∷ xs) = suc (length xs)

  abbrev pub get_elem? : List A → ℕ → Option A
  get_elem? [] i = none
  get_elem? (x ∷ xs) zero = some x
  get_elem? (x ∷ xs) (suc i) = get_elem? xs i

  abbrev pub get_or : List A → ℕ → A → A
  get_or [] i d = d
  get_or (x ∷ xs) zero d = x
  get_or (x ∷ xs) (suc i) d = get_or xs i d

  abbrev pub take : ℕ → List A → List A
  take zero xs = []
  take (suc n) [] = []
  take (suc n) (x ∷ xs) = x ∷ take n xs

  abbrev pub drop : ℕ → List A → List A
  drop zero xs = xs
  drop (suc n) [] = []
  drop (suc n) (x ∷ xs) = drop n xs

  unfoldable pub replicate : ℕ → A → List A
  replicate zero a = []
  replicate (suc n) a = a ∷ replicate n a

  -- Every element of the list has the property.
  abbrev pub All {κ} : (A → Type κ) → List A → Type κ
  All P [] = Unit {κ}
  All P (x ∷ xs) = P x × All P xs

module _ {ℓ} {A : Type ℓ} where
  pub List-cases : (xs : List A) → (xs ≡ []) ⊎ ((y : A) × (ys : List A) × (xs ≡ y ∷ ys))
  List-cases [] = inl refl
  List-cases (x ∷ xs) = inr (x, xs, refl)

  pub append_empty : (xs ys : List A) → xs ++ ys ≡ [] → (xs ≡ []) × (ys ≡ [])
  append_empty [] ys h = (refl, h)
  append_empty (x ∷ xs) ys h = cc

  pub length-append : (xs ys : List A) → length (xs ++ ys) ≡ length xs + length ys
  length-append [] ys = omega arith
  length-append (x ∷ xs) ys = omega (arith, length-append xs ys)

  pub length-take : (n : ℕ) (xs : List A) → length (take n xs) ≡ min n (length xs)
  length-take zero xs = omega arith
  length-take (suc n) [] = omega arith
  length-take (suc n) (x ∷ xs) = omega (arith, length-take n xs)

  pub length-drop : (n : ℕ) (xs : List A) → length (drop n xs) ≡ length xs - n
  length-drop zero xs = omega arith
  length-drop (suc n) [] = omega arith
  length-drop (suc n) (x ∷ xs) = omega (arith, length-drop n xs)

  pub length-replicate : (n : ℕ) (a : A) → length (replicate n a) ≡ n
  unfolding replicate
  length-replicate zero a = refl
  length-replicate (suc n) a = ap suc (length-replicate n a)

  pub take-append-drop : (n : ℕ) (xs : List A) → take n xs ++ drop n xs ≡ xs
  take-append-drop zero xs = refl
  take-append-drop (suc n) [] = refl
  take-append-drop (suc n) (x ∷ xs) = ap (◌∷◌ x) (take-append-drop n xs)

  pub take-append : (xs ys : List A) (n : ℕ) → n ≡ length xs → take n (xs ++ ys) ≡ xs
  take-append [] ys zero h = refl
  take-append [] ys (suc n) h = absurd (omega arith)
  take-append (x ∷ xs) ys zero h = absurd (omega arith)
  take-append (x ∷ xs) ys (suc n) h = ap (◌∷◌ x) (take-append xs ys n (omega arith))

  pub drop-append : (xs ys : List A) (n : ℕ) → n ≡ length xs → drop n (xs ++ ys) ≡ ys
  drop-append [] ys zero h = refl
  drop-append [] ys (suc n) h = absurd (omega arith)
  drop-append (x ∷ xs) ys zero h = absurd (omega arith)
  drop-append (x ∷ xs) ys (suc n) h = drop-append xs ys n (omega arith)

  pub take-append_le : (n : ℕ) (xs ys : List A) → n ≤ length xs → take n (xs ++ ys) ≡ take n xs
  take-append_le zero xs ys h = refl
  take-append_le (suc n) [] ys h = absurd (omega arith)
  take-append_le (suc n) (x ∷ xs) ys h = ap (◌∷◌ x) (take-append_le n xs ys (omega arith))

  pub drop-append_le :
      (n : ℕ) (xs ys : List A) → n ≤ length xs → drop n (xs ++ ys) ≡ drop n xs ++ ys
  drop-append_le zero xs ys h = refl
  drop-append_le (suc n) [] ys h = absurd (omega arith)
  drop-append_le (suc n) (x ∷ xs) ys h = drop-append_le n xs ys (omega arith)

module _ {ℓ κ} {A : Type ℓ} (P : A → Type κ) where
  pub All-append : (xs ys : List A) → All P xs → All P ys → All P (xs ++ ys)
  All-append [] ys hx hy = hy
  All-append (x ∷ xs) ys hx hy = (hx.0, All-append xs ys hx.1 hy)

  pub All-append_inv : (xs ys : List A) → All P (xs ++ ys) → All P xs × All P ys
  All-append_inv [] ys h = (tt, h)
  All-append_inv (x ∷ xs) ys h = let (hx, hy) = All-append_inv xs ys h.1 in ((h.0, hx), hy)
