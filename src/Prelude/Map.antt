-- ===== src/Prelude/Map.antt =====
-- A map from texts to numbers, such as addresses, as the list of its entries.
use Prim.Native.Nat.{ℕ, suc, ◌+◌}
use mathlib.Core.Path.{◌≡◌, refl}
use mathlib.Core.List.{List, [], ◌∷◌}
use mathlib.Core.Option.{Option, none, some}
use mathlib.Core.Logic.{inl, inr}
use native.Mathlib.Omega.{arith}
use fluxrig.Prelude.Tests.{◌==◌, if◌then◌else◌, Bool-cases}
use fluxrig.Prelude.Text.{Bytes, equal, equal_iff}
use fluxrig.Prelude.Lists.{length, All}

abbrev pub Map : Type 0
Map = List (Bytes × ℕ)

unfoldable pub find : Bytes → Map → Option ℕ
unfolding equal
find k [] = none
find k ((j, a) ∷ m) = if equal j k then some a else find k m

-- `m[k] = a`.
unfoldable pub put : Bytes → ℕ → Map → Map
unfolding equal
put k a [] = (k, a) ∷ []
put k a ((j, b) ∷ m) = if equal j k then (k, a) ∷ m else (j, b) ∷ put k a m

-- `delete(m, k)`.
unfoldable pub erase : Bytes → Map → Map
unfolding equal
erase k [] = []
erase k ((j, b) ∷ m) = if equal j k then m else (j, b) ∷ erase k m

-- No key stands twice.
abbrev pub IsMap : Map → Type 0
IsMap [] = Unit
IsMap ((k, a) ∷ m) = (find k m ≡ none) × IsMap m

-- How often an address stands in a map.
abbrev pub occurrences : ℕ → Map → ℕ
occurrences a [] = 0
occurrences a ((k, b) ∷ m) = (if b == a then 1 else 0) + occurrences a m

pub find-put :
    (k j : Bytes) (a : ℕ) (m : Map) → find j (put k a m) ≡ (if equal k j then some a else find j m)
unfolding find put
find-put k j a [] = refl
find-put k j a ((i, b) ∷ m) =
    ground (arith, equal_iff k j, equal_iff i k, equal_iff i j, find-put k j a m)

pub find-erase :
    (k j : Bytes) (m : Map) → IsMap m → find j (erase k m) ≡ (if equal k j then none else find j m)
unfolding find erase
find-erase k j [] v = ground arith
find-erase k j ((i, b) ∷ m) (n, v) =
    ground (arith, equal_iff k j, equal_iff i k, equal_iff i j, find-erase k j m v)

pub put-IsMap : (k : Bytes) (a : ℕ) (m : Map) → IsMap m → IsMap (put k a m)
unfolding put
put-IsMap k a [] v = (unfold find in refl, tt)
put-IsMap k a ((j, b) ∷ m) (n, v) =
    ground (arith, equal_iff j k, equal_iff k j, find-put k j a m, put-IsMap k a m v)

pub erase-IsMap : (k : Bytes) (m : Map) → IsMap m → IsMap (erase k m)
unfolding erase
erase-IsMap k [] v = tt
erase-IsMap k ((j, b) ∷ m) (n, v) = ground (arith, find-erase k j m v, erase-IsMap k m v)

pub occurrences-erase :
    (a b : ℕ) (k : Bytes) (m : Map)
    → find k m ≡ some b
    → occurrences a (erase k m) + (if b == a then 1 else 0) ≡ occurrences a m
unfolding find erase
occurrences-erase a b k [] h = cc
occurrences-erase a b k ((j, c) ∷ m) h = ground (arith, occurrences-erase a b k m)

pub occurrences-put :
    (a b : ℕ) (k : Bytes) (m : Map)
    → find k m ≡ none
    → occurrences a (put k b m) ≡ occurrences a m + (if b == a then 1 else 0)
unfolding find put
occurrences-put a b k [] h = omega arith
occurrences-put a b k ((j, c) ∷ m) h = ground (arith, occurrences-put a b k m)

pub length-put :
    (b : ℕ) (k : Bytes) (m : Map) → find k m ≡ none → length (put k b m) ≡ suc (length m)
unfolding find put
length-put b k [] h = refl
length-put b k ((j, c) ∷ m) h = ground (arith, length-put b k m)

pub length-erase :
    (b : ℕ) (k : Bytes) (m : Map) → find k m ≡ some b → suc (length (erase k m)) ≡ length m
unfolding find erase
length-erase b k [] h = cc
length-erase b k ((j, c) ∷ m) h = ground (arith, length-erase b k m)

module _ {ℓ} (P : Bytes → ℕ → Type ℓ) where
  abbrev pub Entries : Map → Type ℓ
  Entries = All (λ e. P e.0 e.1)

  pub erase-Entries : (k : Bytes) (m : Map) → Entries m → Entries (erase k m)
  unfolding erase
  erase-Entries k [] v = tt
  erase-Entries k ((j, b) ∷ m) (w, v) = elim (Bool-cases (equal j k)) [
    | inl e ↦ rw e v
    | inr e ↦ rw e (w, erase-Entries k m v)
  ]

  pub put-Entries : (k : Bytes) (a : ℕ) (m : Map) → P k a → Entries m → Entries (put k a m)
  unfolding put
  put-Entries k a [] w v = (w, tt)
  put-Entries k a ((j, b) ∷ m) w (x, v) = elim (Bool-cases (equal j k)) [
    | inl e ↦ rw e (w, v)
    | inr e ↦ rw e (x, put-Entries k a m w v)
  ]

  pub find-Entries : (k : Bytes) (a : ℕ) (m : Map) → find k m ≡ some a → Entries m → P k a
  unfolding find
  find-Entries k a [] h v = cc
  find-Entries k a ((j, b) ∷ m) h (x, v) = elim (Bool-cases (equal j k)) [
    | inl e ↦
        let at : j ≡ k = (equal_iff j k).0 e in
        let here : b ≡ a = ground arith in rw (← at, ← here) x
    | inr e ↦ find-Entries k a m (rw e at h) v
  ]
