-- ===== src/Prelude/Text.antt =====
-- Bytes and texts as lists of numbers: comparison, prefixes and the search of a byte pattern.
use Prim.Native.Nat.{ℕ, zero, suc, ◌≤◌, ◌+◌, ◌/◌, ◌%◌}
use Prim.Native.Char.{code}
use Prim.Native.String.{String}
use mathlib.Core.Path.{◌≡◌, refl}
use mathlib.Core.Logic.{◌↔◌}
use mathlib.Core.Bool.{Bool, true, false, ◌&&◌}
use mathlib.Core.List.{List, [], ◌∷◌}
use mathlib.Core.Option.{Option, none, some}
use native.Mathlib.Omega.{arith}
use fluxrig.Prelude.Tests.{ltb, ◌==◌, if◌then◌else◌}

abbrev pub Bytes : Type 0
Bytes = List ℕ

abbrev pub IsByte : ℕ → Type 0
IsByte b = suc b ≤ 256

-- The bytes of an ASCII text.
abbrev pub codes : String → Bytes
codes String.[] = []
codes (String.◌∷◌ c s) = code c ∷ codes s

-- `==` on strings, and `bytes.Equal`.
unfoldable pub equal : Bytes → Bytes → Bool
equal [] [] = true
equal (x ∷ xs) (y ∷ ys) = x == y && equal xs ys
equal _ _ = false

-- `strings.HasPrefix`.
unfoldable pub has_prefix : Bytes → Bytes → Bool
has_prefix s [] = true
has_prefix [] (p ∷ ps) = false
has_prefix (c ∷ s) (p ∷ ps) = c == p && has_prefix s ps

-- `bytes.Index`: the first position at which `p` stands in `s`.
unfoldable pub index : Bytes → Bytes → Option ℕ
unfolding has_prefix
index [] p = if has_prefix [] p then some 0 else none
index (c ∷ s) p =
    let later = index s p in
    if has_prefix (c ∷ s) p then some 0 else elim later [ none ↦ none | some i ↦ some (suc i) ]

-- `%d` of a number; it has fewer digits than it has units, so the number is fuel enough.
unfoldable pub decimal_loop : ℕ → ℕ → Bytes → Bytes
decimal_loop zero n out = out
decimal_loop (suc fuel) n out =
    let digits = decimal_loop fuel (n / 10) ((b'0' + n % 10) ∷ out) in
    if ltb n 10 then (b'0' + n) ∷ out else digits

unfoldable pub decimal : ℕ → Bytes
unfolding decimal_loop
decimal n = decimal_loop (suc n) n []

pub equal_iff : (a b : Bytes) → (equal a b ≡ true) ↔ (a ≡ b)
unfolding equal
equal_iff (x ∷ a) (y ∷ b) = ground (arith, equal_iff a b)
equal_iff [] [] = ground arith
equal_iff _ _ = ground arith

pub equal_refl : (a : Bytes) → equal a a ≡ true
equal_refl a = (equal_iff a a).1 refl
