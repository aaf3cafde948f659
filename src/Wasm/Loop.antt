-- ===== src/Wasm/Loop.antt =====
-- A file that states a section size of 2^63 or more.
use fluxrig.Prelude.{ℕ, zero, suc, ◌≡◌, refl, ◌∷◌, ◌++◌, Bytes, arith}
use fluxrig.Wasm.{scan, magic, running, extract_custom_section}

-- The magic number, one section of id 1 with size 2^64 - 11, and anything behind it.
abbrev pub looping : Bytes → Bytes
looping tail =
    magic ++ (0x01 ∷ 0xf5 ∷ 0xff ∷ 0xff ∷ 0xff ∷ 0xff ∷ 0xff ∷ 0xff ∷ 0xff ∷ 0xff ∷ 0x01 ∷ tail)

scan-looping : (fuel : ℕ) (tail target : Bytes) → scan fuel (looping tail) target 8 ≡ running
unfolding scan
scan-looping zero tail target = refl
scan-looping (suc fuel) tail target = ground (arith, scan-looping fuel tail target)

-- `ExtractCustomSection` never returns on such a file, whatever section it is asked for and
-- whatever follows: the size, read as an int, is negative and takes the offset back to the start of
-- the section.
pub extract_custom_section_loops :
    (fuel : ℕ) (tail target : Bytes) → extract_custom_section fuel (looping tail) target ≡ running
unfolding extract_custom_section
extract_custom_section_loops fuel tail target = ground (arith, scan-looping fuel tail target)
