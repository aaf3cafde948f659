-- ===== src/Wasm/RoundTrip.antt =====
-- `ExtractCustomSection` on files made of whole sections, and behind `AppendCustomSection`.
use fluxrig.Prelude.{
  ℕ, ◌^◌, ◌<◌, ◌≡◌, refl, ap, ◌∙◌, true, false, List, [], ◌∷◌, ◌++◌, append_assoc, append-nil, some,
  arith, Bytes, equal_refl, length, All,
}
use fluxrig.Wasm.{
  magic, is_wasm, append_custom_section, found, section_not_found, extract_custom_section,
}
use fluxrig.Wasm.Sections.{
  Section, custom, encode, encodes, IsSection, is_named, expected, scan-encodes,
}

abbrev pub file : List Section → Bytes
file ss = magic ++ encodes ss

abbrev IsUnnamed : Bytes → Section → Type 0
IsUnnamed target s = is_named target s ≡ false

is_wasm-file : (ss : List Section) → is_wasm (file ss) ≡ true
unfolding is_wasm
is_wasm-file ss = ground arith

extract-file :
    (ss : List Section) (fuel : ℕ) (target : Bytes)
    → All IsSection ss
    → length ss < fuel
    → length (file ss) < 2 ^ 63
    → extract_custom_section fuel (file ss) target ≡ expected target magic ss
unfolding extract_custom_section
extract-file ss fuel target v h small =
    rw (is_wasm-file ss) (scan-encodes ss fuel magic target v h small)

expected_first :
    (front back : List Section) (target content pre : Bytes)
    → All (IsUnnamed target) front
    → expected target pre (front ++ (custom target content ∷ back))
      ≡ found content (pre ++ encodes (front ++ back))
expected_first [] back target content pre u = rw (equal_refl target) refl
expected_first (s ∷ front) back target content pre (us, u) = rw us (
    expected_first front back target content (pre ++ encode s) u
    ∙ ap (found content) (append_assoc pre (encode s) (encodes (front ++ back))))

expected_missing :
    (ss : List Section) (target pre : Bytes)
    → All (IsUnnamed target) ss
    → expected target pre ss ≡ section_not_found
expected_missing [] target pre u = refl
expected_missing (s ∷ ss) target pre (us, u) =
    rw us (expected_missing ss target (pre ++ encode s) u)

-- On a file of whole sections, smaller than 2^63 bytes, extraction returns the payload of the first
-- custom section with the name, and the file without exactly that section; a round for each
-- section and one more are enough.
pub extract_first :
    (front back : List Section) (fuel : ℕ) (target content : Bytes)
    → All (IsUnnamed target) front
    → All IsSection (front ++ (custom target content ∷ back))
    → length (front ++ (custom target content ∷ back)) < fuel
    → length (file (front ++ (custom target content ∷ back))) < 2 ^ 63
    → extract_custom_section fuel (file (front ++ (custom target content ∷ back))) target
      ≡ found content (file (front ++ back))
extract_first front back fuel target content u v h small =
    extract-file (front ++ (custom target content ∷ back)) fuel target v h small
    ∙ expected_first front back target content magic u

-- With no custom section of the name it reports that there is none.
pub extract_missing :
    (ss : List Section) (fuel : ℕ) (target : Bytes)
    → All (IsUnnamed target) ss
    → All IsSection ss
    → length ss < fuel
    → length (file ss) < 2 ^ 63
    → extract_custom_section fuel (file ss) target ≡ section_not_found
extract_missing ss fuel target u v h small =
    extract-file ss fuel target v h small ∙ expected_missing ss target magic u

encodes-append : (xs ys : List Section) → encodes (xs ++ ys) ≡ encodes xs ++ encodes ys
encodes-append [] ys = refl
encodes-append (x ∷ xs) ys = simp (encodes-append xs ys, append_assoc)

append_custom_section-file :
    (ss : List Section) (name payload : Bytes)
    → append_custom_section (file ss) name payload ≡ some (file (ss ++ (custom name payload ∷ [])))
unfolding append_custom_section
append_custom_section-file ss name payload =
    rw (is_wasm-file ss) (ap some (simp (encodes-append, append_assoc, append-nil)))

-- What is appended to a file of whole sections with no section of that name is extracted again,
-- and the file that was there before is given back.
pub extract-append :
    (ss : List Section) (fuel : ℕ) (name payload : Bytes)
    → All (IsUnnamed name) ss
    → All IsSection (ss ++ (custom name payload ∷ []))
    → length (ss ++ (custom name payload ∷ [])) < fuel
    → length (file (ss ++ (custom name payload ∷ []))) < 2 ^ 63
    → (w : Bytes) × (append_custom_section (file ss) name payload ≡ some w)
      × (extract_custom_section fuel w name ≡ found payload (file ss))
extract-append ss fuel name payload u v h small = (
  file (ss ++ (custom name payload ∷ [])),
  append_custom_section-file ss name payload,
  extract_first ss [] fuel name payload u v h small
      ∙ ap (λ xs. found payload (file xs)) (append-nil ss),
)
