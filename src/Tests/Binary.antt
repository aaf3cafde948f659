-- ===== src/Tests/Binary.antt =====
-- Custom sections of a small Wasm file.
use fluxrig.Prelude.{◌≡◌, refl, List, [], ◌∷◌, ◌++◌, some, arith, Bytes, codes, equal}
use fluxrig.Wasm.{
  append_custom_section, extract_custom_section, found, section_not_found, running, uvarint,
  put_uvarint, put_loop,
}
use fluxrig.Wasm.Sections.{Section, custom, plain}
use fluxrig.Wasm.RoundTrip.{file, extract_first, extract_missing, extract-append}
use fluxrig.Wasm.Varint.{uvarint-put_uvarint}
use fluxrig.Wasm.Loop.{looping, extract_custom_section_loops}

abbrev code_section : Section
code_section = plain 10 (1 ∷ 2 ∷ 3 ∷ [])

abbrev name_section : Section
name_section = custom (codes "name") (7 ∷ [])

abbrev manifest : Bytes
manifest = codes "manifest"

abbrev two_sections : List Section
two_sections = code_section ∷ name_section ∷ []

extract_first_run :
    extract_custom_section 4 (file (two_sections ++ (custom manifest (9 ∷ []) ∷ []))) manifest
    ≡ found (9 ∷ []) (file two_sections)
unfolding put_uvarint put_loop equal
extract_first_run =
    extract_first two_sections [] 4 manifest (9 ∷ []) (refl, (refl, tt))
      ((λ e. cc e), (tt, (tt, tt))) (omega arith) (omega arith)

extract_missing_run : extract_custom_section 3 (file two_sections) manifest ≡ section_not_found
unfolding put_uvarint put_loop equal
extract_missing_run =
    extract_missing two_sections 3 manifest (refl, (refl, tt)) ((λ e. cc e), (tt, tt)) (omega arith)
      (omega arith)

extract-append_example :
    (w : Bytes) × (append_custom_section (file two_sections) manifest (9 ∷ []) ≡ some w)
    × (extract_custom_section 4 w manifest ≡ found (9 ∷ []) (file two_sections))
unfolding put_uvarint put_loop equal
extract-append_example =
    extract-append two_sections 4 manifest (9 ∷ []) (refl, (refl, tt)) ((λ e. cc e), (tt, (tt, tt)))
      (omega arith) (omega arith)

uvarint-put_uvarint_example : uvarint (put_uvarint 300 ++ (5 ∷ [])) ≡ some (300, 2)
unfolding put_uvarint put_loop
uvarint-put_uvarint_example = uvarint-put_uvarint 300 (5 ∷ []) (omega arith)

put_uvarint_run : put_uvarint 300 ≡ 0xac ∷ 0x02 ∷ []
unfolding put_uvarint put_loop
put_uvarint_run = refl

extract_custom_section_loops_example :
    extract_custom_section 1000 (looping (1 ∷ 2 ∷ [])) manifest ≡ running
extract_custom_section_loops_example = extract_custom_section_loops 1000 (1 ∷ 2 ∷ []) manifest
