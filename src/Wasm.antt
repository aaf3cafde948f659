-- ===== src/Wasm.antt =====
-- pkg/wasm/catalog/section.go: custom sections of a Wasm binary. Bytes are numbers. An offset is
-- Go's int, kept as its 64-bit pattern, since the sizes that a file states can carry it out of the
-- slice or below zero. The two varint routines are those of encoding/binary, as documented.
pub mod Varint
pub mod Sections
pub mod RoundTrip
pub mod Loop
use fluxrig.Prelude.{
  ℕ, zero, suc, ◌+◌, ◌*◌, ◌/◌, ◌%◌, ◌^◌, Bool, true, false, not, ◌&&◌, ◌||◌, List, [], ◌∷◌, ◌++◌,
  Option, none, some, Bytes, equal, length, take, drop, get_elem?, ◌-◌, ltb, leb, ◌==◌,
  if◌then◌else◌,
}

-- `binary.PutUvarint`: the bytes written. A uint64 takes ten at most, so nine rounds of fuel are
-- enough.
unfoldable pub put_loop : ℕ → ℕ → Bytes
put_loop zero x = x ∷ []
put_loop (suc fuel) x =
    let more = (x % 128 + 128) ∷ put_loop fuel (x / 128) in if leb 128 x then more else x ∷ []

unfoldable pub put_uvarint : ℕ → Bytes
unfolding put_loop
put_uvarint x = put_loop 9 x

-- `binary.Uvarint`: the value and the number of bytes read, or `none` where Go returns a count that
-- is not positive: the buffer ends, or the value does not fit. The bits that `|=` joins are apart.
unfoldable pub uvarint_loop : Bytes → ℕ → ℕ → Option (ℕ × ℕ)
uvarint_loop [] i x = none
uvarint_loop (b ∷ bs) i x =
    let more = uvarint_loop bs (i + 1) ((x + b % 128 * 2 ^ (7 * i)) % 2 ^ 64) in
    if i == 10
    then none
    else if ltb b 128
    then (if i == 9 && ltb 1 b then none else some ((x + b * 2 ^ (7 * i)) % 2 ^ 64, i + 1))
    else more

unfoldable pub uvarint : Bytes → Option (ℕ × ℕ)
unfolding uvarint_loop
uvarint bs = uvarint_loop bs 0 0

abbrev pub magic : Bytes
magic = 0x00 ∷ 0x61 ∷ 0x73 ∷ 0x6d ∷ 0x01 ∷ 0x00 ∷ 0x00 ∷ 0x00 ∷ []

-- Not `len(w) < 8 || !bytes.Equal(w[:8], magic)`.
unfoldable pub is_wasm : Bytes → Bool
unfolding equal
is_wasm w = not (ltb (length w) 8 || not (equal (take 8 w) magic))

-- `AppendCustomSection`; `none` is `ErrInvalidWasm`. Its two buffers hold a varint of five bytes: a
-- name or a section of 2^35 bytes or more, at which it would panic, is left out.
unfoldable pub append_custom_section : Bytes → Bytes → Bytes → Option Bytes
unfolding is_wasm put_uvarint
append_custom_section w name payload =
    let section = put_uvarint (length name) ++ (name ++ payload) in
    if is_wasm w then some (w ++ (0x00 ∷ (put_uvarint (length section) ++ section))) else none

-- What `ExtractCustomSection` does: it returns the payload and the file without the section, or one
-- of its two errors, or it panics, or it has not ended yet.
pub data Extract : Type 0 where
  found : Bytes → Bytes → Extract
  invalid_wasm section_not_found panics running : Extract

-- The sign of an int, and `<=` on ints, by their patterns.
abbrev pub negative : ℕ → Bool
negative x = leb (2 ^ 63) x

abbrev pub le_int : ℕ → ℕ → Bool
le_int a b = leb ((a + 2 ^ 63) % 2 ^ 64) ((b + 2 ^ 63) % 2 ^ 64)

-- The name at `name_start` and the payload behind it, in a custom section that ends at `offset`.
-- `none` is to go on with the loop. A slice from a negative or past its end panics.
unfoldable pub match_name : Bytes → Bytes → ℕ → ℕ → ℕ → ℕ → Option Extract
unfolding equal
match_name w target section_start name_start name_end offset =
    if not (le_int name_end offset)
    then none
    else if negative name_end || ltb name_end name_start
    then some panics
    else if equal (take (name_end - name_start) (drop name_start w)) target
    then some
        (found (take (offset - name_end) (drop name_end w)) (take section_start w ++ drop offset w))
    else none

-- The body of `if id == 0`: from where the section's payload starts and ends.
unfoldable pub match_custom : Bytes → Bytes → ℕ → ℕ → ℕ → Option Extract
unfolding match_name uvarint
match_custom w target section_start start offset = elim (uvarint (drop start w)) [
  | none ↦ none
  | some (name_len, n) ↦
      match_name w target section_start (start + n) ((start + n + name_len) % 2 ^ 64) offset
]

-- The loop, from an offset.
unfoldable pub scan : ℕ → Bytes → Bytes → ℕ → Extract
unfolding match_custom uvarint
scan zero w target offset = running
scan (suc fuel) w target offset = elim (negative offset) [
  | true ↦ panics
  | false ↦ elim (get_elem? w offset) [
    | none ↦ section_not_found
    | some id ↦ elim (uvarint (drop (offset + 1) w)) [
      | none ↦ invalid_wasm
      | some (size, n) ↦
          let start = offset + 1 + n in
          let next = (start + size) % 2 ^ 64 in
          elim (not (negative next) && ltb (length w) next) [
            | true ↦ invalid_wasm
            | false ↦ elim (id == 0) [
              | true ↦ elim (match_custom w target offset start next) [
                | some r ↦ r
                | none ↦ scan fuel w target next
              ]
              | false ↦ scan fuel w target next
            ]
          ]
    ]
  ]
]

-- `ExtractCustomSection`.
unfoldable pub extract_custom_section : ℕ → Bytes → Bytes → Extract
unfolding is_wasm scan
extract_custom_section fuel w target = if is_wasm w then scan fuel w target 8 else invalid_wasm
