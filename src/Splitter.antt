-- ===== src/Splitter.antt =====
-- pkg/gears/native/io_tcp/splitter.go: the split functions that cut a TCP stream into messages, and
-- `frameOutbound` of pkg/gears/native/io_tcp/server.go, which frames what is sent. The loop of
-- bufio.Scanner that drives a split function, and bufio.ScanLines, are as documented; the limit on
-- the scanner's buffer is left out.
pub mod Stable
pub mod Stream
pub mod Frames
use fluxrig.Prelude.{
  ℕ, zero, suc, ◌+◌, ◌-◌, ◌*◌, ◌/◌, ◌%◌, ◌^◌, Bool, true, false, not, ◌&&◌, ◌||◌, List, [], ◌∷◌,
  ◌++◌, Option, none, some, Bytes, codes, equal, index, length, take, drop, get_or, ltb, leb, ◌==◌,
  if◌then◌else◌,
}

-- The fields of `Config` that framing reads.
pub record Config : Type 0 where
  pub framing : Bytes
  pub delimiter : Bytes
  pub delimiter_position : Bytes
  pub delimiter_include : Bool

abbrev pub length_prefix2 : Bytes
length_prefix2 = codes "length_prefix2"

abbrev pub length_prefix4 : Bytes
length_prefix4 = codes "length_prefix4"

-- What a split function returns: how far to advance and a token, or an error.
pub data Split : Type 0 where
  split : ℕ → Option Bytes → Split
  failed : ℕ → Split

abbrev pub wait : Split
wait = split 0 none

abbrev pub is_empty : Bytes → Bool
is_empty [] = true
is_empty (b ∷ bs) = false

-- `returnToken`.
unfoldable pub return_token : Bytes → Bool → ℕ → Bool → Bytes
return_token chunk included delim_len is_prefix =
    if included
    then chunk
    else if is_prefix
    then (if leb delim_len (length chunk) then drop delim_len chunk else chunk)
    else if leb delim_len (length chunk)
    then take (length chunk - delim_len) chunk
    else chunk

-- `dropCR` of bufio.
abbrev pub drop_cr : Bytes → Bytes
drop_cr [] = []
drop_cr (b ∷ []) = if b == b'\r' then [] else b ∷ []
drop_cr (b ∷ c ∷ bs) = b ∷ drop_cr (c ∷ bs)

-- `bufio.ScanLines`.
unfoldable pub scan_lines : Bytes → Bool → Split
unfolding index
scan_lines bytes at_eof =
    if at_eof && is_empty bytes then wait else elim (index bytes (b'\n' ∷ [])) [
      | some i ↦ split (i + 1) (some (drop_cr (take i bytes)))
      | none ↦ if at_eof then split (length bytes) (some (drop_cr bytes)) else wait
    ]

unfoldable pub split_prefix : Config → Bytes → Bool → Split
unfolding index return_token
split_prefix cfg bytes at_eof = elim (index bytes cfg.delimiter) [
  | none ↦ if at_eof then split (length bytes) none else wait
  | some (suc i) ↦ split (suc i) none
  | some zero ↦
      let n = length cfg.delimiter in
      elim (index (drop n bytes) cfg.delimiter) [
        | none ↦
            if at_eof
            then split (length bytes) (some (return_token bytes cfg.delimiter_include n true))
            else wait
        | some next ↦
            split (n + next)
              (some (return_token (take (n + next) bytes) cfg.delimiter_include n true))
      ]
]

unfoldable pub split_suffix : Config → Bytes → Bool → Split
unfolding index return_token
split_suffix cfg bytes at_eof = elim (index bytes cfg.delimiter) [
  | some i ↦
      let n = length cfg.delimiter in
      split (i + n) (some (return_token (take (i + n) bytes) cfg.delimiter_include n false))
  | none ↦ if at_eof then split (length bytes) (some bytes) else wait
]

-- The length in a header of 2 bytes, or else of 4.
unfoldable pub read_length : ℕ → Bytes → ℕ
read_length header_len bytes =
    let b = λ (i : ℕ). get_or bytes i 0 in
    if header_len == 2 then b 0 * 2 ^ 8 + b 1 else b 0 * 2 ^ 24 + b 1 * 2 ^ 16 + b 2 * 2 ^ 8 + b 3

abbrev pub max_message : ℕ
max_message = 1024 * 1024

-- `makeLengthPrefixSplitter`. An int holds every length of four bytes, so none is below 0.
unfoldable pub split_length : ℕ → Bytes → Bool → Split
split_length header_len bytes at_eof =
    let len = read_length header_len bytes in
    if at_eof && is_empty bytes
    then wait
    else if ltb (length bytes) header_len
    then (if at_eof then failed (length bytes) else wait)
    else if ltb max_message len
    then failed 0
    else if ltb (length bytes) (header_len + len)
    then (if at_eof then failed (length bytes) else wait)
    else split (header_len + len) (some (take len (drop header_len bytes)))

-- `MakeSplitter`.
unfoldable pub make_splitter : Config → Bytes → Bool → Split
make_splitter cfg bytes at_eof =
    if equal cfg.framing length_prefix2 || equal cfg.framing length_prefix4
    then split_length (if equal cfg.framing length_prefix4 then 4 else 2) bytes at_eof
    else if is_empty cfg.delimiter
    then scan_lines bytes at_eof
    else if at_eof && is_empty bytes
    then wait
    else if equal cfg.delimiter_position (codes "prefix")
    then split_prefix cfg bytes at_eof
    else split_suffix cfg bytes at_eof

-- `frameOutbound`; `none` is its error.
unfoldable pub frame_outbound : Bytes → Bytes → Option Bytes
unfolding equal
frame_outbound framing payload =
    let n = length payload in
    if equal framing length_prefix2
    then (if ltb 65535 n then none else some ((n / 2 ^ 8 % 256) ∷ (n % 256) ∷ payload))
    else if equal framing length_prefix4
    then some ((n / 2 ^ 24 % 256) ∷ (n / 2 ^ 16 % 256) ∷ (n / 2 ^ 8 % 256) ∷ (n % 256) ∷ payload)
    else some payload

-- The loop of bufio.Scanner on what it has read so far: the tokens, and what stays in its buffer,
-- or `none` after an error of the split function. It asks for more when a split function neither
-- advances nor gives a token. A round advances by one byte at least, so the length is fuel enough.
unfoldable pub scan_buffer : (Bytes → Bool → Split) → ℕ → Bytes → Bool → List Bytes × Option Bytes
scan_buffer f zero bytes at_eof = ([], some bytes)
scan_buffer f (suc fuel) bytes at_eof = elim (f bytes at_eof) [
  | failed n ↦ ([], none)
  | split zero t ↦ ([], some bytes)
  | split (suc n) none ↦ scan_buffer f fuel (drop (suc n) bytes) at_eof
  | split (suc n) (some t) ↦
      let (ts, rest) = scan_buffer f fuel (drop (suc n) bytes) at_eof in (t ∷ ts, rest)
]

-- The tokens of a stream that arrives in chunks, up to its end or to an error.
unfoldable pub scan_chunks : (Bytes → Bool → Split) → Bytes → List Bytes → List Bytes
unfolding scan_buffer
scan_chunks f buffer [] = (scan_buffer f (suc (length buffer)) buffer true).0
scan_chunks f buffer (c ∷ cs) =
    let (ts, rest) = scan_buffer f (suc (length (buffer ++ c))) (buffer ++ c) false in
    elim rest [ none ↦ ts | some buffer' ↦ ts ++ scan_chunks f buffer' cs ]
