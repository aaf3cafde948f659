-- ===== src/Splitter/Frames.antt =====
-- The framings of the gear: a length prefix of 2 or 4 bytes, and a delimiter behind each message.
use fluxrig.Prelude.{
  ℕ, suc, ◌+◌, ◌/◌, ◌%◌, ◌^◌, ◌≤◌, ◌<◌, ◌≡◌, refl, ap, ◌∙◌, Bool, false, List, [], ◌∷◌, ◌++◌,
  Option, none, some, arith, Bytes, codes, equal, index, length, length-append, take-append, All,
  ◌⊎◌, inl, inr, Option-cases, if◌then◌else◌,
}
use fluxrig.Splitter.{
  Config, Split, split, failed, wait, is_empty, return_token, read_length, split_length,
  split_suffix, make_splitter, frame_outbound, length_prefix2, length_prefix4, max_message,
  scan_chunks,
}
use mathlib.Core.Path.{fun_ext}
use fluxrig.Prelude.{◌≢◌, ◌&&◌, ◌-◌, List-cases, map, equal_iff}
use fluxrig.Splitter.Stable.{index-append, index_fits, is_empty-append}
use fluxrig.Splitter.Stream.{IsFraming, frames, concat, scan_chunks-frames}

abbrev frame2 : Bytes → Bytes
frame2 p = (length p / 2 ^ 8 % 256) ∷ (length p % 256) ∷ p

abbrev frame4 : Bytes → Bytes
frame4 p =
    (length p / 2 ^ 24 % 256)
    ∷ (length p / 2 ^ 16 % 256)
    ∷ (length p / 2 ^ 8 % 256)
    ∷ (length p % 256)
    ∷ p

abbrev Fits2 : Bytes → Type 0
Fits2 p = length p ≤ 65535

abbrev Fits4 : Bytes → Type 0
Fits4 p = length p ≤ max_message

split_length-frame2 : IsFraming (split_length 2) frame2 Fits2
unfolding split_length read_length
split_length-frame2 = record {
  token =
      λ p rest at_eof v. ground (arith, length-append p rest, take-append p rest (length p) refl);
  waits = waits;
  nothing = λ at_eof. ground arith;
  size = λ p v. (suc (length p), refl);
}
  where
    waits :
        (p buffer : Bytes) (x : ℕ) (missing : Bytes)
        → Fits2 p
        → frame2 p ≡ buffer ++ (x ∷ missing)
        → split_length 2 buffer false ≡ wait
    waits p [] x missing v h = refl
    waits p (a ∷ []) x missing v h = refl
    waits p (a ∷ b ∷ buffer) x missing v h =
        let ha : length p / 2 ^ 8 % 256 ≡ a = cc in
        let hb : length p % 256 ≡ b = cc in
        let ht : p ≡ buffer ++ (x ∷ missing) = cc in
        ground (arith, ha, hb, ap length ht, length-append buffer (x ∷ missing))

split_length-frame4 : IsFraming (split_length 4) frame4 Fits4
unfolding split_length read_length
split_length-frame4 = record {
  token =
      λ p rest at_eof v. ground (arith, length-append p rest, take-append p rest (length p) refl);
  waits = waits;
  nothing = λ at_eof. ground arith;
  size = λ p v. (suc (suc (suc (length p))), refl);
}
  where
    waits :
        (p buffer : Bytes) (x : ℕ) (missing : Bytes)
        → Fits4 p
        → frame4 p ≡ buffer ++ (x ∷ missing)
        → split_length 4 buffer false ≡ wait
    waits p [] x missing v h = refl
    waits p (a ∷ []) x missing v h = refl
    waits p (a ∷ b ∷ []) x missing v h = refl
    waits p (a ∷ b ∷ c ∷ []) x missing v h = refl
    waits p (a ∷ b ∷ c ∷ d ∷ buffer) x missing v h =
        let ha : length p / 2 ^ 24 % 256 ≡ a = cc in
        let hb : length p / 2 ^ 16 % 256 ≡ b = cc in
        let hc : length p / 2 ^ 8 % 256 ≡ c = cc in
        let hd : length p % 256 ≡ d = cc in
        let ht : p ≡ buffer ++ (x ∷ missing) = cc in
        ground (arith, ha, hb, hc, hd, ap length ht, length-append buffer (x ∷ missing))

-- Every message framed and written in turn, or the error of the first that does not fit.
abbrev pub outbound : Bytes → List Bytes → Option Bytes
outbound framing [] = some []
outbound framing (m ∷ ms) = elim (frame_outbound framing m) [
  | none ↦ none
  | some b ↦ elim (outbound framing ms) [ none ↦ none | some bs ↦ some (b ++ bs) ]
]

outbound-frames2 :
    (ms : List Bytes) (stream : Bytes)
    → outbound length_prefix2 ms ≡ some stream
    → All Fits2 ms × (stream ≡ frames (split_length 2) frame2 Fits2 split_length-frame2 ms)
unfolding frame_outbound
outbound-frames2 [] stream h = (tt, cc)
outbound-frames2 (m ∷ ms) stream h = elim (Option-cases (outbound length_prefix2 ms)) [
  | inl e ↦ absurd (ground arith)
  | inr (bs, e) ↦ ground (arith, outbound-frames2 ms bs e)
]

outbound-frames4 :
    (ms : List Bytes) (stream : Bytes)
    → outbound length_prefix4 ms ≡ some stream
    → stream ≡ frames (split_length 4) frame4 Fits4 split_length-frame4 ms
unfolding frame_outbound
outbound-frames4 [] stream h = cc
outbound-frames4 (m ∷ ms) stream h = elim (Option-cases (outbound length_prefix4 ms)) [
  | inl e ↦ absurd (ground arith)
  | inr (bs, e) ↦ ground (arith, outbound-frames4 ms bs e)
]

splitter2 : (cfg : Config) → cfg.framing ≡ length_prefix2 → make_splitter cfg ≡ split_length 2
unfolding make_splitter equal
splitter2 cfg h = fun_ext (λ b. fun_ext (λ e. rw (h, make_splitter) refl))

splitter4 : (cfg : Config) → cfg.framing ≡ length_prefix4 → make_splitter cfg ≡ split_length 4
unfolding make_splitter equal
splitter4 cfg h = fun_ext (λ b. fun_ext (λ e. rw (h, make_splitter) refl))

-- With either length prefix, what one end frames and writes the other end receives, message by
-- message, however the network cuts the bytes; a message of more than 1 MiB is the exception.
pub received-outbound :
    (cfg : Config) (ms cs : List Bytes) (stream : Bytes)
    → (cfg.framing ≡ length_prefix2) ⊎ (cfg.framing ≡ length_prefix4)
    → All Fits4 ms
    → outbound cfg.framing ms ≡ some stream
    → concat cs ≡ stream
    → scan_chunks (make_splitter cfg) [] cs ≡ ms
received-outbound cfg ms cs stream (inl f) v h e =
    let (v2, s) = outbound-frames2 ms stream (rw f at h) in
    rw (splitter2 cfg f)
      (scan_chunks-frames (split_length 2) frame2 Fits2 split_length-frame2 cs ms v2 (e ∙ s))
received-outbound cfg ms cs stream (inr f) v h e =
    let s = outbound-frames4 ms stream (rw f at h) in
    rw (splitter4 cfg f)
      (scan_chunks-frames (split_length 4) frame4 Fits4 split_length-frame4 cs ms v (e ∙ s))

-- The other end of the bound: a 4-byte prefix frames a message of more than 1 MiB, and the receiving
-- end refuses the frame.
pub oversized_refused :
    (cfg : Config) (m rest : Bytes) (at_eof : Bool)
    → cfg.framing ≡ length_prefix4
    → max_message < length m
    → length m < 2 ^ 32
    → (b : Bytes) × (frame_outbound cfg.framing m ≡ some b)
      × (make_splitter cfg (b ++ rest) at_eof ≡ failed 0)
unfolding frame_outbound equal
oversized_refused cfg m rest at_eof f big small =
    (frame4 m, rw f refl, rw (splitter4 cfg f) (unfold split_length read_length in ground arith))

-- A message in which the delimiter does not show before its own end.
abbrev pub IsDelimited : Bytes → Bytes → Type 0
IsDelimited delimiter m = index (m ++ delimiter) delimiter ≡ some (length m)

suffix_framing :
    (cfg : Config)
    → cfg.delimiter_include ≡ false
    → cfg.delimiter ≢ []
    → IsFraming
        (λ b e. if e && is_empty b then wait else split_suffix cfg b e)
        (λ m. m ++ cfg.delimiter)
        (IsDelimited cfg.delimiter)
unfolding split_suffix return_token
suffix_framing cfg ex ne = record {
  token = token;
  waits = waits;
  nothing = nothing;
  size = λ p v.
      (length (p ++ cfg.delimiter) - 1, omega (arith, length-append p cfg.delimiter, positive));
}
  where
    positive : 0 < length cfg.delimiter
    positive = elim (List-cases cfg.delimiter) [
      | inl e ↦ absurd (ne e)
      | inr (x, xs, e) ↦ rw e (omega arith)
    ]

    f : Bytes → Bool → Split
    f b e = if e && is_empty b then wait else split_suffix cfg b e

    token :
        (p rest : Bytes) (at_eof : Bool)
        → IsDelimited cfg.delimiter p
        → f ((p ++ cfg.delimiter) ++ rest) at_eof ≡ split (length (p ++ cfg.delimiter)) (some p)
    token p rest at_eof v =
        let d = cfg.delimiter in
        ground (
          arith,
          ex,
          positive,
          length-append p d,
          is_empty-append (p ++ d) rest,
          index-append (p ++ d) d rest (length p) v,
          take-append (p ++ d) rest (length p + length d),
          take-append p d (length (p ++ d) - length d),
        )

    nothing : (at_eof : Bool) → f [] at_eof ≡ wait
    nothing at_eof = elim (Option-cases (index [] cfg.delimiter)) [
      | inl e ↦ ground arith
      | inr (i, e) ↦ absurd (omega (arith, index_fits [] cfg.delimiter i e, positive))
    ]

    waits :
        (p buffer : Bytes) (x : ℕ) (missing : Bytes)
        → IsDelimited cfg.delimiter p
        → p ++ cfg.delimiter ≡ buffer ++ (x ∷ missing)
        → f buffer false ≡ wait
    waits p buffer x missing v h = elim (Option-cases (index buffer cfg.delimiter)) [
      | inl e ↦ ground arith
      | inr (i, e) ↦
          let found : index (p ++ cfg.delimiter) cfg.delimiter ≡ some i =
            rw h (index-append buffer cfg.delimiter (x ∷ missing) i e) in
          let same : length p ≡ i = cc in
          absurd (
            omega (
              arith,
              same,
              index_fits buffer cfg.delimiter i e,
              ap length h,
              length-append p cfg.delimiter,
              length-append buffer (x ∷ missing),
            ))
    ]

splitter_suffix :
    (cfg : Config)
    → cfg.framing ≡ codes "delimiter"
    → cfg.delimiter ≢ []
    → cfg.delimiter_position ≢ codes "prefix"
    → make_splitter cfg ≡ (λ b e. if e && is_empty b then wait else split_suffix cfg b e)
unfolding make_splitter equal
splitter_suffix cfg f ne np = elim (List-cases cfg.delimiter) [
  | inl e ↦ absurd (ne e)
  | inr (x, xs, e) ↦ fun_ext (λ b.
      fun_ext (λ eof. ground (arith, f, e, equal_iff cfg.delimiter_position (codes "prefix"))))
]

-- With a delimiter behind each message, cut off on arrival, messages in which it does not show are
-- received one by one, however the network cuts the bytes.
pub received-delimited :
    (cfg : Config) (ms cs : List Bytes)
    → cfg.framing ≡ codes "delimiter"
    → cfg.delimiter ≢ []
    → cfg.delimiter_position ≢ codes "prefix"
    → cfg.delimiter_include ≡ false
    → All (IsDelimited cfg.delimiter) ms
    → concat cs ≡ concat (map (λ m. m ++ cfg.delimiter) ms)
    → scan_chunks (make_splitter cfg) [] cs ≡ ms
received-delimited cfg ms cs f ne np ex v e =
    rw (splitter_suffix cfg f ne np)
      (scan_chunks-frames _ _ _ (suffix_framing cfg ex ne) cs ms v (e ∙ joined ms))
  where
    joined :
        (ms : List Bytes)
        → concat (map (λ m. m ++ cfg.delimiter) ms)
          ≡ frames _
              (λ m. m ++ cfg.delimiter)
              (IsDelimited cfg.delimiter)
              (suffix_framing cfg ex ne)
              ms
    joined [] = refl
    joined (m ∷ ms) = ap (λ r. (m ++ cfg.delimiter) ++ r) (joined ms)
