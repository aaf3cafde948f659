-- ===== src/Tests/Stream.antt =====
-- Messages framed, cut by the network and received.
use fluxrig.Prelude.{
  ℕ, ◌≡◌, refl, true, false, List, [], ◌∷◌, ◌++◌, some, inl, arith, Bytes, codes, equal, replicate,
  length-replicate, index,
}
use fluxrig.Splitter.{
  Config, split, failed, make_splitter, frame_outbound, scan_chunks, length_prefix2, length_prefix4,
  split_length, read_length,
}
use fluxrig.Splitter.Stable.{make_splitter_stable}
use fluxrig.Splitter.Stream.{concat}
use fluxrig.Splitter.Frames.{received-outbound, oversized_refused, received-delimited}

abbrev prefixed : Config
prefixed = record {
  framing = length_prefix2;
  delimiter = [];
  delimiter_position = [];
  delimiter_include = false;
}

abbrev prefixed4 : Config
prefixed4 = record prefixed { framing = length_prefix4 }

abbrev delimited : Config
delimited = record {
  framing = codes "delimiter";
  delimiter = codes "||";
  delimiter_position = [];
  delimiter_include = false;
}

-- "hi" and "all" behind their lengths, cut inside a header and inside a message.
abbrev pieces : List Bytes
pieces = (0 ∷ []) ∷ (2 ∷ b'h' ∷ b'i' ∷ 0 ∷ 3 ∷ b'a' ∷ []) ∷ codes "ll" ∷ []

received-outbound_example :
    scan_chunks (make_splitter prefixed) [] pieces ≡ codes "hi" ∷ codes "all" ∷ []
unfolding frame_outbound equal
received-outbound_example =
    received-outbound prefixed (codes "hi" ∷ codes "all" ∷ []) pieces (concat pieces) (inl refl)
      (omega arith, (omega arith, tt)) refl refl

make_splitter_stable_example :
    make_splitter prefixed ((0 ∷ 1 ∷ 7 ∷ []) ++ (0 ∷ 9 ∷ [])) true ≡ split 3 (some (7 ∷ []))
unfolding make_splitter equal split_length read_length
make_splitter_stable_example =
    make_splitter_stable (0 ∷ 1 ∷ 7 ∷ []) (0 ∷ 9 ∷ []) true prefixed 3 (7 ∷ []) refl

received-delimited_run :
    scan_chunks (make_splitter delimited) [] (codes "hi|" ∷ codes "|a|l" ∷ codes "||" ∷ [])
    ≡ codes "hi" ∷ codes "a|l" ∷ []
unfolding index
received-delimited_run =
    received-delimited delimited (codes "hi" ∷ codes "a|l" ∷ [])
      (codes "hi|" ∷ codes "|a|l" ∷ codes "||" ∷ []) refl (λ e. cc e) (λ e. cc e) refl
      (refl, (refl, tt)) refl

abbrev too_big : Bytes
too_big = replicate 1048577 0

oversized_refused_run :
    (b : Bytes) × (frame_outbound prefixed4.framing too_big ≡ some b)
    × (make_splitter prefixed4 (b ++ (7 ∷ [])) false ≡ failed 0)
oversized_refused_run =
    oversized_refused prefixed4 too_big (7 ∷ []) false refl
      (omega (arith, length-replicate {A = ℕ} 1048577 0))
      (omega (arith, length-replicate {A = ℕ} 1048577 0))
