-- ===== src/Splitter/Stable.antt =====
-- A token does not depend on what has not arrived yet.
use fluxrig.Prelude.{
  ℕ, zero, suc, ◌+◌, ◌≤◌, ◌<◌, ◌≡◌, refl, ap, Bool, true, false, ◌&&◌, [], ◌∷◌, ◌++◌, some, arith,
  Bytes, has_prefix, index, length, length-append, drop, take-append_le, drop-append_le,
  length-drop, get_or, ◌==◌, Bool-cases, Option-cases, inl, inr, ◌⊎◌, ◌≢◌,
}
use fluxrig.Splitter.{
  Config, split, is_empty, scan_lines, split_prefix, split_suffix, read_length, split_length,
  make_splitter,
}

has_prefix-append : (s p t : Bytes) → has_prefix s p ≡ true → has_prefix (s ++ t) p ≡ true
unfolding has_prefix
has_prefix-append [] [] [] h = refl
has_prefix-append [] [] (x ∷ t) h = refl
has_prefix-append (c ∷ s) [] t h = refl
has_prefix-append [] (p ∷ ps) t h = cc
has_prefix-append (c ∷ s) (p ∷ ps) t h = ground (arith, has_prefix-append s ps t)

has_prefix-length : (s p : Bytes) → has_prefix s p ≡ true → length p ≤ length s
unfolding has_prefix
has_prefix-length [] [] h = omega arith
has_prefix-length (c ∷ s) [] h = omega arith
has_prefix-length [] (p ∷ ps) h = cc
has_prefix-length (c ∷ s) (p ∷ ps) h = ground (arith, has_prefix-length s ps)

-- A prefix that does not fit yet may fit later, but not where all its bytes have arrived.
has_prefix-append_iff :
    (s p t : Bytes) → length p ≤ length s → has_prefix (s ++ t) p ≡ has_prefix s p
unfolding has_prefix
has_prefix-append_iff [] [] [] h = refl
has_prefix-append_iff [] [] (x ∷ t) h = refl
has_prefix-append_iff (c ∷ s) [] t h = refl
has_prefix-append_iff [] (p ∷ ps) t h = absurd (omega arith)
has_prefix-append_iff (c ∷ s) (p ∷ ps) t h =
    ap (λ r. c == p && r) (has_prefix-append_iff s ps t (omega arith))

pub index_fits : (s p : Bytes) (i : ℕ) → index s p ≡ some i → i + length p ≤ length s
unfolding index
index_fits [] p i h = ground (arith, has_prefix-length [] p)
index_fits (c ∷ s) p i h = elim (Option-cases (index s p)) [
  | inl n ↦ ground (arith, has_prefix-length (c ∷ s) p)
  | inr (j, e) ↦ ground (arith, has_prefix-length (c ∷ s) p, index_fits s p j e)
]

-- The first place of a pattern stays where it is when bytes are added behind.
pub index-append : (s p t : Bytes) (i : ℕ) → index s p ≡ some i → index (s ++ t) p ≡ some i
unfolding index
index-append [] [] [] i h = h
index-append [] [] (x ∷ t) i h = h
index-append [] (p ∷ ps) t i h = cc
index-append (c ∷ s) p t i h = elim (Bool-cases (has_prefix (c ∷ s) p)) [
  | inl here ↦ ground (arith, has_prefix-append (c ∷ s) p t here)
  | inr later ↦ elim (Option-cases (index s p)) [
    | inl n ↦ ground arith
    | inr (j, e) ↦
        ground
          (arith, index_fits s p j e, has_prefix-append_iff (c ∷ s) p t, index-append s p t j e)
  ]
]

pub is_empty-append : (xs ys : Bytes) → 0 < length xs → is_empty (xs ++ ys) ≡ false
is_empty-append [] ys h = absurd (omega arith)
is_empty-append (x ∷ xs) ys h = refl

get_or-append : (xs ys : Bytes) (i : ℕ) → i < length xs → get_or (xs ++ ys) i 0 ≡ get_or xs i 0
get_or-append [] ys i h = absurd (omega arith)
get_or-append (x ∷ xs) ys zero h = refl
get_or-append (x ∷ xs) ys (suc i) h = get_or-append xs ys i (omega arith)

pub read_length-append :
    (k : ℕ) (xs ys : Bytes)
    → (k ≡ 2) ⊎ (k ≡ 4)
    → k ≤ length xs
    → read_length k (xs ++ ys) ≡ read_length k xs
unfolding read_length
read_length-append k xs ys kk h = ground (
  arith,
  get_or-append xs ys 0,
  get_or-append xs ys 1,
  get_or-append xs ys 2,
  get_or-append xs ys 3,
)

module _ (bytes more : Bytes) (at_eof : Bool) where
  scan_lines_stable :
      (n : ℕ) (token : Bytes)
      → scan_lines bytes false ≡ split n (some token)
      → scan_lines (bytes ++ more) at_eof ≡ split n (some token)
  unfolding scan_lines
  scan_lines_stable n token h = elim (Option-cases (index bytes (b'\n' ∷ []))) [
    | inl e ↦ ground arith
    | inr (i, e) ↦ ground (
      arith,
      index-append bytes (b'\n' ∷ []) more i e,
      index_fits bytes (b'\n' ∷ []) i e,
      take-append_le i bytes more,
      is_empty-append bytes more,
    )
  ]

  split_suffix_stable :
      (cfg : Config) (n : ℕ) (token : Bytes)
      → split_suffix cfg bytes false ≡ split n (some token)
      → split_suffix cfg (bytes ++ more) at_eof ≡ split n (some token)
  unfolding split_suffix
  split_suffix_stable cfg n token h = elim (Option-cases (index bytes cfg.delimiter)) [
    | inl e ↦ ground arith
    | inr (i, e) ↦ ground (
      arith,
      index-append bytes cfg.delimiter more i e,
      index_fits bytes cfg.delimiter i e,
      take-append_le (i + length cfg.delimiter) bytes more,
    )
  ]

  split_prefix_stable :
      (cfg : Config) (n : ℕ) (token : Bytes)
      → split_prefix cfg bytes false ≡ split n (some token)
      → split_prefix cfg (bytes ++ more) at_eof ≡ split n (some token)
  unfolding split_prefix
  split_prefix_stable cfg n token h = elim (Option-cases (index bytes cfg.delimiter)) [
    | inl e ↦ ground arith
    | inr (suc i, e) ↦ ground arith
    | inr (zero, e) ↦
        let k = length cfg.delimiter in
        elim (Option-cases (index (drop k bytes) cfg.delimiter)) [
          | inl e' ↦ ground arith
          | inr (j, e') ↦
              let fits = index_fits (drop k bytes) cfg.delimiter j e' in
              let long : k + j ≤ length bytes = omega (arith, length-drop k bytes) in
              ground (
                arith,
                index-append bytes cfg.delimiter more 0 e,
                drop-append_le k bytes more (omega arith),
                index-append (drop k bytes) cfg.delimiter more j e',
                take-append_le (k + j) bytes more long,
              )
        ]
  ]

  split_length_stable :
      (k : ℕ) (n : ℕ) (token : Bytes)
      → (k ≡ 2) ⊎ (k ≡ 4)
      → split_length k bytes false ≡ split n (some token)
      → split_length k (bytes ++ more) at_eof ≡ split n (some token)
  unfolding split_length
  split_length_stable k n token kk h = ground (
    arith,
    read_length-append k bytes more kk,
    is_empty-append bytes more,
    length-append bytes more,
    drop-append_le k bytes more,
    length-drop k bytes,
    take-append_le (read_length k bytes) (drop k bytes) more,
  )

is_empty→length : (xs : Bytes) → is_empty xs ≡ false → 0 < length xs
is_empty→length [] h = cc
is_empty→length (x ∷ xs) h = omega arith

-- No delimiter stands in no bytes.
nothing-no_token :
    (cfg : Config) (n : ℕ) (token : Bytes)
    → is_empty cfg.delimiter ≡ false
    → (split_suffix cfg [] false ≢ split n (some token))
      × (split_prefix cfg [] false ≢ split n (some token))
unfolding split_suffix split_prefix
nothing-no_token cfg n token h = elim (Option-cases (index [] cfg.delimiter)) [
  | inl e ↦ (ground arith, ground arith)
  | inr (i, e) ↦
      absurd (omega (arith, index_fits [] cfg.delimiter i e, is_empty→length cfg.delimiter h))
]

-- A token that a split function of `MakeSplitter` returns before the end of the stream is what it
-- returns however much more has arrived, at the end or not: so the messages do not depend on how
-- the network cuts the stream.
pub make_splitter_stable :
    (bytes more : Bytes) (at_eof : Bool) (cfg : Config) (n : ℕ) (token : Bytes)
    → make_splitter cfg bytes false ≡ split n (some token)
    → make_splitter cfg (bytes ++ more) at_eof ≡ split n (some token)
unfolding make_splitter
make_splitter_stable [] more at_eof cfg n token h = ground (
  arith,
  nothing-no_token cfg n token,
  scan_lines_stable [] more at_eof n token,
  split_length_stable [] more at_eof 2 n token (inl refl),
  split_length_stable [] more at_eof 4 n token (inr refl),
)
make_splitter_stable (b ∷ bs) more at_eof cfg n token h = ground (
  arith,
  scan_lines_stable (b ∷ bs) more at_eof n token,
  split_suffix_stable (b ∷ bs) more at_eof cfg n token,
  split_prefix_stable (b ∷ bs) more at_eof cfg n token,
  split_length_stable (b ∷ bs) more at_eof 2 n token (inl refl),
  split_length_stable (b ∷ bs) more at_eof 4 n token (inr refl),
)
