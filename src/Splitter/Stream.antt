-- ===== src/Splitter/Stream.antt =====
-- Streams of framed messages, for any framing whose split function meets the laws of `IsFraming`:
-- however the stream is cut into chunks, the scanner returns the messages.
use fluxrig.Prelude.{
  ℕ, zero, suc, ◌<◌, ◌≡◌, refl, sym, ap, ◌∙◌, Bool, true, false, List, [], ◌∷◌, ◌++◌, append_assoc,
  append-nil, Option, some, arith, Bytes, length, length-append, drop, drop-append, All,
  All-append_inv, ◌⊎◌, inl, inr,
}
use fluxrig.Splitter.{Split, split, wait, scan_buffer, scan_chunks}

pub record IsFraming (f : Bytes → Bool → Split) (frame : Bytes → Bytes) (Fits : Bytes → Type 0)
    : Type 0 where
  pub token :
      (p rest : Bytes) (at_eof : Bool)
      → Fits p
      → f (frame p ++ rest) at_eof ≡ split (length (frame p)) (some p)
  pub waits :
      (p buffer : Bytes) (x : ℕ) (missing : Bytes)
      → Fits p
      → frame p ≡ buffer ++ (x ∷ missing)
      → f buffer false ≡ wait
  pub nothing : (at_eof : Bool) → f [] at_eof ≡ wait
  pub size : (p : Bytes) → Fits p → (n : ℕ) × (length (frame p) ≡ suc n)

abbrev pub concat : List Bytes → Bytes
concat [] = []
concat (b ∷ bs) = b ++ concat bs

-- Of two ways to cut one list, the first cut reaches the second, or stops before it.
two_cuts :
    (a b c d : Bytes)
    → a ++ b ≡ c ++ d
    → ((e : Bytes) × (a ≡ c ++ e) × (e ++ b ≡ d)) ⊎ ((x : ℕ) × (l : Bytes) × (c ≡ a ++ (x ∷ l)))
two_cuts [] b [] d h = inl ([], refl, h)
two_cuts [] b (y ∷ c) d h = inr (y, c, refl)
two_cuts (x ∷ a) b [] d h = inl (x ∷ a, refl, h)
two_cuts (x ∷ a) b (y ∷ c) d h =
    let same_head : x ≡ y = cc in
    let tails : a ++ b ≡ c ++ d = cc in
    elim (two_cuts a b c d tails) [
      | inl (e, p, q) ↦ inl (e, cc, q)
      | inr (z, l, p) ↦ inr (z, l, cc)
    ]

module _ (f : Bytes → Bool → Split) (frame : Bytes → Bytes) (Fits : Bytes → Type 0)
    (k : IsFraming f frame Fits) where
  abbrev pub frames : List Bytes → Bytes
  frames [] = []
  frames (m ∷ ms) = frame m ++ frames ms

  scan_token :
      (fuel : ℕ) (m rest : Bytes) (at_eof : Bool)
      → Fits m
      → scan_buffer f (suc fuel) (frame m ++ rest) at_eof
        ≡ (let r = scan_buffer f fuel rest at_eof in (m ∷ r.0, r.1))
  unfolding scan_buffer
  scan_token fuel m rest at_eof v =
      let (n, e) = k.size m v in
      let t : f (frame m ++ rest) at_eof ≡ split (suc n) (some m) =
        rw (← e) (k.token m rest at_eof v) in
      let d : drop (suc n) (frame m ++ rest) ≡ rest = drop-append (frame m) rest (suc n) (sym e) in
      ground (arith, t, d)

  scan_wait :
      (fuel : ℕ) (buffer : Bytes) (at_eof : Bool)
      → f buffer at_eof ≡ wait
      → scan_buffer f (suc fuel) buffer at_eof ≡ ([], some buffer)
  unfolding scan_buffer
  scan_wait fuel buffer at_eof h = rw (h, scan_buffer) refl

  scan_end :
      (ms : List Bytes) (fuel : ℕ)
      → All Fits ms
      → length (frames ms) < fuel
      → scan_buffer f fuel (frames ms) true ≡ (ms, some [])
  scan_end ms zero v h = absurd (omega arith)
  scan_end [] (suc fuel) v h = scan_wait fuel [] true (k.nothing true)
  scan_end (m ∷ ms) (suc fuel) (vm, v) h =
      let (n, e) = k.size m vm in
      let ih = scan_end ms fuel v (omega (arith, length-append (frame m) (frames ms))) in
      scan_token fuel m (frames ms) true vm ∙ rw ih refl

  -- What one read leaves: the messages whose frames have arrived, and the bytes of the others.
  record Read (ms : List Bytes) (later : Bytes) (r : List Bytes × Option Bytes) : Type 0 where
    back : List Bytes
    rest : Bytes
    cut : ms ≡ r.0 ++ back
    bytes : rest ++ later ≡ frames back
    kept : r.1 ≡ some rest

  scan_part :
      (ms : List Bytes) (fuel : ℕ) (buffer later : Bytes)
      → All Fits ms
      → buffer ++ later ≡ frames ms
      → length buffer < fuel
      → Read ms later (scan_buffer f fuel buffer false)
  scan_part ms zero buffer later v h l = absurd (omega arith)
  scan_part [] (suc fuel) [] later v h l =
      rw (scan_wait fuel [] false (k.nothing false))
        (record { back = []; rest = []; cut = refl; bytes = h; kept = refl })
  scan_part [] (suc fuel) (b ∷ buffer) later v h l = absurd cc
  scan_part (m ∷ ms) (suc fuel) buffer later (vm, v) h l =
      elim (two_cuts buffer later (frame m) (frames ms) h) [
        | inl (e, p, q) ↦
            let (n, s) = k.size m vm in
            let ih =
              scan_part ms fuel e later v q
                (omega (arith, ap length p, length-append (frame m) e)) in
            rw (p, scan_token fuel m e false vm)
              (record {
                back = ih.back;
                rest = ih.rest;
                cut = ap (◌∷◌ m) ih.cut;
                bytes = ih.bytes;
                kept = ih.kept;
              })
        | inr (x, missing, p) ↦
            rw (scan_wait fuel buffer false (k.waits m buffer x missing vm p))
              (record { back = m ∷ ms; rest = buffer; cut = refl; bytes = h; kept = refl })
      ]

  scan_chunks-frames_from :
      (cs ms : List Bytes) (buffer : Bytes)
      → All Fits ms
      → buffer ++ concat cs ≡ frames ms
      → scan_chunks f buffer cs ≡ ms
  unfolding scan_chunks
  scan_chunks-frames_from [] ms buffer v h =
      let e : buffer ≡ frames ms = sym (append-nil buffer) ∙ h in
      rw e (ap (λ r. r.0) (scan_end ms (suc (length (frames ms))) v (omega arith)))
  scan_chunks-frames_from (c ∷ cs) ms buffer v h =
      let r =
        scan_part ms (suc (length (buffer ++ c))) (buffer ++ c) (concat cs) v
          (append_assoc buffer c (concat cs) ∙ h) (omega arith) in
      let first = (scan_buffer f (suc (length (buffer ++ c))) (buffer ++ c) false).0 in
      let later = (All-append_inv Fits first r.back (rw r.cut at v)).1 in
      let ih = scan_chunks-frames_from cs r.back r.rest later r.bytes in
      ground (arith, r.kept, r.cut, ih)

  -- From an empty buffer.
  pub scan_chunks-frames :
      (cs ms : List Bytes) → All Fits ms → concat cs ≡ frames ms → scan_chunks f [] cs ≡ ms
  scan_chunks-frames cs ms v h = scan_chunks-frames_from cs ms [] v h
