-- ===== src/Wasm/Sections.antt =====
-- Files made of sections: what the scan does at each section, and the round trips.
use fluxrig.Prelude.{
  ℕ, zero, suc, ◌+◌, ◌-◌, ◌%◌, ◌^◌, ◌≤◌, ◌<◌, ◌≡◌, ◌≢◌, refl, ap, ◌∙◌, Bool, true, false, ◌⊎◌, List,
  [], ◌∷◌, ◌++◌, append_assoc, append-nil, none, some, arith, Bytes, equal, length, length-append,
  take, drop, get_elem?, take-append, drop-append, ltb, if◌then◌else◌, Bool-cases, inl, inr, All,
}
use fluxrig.Wasm.{
  put_uvarint, uvarint, Extract, found, section_not_found, negative, le_int, match_custom,
  match_name, scan,
}
use fluxrig.Wasm.Varint.{uvarint-put_uvarint}

pub data Section : Type 0 where
  custom : Bytes → Bytes → Section
  plain : ℕ → Bytes → Section

abbrev pub section_id : Section → ℕ
section_id (custom name content) = 0
section_id (plain id body) = id

abbrev pub body_of : Section → Bytes
body_of (custom name content) = put_uvarint (length name) ++ (name ++ content)
body_of (plain id body) = body

-- As the Wasm format has it: the id, the size, the body.
abbrev pub encode : Section → Bytes
encode s = section_id s ∷ (put_uvarint (length (body_of s)) ++ body_of s)

abbrev pub encodes : List Section → Bytes
encodes [] = []
encodes (s ∷ ss) = encode s ++ encodes ss

-- Only a custom section has id 0.
abbrev pub IsSection : Section → Type 0
IsSection (custom name content) = Unit
IsSection (plain id body) = id ≢ 0

abbrev pub is_named : Bytes → Section → Bool
is_named target (custom name content) = equal name target
is_named target (plain id body) = false

drop_at : (w a b : Bytes) (k : ℕ) → w ≡ a ++ b → k ≡ length a → drop k w ≡ b
drop_at w a b k e h = rw e (drop-append a b k h)

take_at : (w a b : Bytes) (k : ℕ) → w ≡ a ++ b → k ≡ length a → take k w ≡ a
take_at w a b k e h = rw e (take-append a b k h)

get_elem?-append : (a : Bytes) (x : ℕ) (b : Bytes) → get_elem? (a ++ (x ∷ b)) (length a) ≡ some x
get_elem?-append [] x b = refl
get_elem?-append (y ∷ a) x b = get_elem?-append a x b

match_custom-some :
    (w target : Bytes) (section_start start offset : ℕ) {name_len n : ℕ}
    → uvarint (drop start w) ≡ some (name_len, n)
    → match_custom w target section_start start offset
      ≡ match_name w target section_start (start + n) ((start + n + name_len) % 2 ^ 64) offset
unfolding match_custom
match_custom-some w target section_start start offset e = rw (e, match_custom) refl

-- The body of a custom section that ends inside the file.
module _ (target pre u name content rest : Bytes) where
  abbrev size_of : ℕ
  size_of = length (put_uvarint (length name))

  abbrev whole : Bytes
  whole = pre ++ (u ++ (put_uvarint (length name) ++ (name ++ (content ++ rest))))

  match_custom-custom :
      length whole < 2 ^ 63
      → (let start = length pre + length u in
          match_custom whole target
            (length pre)
            start
            (start + size_of + length name + length content)
          ≡ (if equal name target then some (found content (pre ++ rest)) else none))
  unfolding match_name
  match_custom-custom small =
      let v = put_uvarint (length name) in
      let start = length pre + length u in
      let name_start = start + length v in
      let name_end = name_start + length name in
      let offset = name_end + length content in
      let fits : offset < 2 ^ 63 = omega (arith, long) in
      let e1 : drop start whole ≡ v ++ (name ++ (content ++ rest)) =
        drop_at whole (pre ++ u) _ start (simp append_assoc) (omega (arith, length-append pre u)) in
      let e2 = uvarint-put_uvarint (length name) (name ++ (content ++ rest)) (omega arith) in
      let e3 : name_end % 2 ^ 64 ≡ name_end = omega arith in
      let t1 : le_int name_end offset ≡ true = ground arith in
      let t2 : negative name_end ≡ false = ground arith in
      let t3 : ltb name_end name_start ≡ false = ground arith in
      let e4 : drop name_start whole ≡ name ++ (content ++ rest) =
        drop_at whole (pre ++ (u ++ v)) _ name_start (simp append_assoc)
          (omega (arith, length-append pre (u ++ v), length-append u v)) in
      let e5 : take (name_end - name_start) (name ++ (content ++ rest)) ≡ name =
        take-append name _ _ (omega arith) in
      let e6 : drop name_end whole ≡ content ++ rest =
        drop_at whole (pre ++ (u ++ (v ++ name))) _ name_end (simp append_assoc) (
          omega (
            arith,
            length-append pre (u ++ (v ++ name)),
            length-append u (v ++ name),
            length-append v name,
          )) in
      let e7 : take (offset - name_end) (content ++ rest) ≡ content =
        take-append content _ _ (omega arith) in
      let e8 : take (length pre) whole ≡ pre = take-append pre _ _ refl in
      let e9 : drop offset whole ≡ rest =
        drop_at whole (pre ++ (u ++ (v ++ (name ++ content)))) _ offset (simp append_assoc) (
          omega (
            arith,
            length-append pre (u ++ (v ++ (name ++ content))),
            length-append u (v ++ (name ++ content)),
            length-append v (name ++ content),
            length-append name content,
          )) in
      match_custom-some whole target (length pre) start offset {name_len = length name}
        {n = length v} (rw e1 e2)
      ∙ rw (e3, t1, t2, t3, e4, e5, e6, e7, e8, e9) refl
    where
      long :
          length whole
          ≡ length pre + (length u + (size_of + (length name + (length content + length rest))))
      long = simp length-append

-- The same at other spellings of the file and of the two ends.
match_custom_at :
    (target pre u name content rest w : Bytes) (start offset : ℕ)
    → w ≡ whole target pre u name content rest
    → start ≡ length pre + length u
    → offset
      ≡ length pre
        + length u
        + size_of target pre u name content rest
        + length name
        + length content
    → length w < 2 ^ 63
    → match_custom w target (length pre) start offset
      ≡ (if equal name target then some (found content (pre ++ rest)) else none)
match_custom_at target pre u name content rest w start offset e1 e2 e3 small =
    rw (e1, e2, e3) (match_custom-custom target pre u name content rest (rw e1 at small))

-- One round of the loop at a section that ends inside the file.
scan_plain :
    (fuel : ℕ) (w target : Bytes) (offset : ℕ) {id size n : ℕ}
    → offset < 2 ^ 63
    → get_elem? w offset ≡ some id
    → id ≢ 0
    → uvarint (drop (offset + 1) w) ≡ some (size, n)
    → offset + 1 + n + size ≤ length w
    → length w < 2 ^ 63
    → scan (suc fuel) w target offset ≡ scan fuel w target (offset + 1 + n + size)
unfolding scan
scan_plain fuel w target offset {id} {size} {n} small e ne u fits len =
    let next : (offset + 1 + n + size) % 2 ^ 64 ≡ offset + 1 + n + size = omega arith in
    ground (arith, next)

scan_custom :
    (fuel : ℕ) (w target : Bytes) (offset : ℕ) {size n : ℕ}
    → offset < 2 ^ 63
    → get_elem? w offset ≡ some 0
    → uvarint (drop (offset + 1) w) ≡ some (size, n)
    → offset + 1 + n + size ≤ length w
    → length w < 2 ^ 63
    → scan (suc fuel) w target offset
      ≡ elim (match_custom w target offset (offset + 1 + n) (offset + 1 + n + size))
          as (λ _. Extract) [ some r ↦ r | none ↦ scan fuel w target (offset + 1 + n + size) ]
unfolding scan
scan_custom fuel w target offset {size} {n} small e u fits len =
    let next : (offset + 1 + n + size) % 2 ^ 64 ≡ offset + 1 + n + size = omega arith in
    ground (arith, next)

abbrev pub content_of : Section → Bytes
content_of (custom name content) = content
content_of (plain id body) = []

-- The varint of a size, behind the id of a section.
size_read :
    (pre rest : Bytes) (s : Section)
    → length (pre ++ (encode s ++ rest)) < 2 ^ 63
    → uvarint (drop (length pre + 1) (pre ++ (encode s ++ rest)))
      ≡ some (length (body_of s), length (put_uvarint (length (body_of s))))
size_read pre rest s small =
    let id = section_id s in
    let u = put_uvarint (length (body_of s)) in
    let at : drop (length pre + 1) (pre ++ (encode s ++ rest)) ≡ u ++ (body_of s ++ rest) =
      drop_at (pre ++ (encode s ++ rest)) (pre ++ (id ∷ [])) _ (length pre + 1) (simp append_assoc)
        (omega (arith, length-append pre (id ∷ []))) in
    rw at (
      uvarint-put_uvarint (length (body_of s)) (body_of s ++ rest) (
        omega (
          arith,
          length-append pre (encode s ++ rest),
          length-append (encode s) rest,
          length-append u (body_of s),
        )))

section_end :
    (pre : Bytes) (s : Section)
    → length pre + 1 + length (put_uvarint (length (body_of s))) + length (body_of s)
      ≡ length (pre ++ encode s)
section_end pre s = omega (
  arith,
  length-append pre (encode s),
  length-append (put_uvarint (length (body_of s))) (body_of s),
)

-- The scan at a whole section: it answers there, or goes on behind it.
scan_section :
    (fuel : ℕ) (s : Section) (pre rest target : Bytes)
    → IsSection s
    → length (pre ++ (encode s ++ rest)) < 2 ^ 63
    → scan (suc fuel) (pre ++ (encode s ++ rest)) target (length pre) ≡ (
        if is_named target s
        then found (content_of s) (pre ++ rest)
        else scan fuel (pre ++ (encode s ++ rest)) target (length (pre ++ encode s)))
scan_section fuel (plain id body) pre rest target v small =
    scan_plain fuel (pre ++ (encode (plain id body) ++ rest)) target (length pre)
      (omega (arith, length-append pre (encode (plain id body) ++ rest)))
      (get_elem?-append pre id _) v (size_read pre rest (plain id body) small)
      (omega (
        arith,
        section_end pre (plain id body),
        length-append pre (encode (plain id body)),
        length-append pre (encode (plain id body) ++ rest),
        length-append (encode (plain id body)) rest,
      ))
      small
    ∙ ap (scan fuel (pre ++ (encode (plain id body) ++ rest)) target)
        (section_end pre (plain id body))
scan_section fuel (custom name content) pre rest target v small =
    scan_custom fuel (pre ++ (encode (custom name content) ++ rest)) target (length pre)
      (omega (arith, length-append pre (encode (custom name content) ++ rest)))
      (get_elem?-append pre 0 _) (size_read pre rest (custom name content) small)
      (omega (
        arith,
        section_end pre (custom name content),
        length-append pre (encode (custom name content)),
        length-append pre (encode (custom name content) ++ rest),
        length-append (encode (custom name content)) rest,
      ))
      small
    ∙ found_or_next (Bool-cases (equal name target))
  where
    s : Section
    s = custom name content

    u : Bytes
    u = put_uvarint (length (body_of s))

    start : ℕ
    start = length pre + 1 + length u

    w : Bytes
    w = pre ++ (encode s ++ rest)

    m :
        match_custom w target (length pre) start (start + length (body_of s))
        ≡ (if equal name target then some (found content (pre ++ rest)) else none)
    m =
        match_custom_at target pre (0 ∷ u) name content rest w start _ (simp append_assoc)
          (omega arith)
          (omega (
            arith,
            length-append (put_uvarint (length name)) (name ++ content),
            length-append name content,
          ))
          small

    found_or_next :
        (equal name target ≡ true) ⊎ (equal name target ≡ false)
        → (elim (match_custom w target (length pre) start (start + length (body_of s)))
            as (λ _. Extract) [
              | some r ↦ r
              | none ↦ scan fuel w target (start + length (body_of s))
            ])
          ≡ (if equal name target
              then found content (pre ++ rest)
              else scan fuel w target (length (pre ++ encode s)))
    found_or_next (inl e) = rw (m, e) refl
    found_or_next (inr e) = rw (m, e) (ap (scan fuel w target) (section_end pre s))

-- The first custom section of that name is the answer, and the file loses just that section. With
-- none, the scan ends at the end of the file.
abbrev pub expected : Bytes → Bytes → List Section → Extract
expected target pre [] = section_not_found
expected target pre (s ∷ ss) =
    let later = expected target (pre ++ encode s) ss in
    if is_named target s then found (content_of s) (pre ++ encodes ss) else later

get_elem?_end : (a : Bytes) → get_elem? a (length a) ≡ none
get_elem?_end [] = refl
get_elem?_end (x ∷ a) = get_elem?_end a

scan_end :
    (fuel : ℕ) (w target : Bytes)
    → length w < 2 ^ 63
    → scan (suc fuel) w target (length w) ≡ section_not_found
unfolding scan
scan_end fuel w target small = ground (arith, get_elem?_end w)

-- The whole loop, from the start of any list of sections, with a round for each and one more.
pub scan-encodes :
    (ss : List Section) (fuel : ℕ) (pre target : Bytes)
    → All IsSection ss
    → length ss < fuel
    → length (pre ++ encodes ss) < 2 ^ 63
    → scan fuel (pre ++ encodes ss) target (length pre) ≡ expected target pre ss
scan-encodes ss zero pre target v h small = absurd (omega arith)
scan-encodes [] (suc fuel) pre target v h small =
    rw append-nil (scan_end fuel pre target (rw append-nil at small))
scan-encodes (s ∷ ss) (suc fuel) pre target (vs, v) h small =
    let one : (pre ++ encode s) ++ encodes ss ≡ pre ++ (encode s ++ encodes ss) =
      append_assoc pre (encode s) (encodes ss) in
    let ih = scan-encodes ss fuel (pre ++ encode s) target v (omega arith) (rw one small) in
    scan_section fuel s pre (encodes ss) target vs small
    ∙ ap (λ r. if is_named target s then found (content_of s) (pre ++ encodes ss) else r)
        (rw one at ih)
