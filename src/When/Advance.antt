-- ===== src/When/Advance.antt =====
-- What `next` does to the parser: it leaves less to read, it keeps the references, and an operator that
-- it reads is one of the six.
use fluxrig.Prelude.{
  ℕ, suc, ◌+◌, ◌≤◌, ◌<◌, ◌≡◌, refl, ap, Bool, true, false, ◌||◌, [], ◌∷◌, none, some, Bytes, codes,
  length, equal, arith, inl, inr, Bool-cases, if_both, Option-cases, List-cases, ◌==◌,
  if◌then◌else◌,
}
use fluxrig.When.Lexer.{
  Kind, eof, ident, string, number, op, and_op, or_op, not_op, left, right, Parser, skip, span_path,
  span_quote, scan, next, is_path_char, starts_with, behind, reads_token, fails, is_all_digits,
}
use fluxrig.When.Parser.{is_kind, at_kind, is_word}

-- What is left: the characters, and the token that was read, if there is one.
abbrev pub measure : Parser → ℕ
measure p = length p.rest + (if at_kind eof p then 0 else 1)

abbrev pub is_operator : Bytes → Bool
is_operator t =
    is_word "==" t
    || (is_word "!=" t || (is_word "<" t || (is_word "<=" t || (is_word ">" t || is_word ">=" t))))

-- A token that is an operator is one of the six.
abbrev pub IsFine : Parser → Type 0
IsFine p = at_kind op p ≡ true → is_operator p.tok.text ≡ true

length-skip : (s : Bytes) → length (skip s).1 ≤ length s
unfolding skip
length-skip [] = omega arith
length-skip (c ∷ s) = ground (arith, length-skip s)

length-span_path : (s : Bytes) → length (span_path s).1 ≤ length s
unfolding span_path
length-span_path [] = omega arith
length-span_path (c ∷ s) = ground (arith, length-span_path s)

length-span_quote :
    (s : Bytes) {run rest : Bytes} → span_quote s ≡ some (run, rest) → length rest ≤ length s
unfolding span_quote
length-span_quote [] h = cc
length-span_quote (c ∷ s) h = elim (Option-cases (span_quote s)) [
  | inl e ↦ ground arith
  | inr ((run, rest), e) ↦ ground (arith, length-span_quote s e)
]

length-behind : (s : Bytes) → length (behind s) ≤ length s
length-behind [] = omega arith
length-behind (c ∷ s) = omega arith

-- What a scan leaves.
record Scanned (n : ℕ) (p q : Parser) : Type 0 where
  within : measure q ≤ n
  kept : q.refs ≡ p.refs
  fine : IsFine q

reads_token-Scanned :
    (n : ℕ) (k : Kind) (text rest : Bytes) (start : ℕ) (p : Parser)
    → length rest + 1 ≤ n
    → (is_kind k op ≡ true → is_operator text ≡ true)
    → Scanned n p (reads_token k text rest start p)
reads_token-Scanned n k text rest start p h o = record {
  within = ground arith;
  kept = refl;
  fine = o;
}

-- An operator of one or two characters.
operator_short :
    (c : ℕ)
    → ((c == b'=') || ((c == b'<') || (c == b'>'))) ≡ true
    → is_operator (c ∷ b'=' ∷ []) ≡ true
unfolding equal
operator_short c h = ground arith

operator_single :
    (c : ℕ)
    → ((c == b'=') || ((c == b'<') || (c == b'>'))) ≡ true
    → (c == b'=') ≡ false
    → is_operator (c ∷ []) ≡ true
unfolding equal
operator_single c h e = ground arith

word-Scanned :
    (c : ℕ) (s : Bytes) (start : ℕ) (p : Parser)
    → Scanned (suc (length s)) p (
        reads_token
          (if is_all_digits (c ∷ (span_path s).0) then number else ident)
          (c ∷ (span_path s).0)
          (span_path s).1
          start
          p)
word-Scanned c s start p = elim (Bool-cases (is_all_digits (c ∷ (span_path s).0))) [
  | inl e ↦ rw e (
      reads_token-Scanned (suc (length s)) number (c ∷ (span_path s).0) (span_path s).1 start p
        (omega (arith, length-span_path s)) (λ h. cc))
  | inr e ↦ rw e (
      reads_token-Scanned (suc (length s)) ident (c ∷ (span_path s).0) (span_path s).1 start p
        (omega (arith, length-span_path s)) (λ h. cc))
]

quote-Scanned :
    (c : ℕ) (s : Bytes) (start : ℕ) (p : Parser)
    → Scanned (suc (length s)) p (elim (span_quote s) [
      | none ↦ record (fails [] [] start p) { pos = start + 1 + length s }
      | some (run, rest) ↦ reads_token string (c ∷ run) rest start p
    ])
quote-Scanned c s start p = elim (Option-cases (span_quote s)) [
  | inl e ↦ rw e (record { within = omega arith; kept = refl; fine = λ h. cc })
  | inr ((run, rest), e) ↦ rw e (
      reads_token-Scanned (suc (length s)) string (c ∷ run) rest start p
        (omega (arith, length-span_quote s e)) (λ h. cc))
]

fails-Scanned :
    (n : ℕ) (text rest : Bytes) (start : ℕ) (p : Parser)
    → length rest ≤ n
    → Scanned n p (fails text rest start p)
fails-Scanned n text rest start p h = record { within = omega arith; kept = refl; fine = λ o. cc }

double-Scanned :
    (c : ℕ) (s : Bytes) (start : ℕ) (p : Parser)
    → Scanned
        (suc (length s))
        p
        (reads_token (if c == b'|' then or_op else and_op) (c ∷ c ∷ []) (behind s) start p)
double-Scanned c s start p = elim (Bool-cases (c == b'|')) [
  | inl e ↦ rw e (
      reads_token-Scanned (suc (length s)) or_op (c ∷ c ∷ []) (behind s) start p
        (omega (arith, length-behind s)) (λ o. cc))
  | inr e ↦ rw e (
      reads_token-Scanned (suc (length s)) and_op (c ∷ c ∷ []) (behind s) start p
        (omega (arith, length-behind s)) (λ o. cc))
]

scan-Scanned :
    (c : ℕ) (s : Bytes) (start : ℕ) (p : Parser) → Scanned (suc (length s)) p (scan c s start p)
unfolding scan
scan-Scanned c s start p =
    let P : Parser → Type 0 = Scanned (suc (length s)) p in
    if_both P (c == b'(')
      (λ h. reads_token-Scanned (suc (length s)) left (c ∷ []) s start p (omega arith) (λ o. cc))
      λ h1.
        if_both P (c == b')')
          (λ h.
            reads_token-Scanned (suc (length s)) right (c ∷ []) s start p (omega arith) (λ o. cc))
          λ h2.
            if_both P (c == b'\'') (λ h. quote-Scanned c s start p)
              λ h3.
                if_both P (c == b'&' || c == b'|')
                  (λ h.
                    if_both P (starts_with c s) (λ b. double-Scanned c s start p)
                      (λ b. fails-Scanned (suc (length s)) (c ∷ []) s start p (omega arith)))
                  λ h4.
                    if_both P (c == b'!')
                      (λ h.
                        if_both P (starts_with b'=' s)
                          (λ b.
                            reads_token-Scanned (suc (length s)) op (codes "!=") (behind s) start p
                              (omega (arith, length-behind s)) (λ o. unfold equal in refl))
                          (λ b.
                            reads_token-Scanned (suc (length s)) not_op (c ∷ []) s start p
                              (omega arith) (λ o. cc)))
                      λ h5.
                        if_both P (c == b'=' || (c == b'<' || c == b'>'))
                          (λ h.
                            if_both P (starts_with b'=' s)
                              (λ b.
                                reads_token-Scanned (suc (length s)) op (c ∷ b'=' ∷ []) (behind s)
                                  start p (omega (arith, length-behind s))
                                  (λ o. operator_short c h))
                              λ b.
                                if_both P (c == b'=')
                                  (λ e.
                                    fails-Scanned (suc (length s)) (c ∷ []) s start p (omega arith))
                                  (λ e.
                                    reads_token-Scanned (suc (length s)) op (c ∷ []) s start p
                                      (omega arith) (λ o. operator_single c h e)))
                          λ h6.
                            if_both P (is_path_char c) (λ h. word-Scanned c s start p)
                              (λ h. fails-Scanned (suc (length s)) (c ∷ []) s start p (omega arith))

next-Scanned : (p : Parser) → Scanned (length p.rest) p (next p)
unfolding next
next-Scanned p = elim (List-cases (skip p.rest).1) [
  | inl e ↦ rw (next, e) (record { within = omega arith; kept = refl; fine = λ o. cc })
  | inr (c, s, e) ↦
      let v = scan-Scanned c s (p.pos + (skip p.rest).0) p in
      rw (next, e)
        (record {
          within = omega (arith, v.within, length-skip p.rest, ap length e);
          kept = v.kept;
          fine = v.fine;
        })
]

-- A token that is not the end is consumed.
pub measure-next : (p : Parser) → at_kind eof p ≡ false → measure (next p) < measure p
measure-next p h = let v = next-Scanned p in ground (arith, v.within)

pub measure-next_le : (p : Parser) → measure (next p) ≤ measure p
measure-next_le p = let v = next-Scanned p in ground (arith, v.within)

pub refs-next : (p : Parser) → (next p).refs ≡ p.refs
refs-next p = (next-Scanned p).kept

pub next-IsFine : (p : Parser) → IsFine (next p)
next-IsFine p = (next-Scanned p).fine

pub measure-le-rounds : (p : Parser) → measure p < suc (suc (length p.rest))
measure-le-rounds p = ground arith
