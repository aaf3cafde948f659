-- ===== src/When/Lexer.antt =====
-- The scanner of when.go: `next`, and the characters and texts that it tells apart. An error is its
-- position in the source; the first one stays.
use fluxrig.Prelude.{
  ℕ, suc, ◌+◌, Bool, true, false, ◌&&◌, ◌||◌, List, [], ◌∷◌, Option, none, some, Bytes, codes,
  length, ◌==◌, if◌then◌else◌,
}
use fluxrig.Frame.Bitmap.{within}
use fluxrig.When.{FieldRef}

pub data Kind : Type 0 where
  eof ident string number op and_op or_op not_op left right : Kind

pub record Token : Type 0 where
  pub kind : Kind
  pub text : Bytes
  pub pos : ℕ

-- The source is held as what is left of it, behind `pos`.
pub record Parser : Type 0 where
  pub rest : Bytes
  pub pos : ℕ
  pub tok : Token
  pub refs : List FieldRef
  pub err : Option ℕ

abbrev pub is_space : ℕ → Bool
is_space c = c == b' ' || (c == 9 || c == 10)

abbrev pub is_digit : ℕ → Bool
is_digit c = within b'0' c b'9'

-- `isPathRune`.
abbrev pub is_path_char : ℕ → Bool
is_path_char c =
    c == b'_' || (c == b'.' || (within b'a' c b'z' || (within b'A' c b'Z' || is_digit c)))

abbrev pub all_digits : Bytes → Bool
all_digits [] = true
all_digits (c ∷ s) = is_digit c && all_digits s

-- `isAllDigits`.
abbrev pub is_all_digits : Bytes → Bool
is_all_digits [] = false
is_all_digits (c ∷ s) = all_digits (c ∷ s)

-- The blanks in front, by the number of them, and what is behind.
unfoldable pub skip : Bytes → ℕ × Bytes
skip [] = (0, [])
skip (c ∷ s) = let (n, rest) = skip s in if is_space c then (suc n, rest) else (0, c ∷ s)

-- The longest run of path characters, and what is behind.
unfoldable pub span_path : Bytes → Bytes × Bytes
span_path [] = ([], [])
span_path (c ∷ s) =
    let (run, rest) = span_path s in if is_path_char c then (c ∷ run, rest) else ([], c ∷ s)

-- The text up to the closing quote, with it, and what is behind.
unfoldable pub span_quote : Bytes → Option (Bytes × Bytes)
span_quote [] = none
span_quote (c ∷ s) =
    let later = span_quote s in
    if c == b'\''
    then some (c ∷ [], s)
    else elim later [ none ↦ none | some (run, rest) ↦ some (c ∷ run, rest) ]

-- `fail`: the first error stays.
abbrev pub first_error : Option ℕ → ℕ → Option ℕ
first_error none at = some at
first_error (some e) at = some e

abbrev pub token : Kind → Bytes → ℕ → Token
token kind text pos = record { kind = kind; text = text; pos = pos }

-- A token was read, and what is left behind it.
abbrev pub reads_token : Kind → Bytes → Bytes → ℕ → Parser → Parser
reads_token kind text rest start p = record p {
  rest = rest;
  pos = start + length text;
  tok = token kind text start;
}

abbrev pub fails : Bytes → Bytes → ℕ → Parser → Parser
fails text rest start p = record p {
  rest = rest;
  pos = start + 1;
  tok = token eof text start;
  err = first_error p.err start;
}

abbrev pub starts_with : ℕ → Bytes → Bool
starts_with c [] = false
starts_with c (d ∷ s) = d == c

abbrev pub behind : Bytes → Bytes
behind [] = []
behind (c ∷ s) = s

-- The switch of `next`, at a character that is no blank.
unfoldable pub scan : ℕ → Bytes → ℕ → Parser → Parser
unfolding span_path span_quote
scan c s start p =
    if c == b'('
    then reads_token left (c ∷ []) s start p
    else if c == b')'
    then reads_token right (c ∷ []) s start p
    else if c == b'\''
    then elim (span_quote s) [
      | none ↦ record (fails [] [] start p) { pos = start + 1 + length s }
      | some (run, rest) ↦ reads_token string (c ∷ run) rest start p
    ]
    else if c == b'&' || c == b'|'
    then (if starts_with c s
        then reads_token (if c == b'|' then or_op else and_op) (c ∷ c ∷ []) (behind s) start p
        else fails (c ∷ []) s start p)
    else if c == b'!'
    then (if starts_with b'=' s
        then reads_token op (codes "!=") (behind s) start p
        else reads_token not_op (c ∷ []) s start p)
    else if c == b'=' || (c == b'<' || c == b'>')
    then (if starts_with b'=' s
        then reads_token op (c ∷ b'=' ∷ []) (behind s) start p
        else if c == b'='
        then fails (c ∷ []) s start p
        else reads_token op (c ∷ []) s start p)
    else if is_path_char c
    then (let (run, rest) = span_path s in
        reads_token (if is_all_digits (c ∷ run) then number else ident) (c ∷ run) rest start p)
    else fails (c ∷ []) s start p

unfoldable pub next : Parser → Parser
unfolding skip scan
next p =
    let (blanks, s) = skip p.rest in
    let start = p.pos + blanks in
    elim s [
      | [] ↦ record p { rest = []; pos = start; tok = token eof [] start }
      | c ∷ rest ↦ scan c rest start p
    ]
