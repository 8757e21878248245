-- ===== src/Lex/Scan.antt =====
-- py/lex.c, `mp_lex`: one round of its loop, the loop and the end of the input.
use zeros_i.Base.{
  ℕ, zero, suc, ◌+◌, ◌-◌, ◌*◌, ◌%◌, ◌^◌, Bool, true, false, ◌||◌, not, Option, none, some, List, [],
  ◌∷◌, ltb, ◌==◌, if◌then◌else◌, length, take,
}
use zeros_i.Lex.{
  TokenKind, eof, newline, dedent, number, string, plus, minus, star, slash, percent, eq, eqeq, ne,
  lt, gt, le, ge, lparen, rparen, colon, comma, lbrack, rbrack, Lexer, LexError, unterminated,
  invalid, newline_char, tab_char, is_alpha, is_digit, is_alnum, peek, advance, push_tok, keyword,
  skip, emit_indent,
}

-- How a round of the loop ends: with the next round, out of the loop, or by `return 0`.
pub data Outcome : Type 0 where
  next stop fail : Lexer → Outcome

-- A push whose failure ends `mp_lex`, and one whose result is dropped.
abbrev pub checked : Bool × Lexer → Outcome
checked (true, lx) = next lx
checked (false, lx) = fail lx

abbrev pub unchecked : Bool × Lexer → Outcome
unchecked (pushed, lx) = next lx

abbrev pub failing : LexError → Lexer → Outcome
failing e lx = fail (record lx { fault = some e })

-- The digits, as an `int32_t`'s bit pattern: signed overflow is undefined, and wraps here.
pub digits_value : ℕ → List ℕ → ℕ
digits_value v [] = v
digits_value v (c ∷ s) = digits_value ((v * 10 + (c - b'0')) % 2 ^ 32) s

-- A string's characters up to the quote or the end; `none` where a line ends first.
unfoldable pub scan_string : ℕ → List ℕ → Lexer → Option Lexer
scan_string q [] lx = some lx
scan_string q (c ∷ []) lx =
    if c == q
    then some lx
    else if c == b'\\'
    then some (advance c [] lx)
    else if c == newline_char
    then none
    else some (advance c [] lx)
scan_string q (c ∷ d ∷ cs) lx =
    let escaped = scan_string q cs (advance d cs (advance c (d ∷ cs) lx)) in
    let plain = scan_string q (d ∷ cs) (advance c (d ∷ cs) lx) in
    if c == q
    then some lx
    else if c == b'\\'
    then (if d == newline_char then none else escaped)
    else if c == newline_char
    then none
    else plain

-- The closing quote, and the token between the quotes, which starts at `start`.
unfoldable pub close_string : ℕ → ℕ → List ℕ → Lexer → Outcome
close_string q start [] lx = failing unterminated lx
close_string q start (c ∷ cs) lx =
    if c == q
    then checked (push_tok string start (lx.pos - start) 0 (advance c cs lx))
    else failing unterminated lx

unfoldable pub lex_string : ℕ → List ℕ → Lexer → Outcome
lex_string q cs lx =
    let opened = advance q cs lx in
    elim (scan_string q cs opened) [
      | none ↦ failing unterminated opened
      | some lx' ↦ close_string q opened.pos lx'.rest lx'
    ]

unfoldable pub lex_word : Lexer → Outcome
lex_word lx =
    let lx' = skip is_alnum lx.rest lx in
    let n = lx'.pos - lx.pos in checked (push_tok (keyword (take n lx.rest)) lx.pos n 0 lx')

unfoldable pub lex_number : Lexer → Outcome
lex_number lx =
    let lx' = skip is_digit lx.rest lx in
    let n = lx'.pos - lx.pos in
    checked (push_tok number lx.pos n (digits_value 0 (take n lx.rest)) lx')

-- An operator that an `=` (or, for `/`, a second `/`) may lengthen; its first character is read.
abbrev pub two_chars : ℕ → TokenKind → Option TokenKind → ℕ → List ℕ → Lexer → Outcome
two_chars second long short start [] lx = elim short [
  | none ↦ failing invalid lx
  | some kind ↦ unchecked (push_tok kind start 1 0 lx)
]
two_chars second long short start (c ∷ cs) lx =
    if c == second then unchecked (push_tok long start 2 0 (advance c cs lx)) else elim short [
      | none ↦ failing invalid lx
      | some kind ↦ unchecked (push_tok kind start 1 0 lx)
    ]

-- The operators, with the character `c` read; none of them looks at what `push_tok` returns.
unfoldable pub lex_operator : ℕ → ℕ → Lexer → Outcome
lex_operator c start lx =
    if c == b'+'
    then unchecked (push_tok plus start 1 0 lx)
    else if c == b'-'
    then unchecked (push_tok minus start 1 0 lx)
    else if c == b'*'
    then unchecked (push_tok star start 1 0 lx)
    else if c == b'/'
    then two_chars b'/' slash (some slash) start lx.rest lx
    else if c == b'%'
    then unchecked (push_tok percent start 1 0 lx)
    else if c == b'('
    then unchecked (push_tok lparen start 1 0 lx)
    else if c == b')'
    then unchecked (push_tok rparen start 1 0 lx)
    else if c == b'['
    then unchecked (push_tok lbrack start 1 0 lx)
    else if c == b']'
    then unchecked (push_tok rbrack start 1 0 lx)
    else if c == b':'
    then unchecked (push_tok colon start 1 0 lx)
    else if c == b','
    then unchecked (push_tok comma start 1 0 lx)
    else if c == b'='
    then two_chars b'=' eqeq (some eq) start lx.rest lx
    else if c == b'!'
    then two_chars b'=' ne none start lx.rest lx
    else if c == b'<'
    then two_chars b'=' le (some lt) start lx.rest lx
    else if c == b'>'
    then two_chars b'=' ge (some gt) start lx.rest lx
    else failing invalid lx

-- A round from the character `c`, in front of `cs`, on.
unfoldable pub lex_char : ℕ → List ℕ → Lexer → Outcome
lex_char c cs lx =
    let read = advance c cs lx in
    if c == b' ' || (c == tab_char) || (c == 13)
    then next read
    else if c == b'#'
    then next (skip (λ d. not (d == newline_char)) lx.rest lx)
    else if c == newline_char
    then (let (pushed, lx') = push_tok newline (read.pos - 1) 1 0 read in
        if pushed then next (record lx' { at_line_start = true }) else fail lx')
    else if is_alpha c
    then lex_word lx
    else if is_digit c
    then lex_number lx
    else if c == b'"' || (c == b'\'')
    then lex_string c cs lx
    else lex_operator c lx.pos read

-- A round once the line's indentation is settled. At the end of the input only a line's start
-- leaves the loop; the loop's own test keeps other rounds from it.
unfoldable pub lex_rest : List ℕ → Lexer → Outcome
lex_rest [] lx = stop lx
lex_rest (c ∷ cs) lx = lex_char c cs lx

abbrev pub after_indent : Bool × Lexer → Outcome
after_indent (true, lx) = lex_rest lx.rest lx
after_indent (false, lx) = fail lx

unfoldable pub lex_round : Lexer → Outcome
lex_round lx =
    if ltb 0 lx.pending_dedents
    then checked
        (push_tok dedent lx.pos 0 0 (record lx { pending_dedents = lx.pending_dedents - 1 }))
    else if lx.at_line_start
    then after_indent (emit_indent (record lx { at_line_start = false }))
    else lex_rest lx.rest lx

-- `while (peek(lx) || lx->pending_dedents)`
abbrev pub goes_on : Lexer → Bool
goes_on lx = not (peek lx == 0) || ltb 0 lx.pending_dedents

pub data LexResult : Type 0 where
  lexed failed : Lexer → LexResult
  out_of_fuel : LexResult

-- The `while` loop; `lexed` is its regular end.
unfoldable pub lex_loop : ℕ → Lexer → LexResult
lex_loop zero lx = out_of_fuel
lex_loop (suc fuel) lx = elim (goes_on lx) [
  | false ↦ lexed lx
  | true ↦ elim (lex_round lx) [
    | next lx' ↦ lex_loop fuel lx'
    | stop lx' ↦ lexed lx'
    | fail lx' ↦ failed lx'
  ]
]

-- The dedents that are still open at the end, and the last token.
unfoldable pub close_blocks : List ℕ → Lexer → LexResult
close_blocks [] lx = failed lx
close_blocks (i ∷ []) lx =
    let (pushed, lx') = push_tok eof lx.pos 0 0 lx in if pushed then lexed lx' else failed lx'
close_blocks (i ∷ j ∷ below) lx =
    let (pushed, lx') = push_tok dedent lx.pos 0 0 (record lx { indents = j ∷ below }) in
    let further = close_blocks (j ∷ below) lx' in if pushed then further else failed lx'

abbrev pub finish : LexResult → LexResult
finish (lexed lx) = close_blocks lx.indents lx
finish (failed lx) = failed lx
finish out_of_fuel = out_of_fuel

abbrev pub start_lexer : List ℕ → Lexer
start_lexer src = record {
  src = src;
  pos = 0;
  rest = src;
  line = 1;
  col = 1;
  at_line_start = true;
  indents = 0 ∷ [];
  pending_dedents = 0;
  tokens = [];
  fault = none;
}

-- One round for each character, and one more, are enough.
unfoldable pub mp_lex : List ℕ → LexResult
mp_lex src = finish (lex_loop (length src + 1) (start_lexer src))
