-- ===== src/Lex.antt =====
-- py/lex.h and py/lex.c: the tokens of minipy, the lexer's state and its helper functions.
-- `Lex.Scan` is the loop of `mp_lex`; the proofs are in the modules below.
pub mod Scan
pub mod Valid
pub mod Indent
pub mod Steps
pub mod Strings
pub mod Rounds
pub mod Total
use zeros_i.Base.{
  ℕ, zero, suc, ◌+◌, ◌-◌, ◌*◌, ◌%◌, ◌^◌, Bool, true, false, ◌&&◌, ◌||◌, Option, none, some, List,
  [], ◌∷◌, ◌++◌, ltb, leb, ◌==◌, if◌then◌else◌, get_or, length,
}

pub data TokenKind : Type 0 where
  eof newline indent dedent name number string plus minus star slash percent : TokenKind
  eq eqeq ne lt gt le ge lparen rparen colon comma and_ or_ not_ if_ elif else_ : TokenKind
  while for in_ def return import pass true_ false_ none_ lbrack rbrack error : TokenKind

-- `start` is the offset of the pointer in the source.
pub record Token : Type 0 where
  pub kind : TokenKind
  pub start : ℕ
  pub len : ℕ
  pub value : ℕ
  pub line : ℕ
  pub col : ℕ

pub data LexError : Type 0 where
  too_many_tokens tabs too_deep inconsistent unterminated invalid : LexError

-- `rest` is the source from `pos` on, its end standing for the NUL; `indents` is
-- `indent_stack[0..indent_top]`, the top first; the number of tokens is their list's length.
pub record Lexer : Type 0 where
  pub src : List ℕ
  pub pos : ℕ
  pub rest : List ℕ
  pub line : ℕ
  pub col : ℕ
  pub at_line_start : Bool
  pub indents : List ℕ
  pub pending_dedents : ℕ
  pub tokens : List Token
  pub fault : Option LexError

abbrev pub max_tokens : ℕ
max_tokens = 256

abbrev pub newline_char : ℕ
newline_char = 10

abbrev pub tab_char : ℕ
tab_char = 9

abbrev pub is_alpha : ℕ → Bool
is_alpha c = leb b'a' c && leb c b'z' || (leb b'A' c && leb c b'Z') || (c == b'_')

abbrev pub is_digit : ℕ → Bool
is_digit c = leb b'0' c && leb c b'9'

abbrev pub is_alnum : ℕ → Bool
is_alnum c = is_alpha c || is_digit c

abbrev pub peek : Lexer → ℕ
peek lx = get_or lx.rest 0 0

-- `advance` over the character `c` in front of `cs`.
unfoldable pub advance : ℕ → List ℕ → Lexer → Lexer
advance c cs lx =
    if c == newline_char
    then record lx { rest = cs; pos = lx.pos + 1; line = lx.line + 1; col = 1 }
    else record lx { rest = cs; pos = lx.pos + 1; col = lx.col + 1 }

-- What a function that may fail leaves behind: its status and the state.
unfoldable pub push_tok : TokenKind → ℕ → ℕ → ℕ → Lexer → Bool × Lexer
push_tok kind start len value lx =
    if leb max_tokens (length lx.tokens)
    then (false, record lx { fault = some too_many_tokens })
    else (
      true,
      record lx {
        tokens =
            lx.tokens
            ++ ((record {
              kind = kind;
              start = start;
              len = len;
              value = value;
              line = lx.line;
              col = lx.col;
            })
                ∷ []);
      },
    )

abbrev pub matches : List ℕ → List ℕ → Bool
matches [] [] = true
matches [] (c ∷ s) = false
matches (c ∷ s) [] = false
matches (c ∷ s) (d ∷ t) = (c == d) && matches s t

-- The keywords, in the order of the tests.
abbrev pub keywords : List (List ℕ × TokenKind)
keywords =
    (b'i' ∷ b'f' ∷ [], if_)
    ∷ (b'i' ∷ b'n' ∷ [], in_)
    ∷ (b'a' ∷ b'n' ∷ b'd' ∷ [], and_)
    ∷ (b'o' ∷ b'r' ∷ [], or_)
    ∷ (b'n' ∷ b'o' ∷ b't' ∷ [], not_)
    ∷ (b'd' ∷ b'e' ∷ b'f' ∷ [], def)
    ∷ (b'f' ∷ b'o' ∷ b'r' ∷ [], for)
    ∷ (b'e' ∷ b'l' ∷ b'i' ∷ b'f' ∷ [], elif)
    ∷ (b'e' ∷ b'l' ∷ b's' ∷ b'e' ∷ [], else_)
    ∷ (b'T' ∷ b'r' ∷ b'u' ∷ b'e' ∷ [], true_)
    ∷ (b'N' ∷ b'o' ∷ b'n' ∷ b'e' ∷ [], none_)
    ∷ (b'p' ∷ b'a' ∷ b's' ∷ b's' ∷ [], pass)
    ∷ (b'F' ∷ b'a' ∷ b'l' ∷ b's' ∷ b'e' ∷ [], false_)
    ∷ (b'w' ∷ b'h' ∷ b'i' ∷ b'l' ∷ b'e' ∷ [], while)
    ∷ (b'r' ∷ b'e' ∷ b't' ∷ b'u' ∷ b'r' ∷ b'n' ∷ [], return)
    ∷ (b'i' ∷ b'm' ∷ b'p' ∷ b'o' ∷ b'r' ∷ b't' ∷ [], import)
    ∷ []

unfoldable pub keyword_in : List (List ℕ × TokenKind) → List ℕ → TokenKind
keyword_in [] s = name
keyword_in ((k, kind) ∷ rest) s = if matches k s then kind else keyword_in rest s

-- The kind of the word that a name's characters spell.
unfoldable pub keyword : List ℕ → TokenKind
keyword s = keyword_in keywords s

-- `while (p(peek(lx))) advance(lx);` over what is left.
unfoldable pub skip : (ℕ → Bool) → List ℕ → Lexer → Lexer
skip p [] lx = lx
skip p (c ∷ cs) lx = let further = skip p cs (advance c cs lx) in if p c then further else lx

abbrev pub top : Lexer → ℕ
top lx = get_or lx.indents 0 0

-- The `while` of `emit_indent`, by the entries of the stack.
unfoldable pub pop_indents : ℕ → List ℕ → Lexer → Bool × Lexer
pop_indents spaces [] lx = (true, lx)
pop_indents spaces (i ∷ []) lx = (true, lx)
pop_indents spaces (i ∷ j ∷ below) lx =
    let (pushed, lx') = push_tok dedent lx.pos 0 0 (record lx { indents = j ∷ below }) in
    let further = pop_indents spaces (j ∷ below) lx' in
    if ltb spaces i then (if pushed then further else (false, lx')) else (true, lx)

-- The line's indentation, `spaces`, against the stack: `emit_indent` after its loop.
unfoldable pub set_indent : ℕ → Lexer → Bool × Lexer
set_indent spaces lx =
    let (popped, lx') = pop_indents spaces lx.indents lx in
    if peek lx == newline_char || (peek lx == b'#') || (peek lx == 0)
    then (true, lx)
    else if peek lx == tab_char
    then (false, record lx { fault = some tabs })
    else if spaces == top lx
    then (true, lx)
    else if ltb (top lx) spaces
    then (if leb 32 (length lx.indents)
        then (false, record lx { fault = some too_deep })
        else push_tok indent lx.pos 0 0 (record lx { indents = spaces ∷ lx.indents }))
    else if popped
    then (if top lx' == spaces
        then (true, lx')
        else (false, record lx' { fault = some inconsistent }))
    else (false, lx')

-- The number of spaces is how far the position moves over them.
unfoldable pub emit_indent : Lexer → Bool × Lexer
emit_indent lx = let lx' = skip (λ c. c == b' ') lx.rest lx in set_indent (lx'.pos - lx.pos) lx'
