-- ===== src/Tests/Parsing.antt =====
-- Runs of py/parse.c.
use zeros_i.Base.{ℕ, ◌≡◌, refl, Bool, true, false, none, List, [], ◌∷◌}
use zeros_i.Lex.{
  advance, push_tok, keyword, keyword_in, skip, pop_indents, set_indent, emit_indent, Lexer, Token,
  TokenKind, eof, name, number, plus, star, colon, eq, while,
}
use zeros_i.Lex.Scan.{
  LexResult, lexed, mp_lex, lex_loop, lex_round, lex_rest, lex_char, lex_word, lex_number,
  lex_operator, close_blocks,
}
use zeros_i.Lex.Total.{LexSpec, mp_lex-Spec}
use zeros_i.Parse.{
  Node, nd_name, int, binop, assign, nd_module, last, then_node, Parse, got, mp_alloc, node_new,
  cur, check, match_else, try_match, expect, copy_slice,
}
use zeros_i.Parse.Expr.{
  parse_expr, parse_or, parse_and, parse_compare, parse_arith, parse_term, parse_operators,
  parse_unary, parse_primary, parse_indices, parse_atom, parse_number, parse_name,
}
use zeros_i.Parse.Stmt.{
  mp_parse, parse_module, module_loop, keep_stmt, parse_stmt, some_stmt, stmt_kinds, parse_simple,
  parse_assign, skip_newlines, parse_while, parse_suite, parse_one,
}
use zeros_i.Parse.Total.{ParseSpec, mp_parse-mp_lex}

-- "x = 1"
abbrev source : List ℕ
source = b'x' ∷ 32 ∷ b'=' ∷ 32 ∷ b'1' ∷ []

is_lexed : LexResult → Bool
is_lexed (lexed lx) = true
is_lexed r = false

source_lexes : is_lexed (mp_lex source) ≡ true
unfolding is_lexed mp_lex lex_loop lex_round lex_rest lex_char lex_word lex_number lex_operator
    close_blocks advance push_tok keyword keyword_in skip pop_indents set_indent emit_indent
source_lexes = refl

mp_lex-Spec_example : LexSpec source (mp_lex source)
mp_lex-Spec_example = mp_lex-Spec source

mp_parse-mp_lex_example : ParseSpec 0 (mp_lex source)
mp_parse-mp_lex_example = mp_parse-mp_lex source 0

abbrev token : TokenKind → ℕ → ℕ → Token
token kind start value = record {
  kind = kind;
  start = start;
  len = 1;
  value = value;
  line = 1;
  col = 1;
}

abbrev table : List ℕ → List Token → Lexer
table src tokens = record {
  src = src;
  pos = 0;
  rest = [];
  line = 1;
  col = 1;
  at_line_start = false;
  indents = 0 ∷ [];
  pending_dedents = 0;
  tokens = tokens;
  fault = none;
}

abbrev nodes_of : Parse Node → List Node
nodes_of (got n p) = n ∷ []
nodes_of _ = []

-- "x=1+2*y"
abbrev sum : Lexer
sum = table (b'x' ∷ b'=' ∷ b'1' ∷ b'+' ∷ b'2' ∷ b'*' ∷ b'y' ∷ []) (
    token name 0 0
    ∷ token eq 1 0
    ∷ token number 2 1
    ∷ token plus 3 0
    ∷ token number 4 2
    ∷ token star 5 0
    ∷ token name 6 0
    ∷ token eof 7 0
    ∷ [])

product_first :
    nodes_of (mp_parse sum 0)
    ≡ nd_module (
        then_node
          (assign
            (nd_name (b'x' ∷ []))
            (binop plus (int 1) (binop star (int 2) (nd_name (b'y' ∷ [])))))
          last)
      ∷ []
unfolding mp_parse parse_module module_loop keep_stmt parse_stmt some_stmt stmt_kinds parse_simple
    parse_assign skip_newlines parse_expr parse_or parse_and parse_compare parse_arith parse_term
    parse_operators parse_unary parse_primary parse_indices parse_atom parse_number parse_name
    mp_alloc node_new cur check match_else try_match copy_slice
product_first = refl

-- "while x:" at the end of the input: the loop is dropped, and an empty module comes back.
abbrev cut_off : Lexer
cut_off =
    table (b'w' ∷ b'x' ∷ b':' ∷ [])
      (token while 0 0 ∷ token name 1 0 ∷ token colon 2 0 ∷ token eof 3 0 ∷ [])

cut_off_lem : nodes_of (mp_parse cut_off 0) ≡ nd_module last ∷ []
unfolding mp_parse parse_module module_loop keep_stmt parse_stmt some_stmt stmt_kinds parse_while
    parse_suite parse_one skip_newlines parse_expr parse_or parse_and parse_compare parse_arith
    parse_term parse_operators parse_unary parse_primary parse_indices parse_atom parse_name
    mp_alloc node_new cur check match_else expect copy_slice
cut_off_lem = refl
