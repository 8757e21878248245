-- ===== src/Parse.antt =====
-- py/ast.h, py/parse.h, py/heap.c, and the helper functions of py/parse.c. The functions of the parser
-- are in `Parse.Expr` and `Parse.Stmt`.
pub mod Expr
pub mod Stmt
pub mod Moves
pub mod Exprs
pub mod Stmts
pub mod Total
use zeros_i.Base.{
  ℕ, zero, suc, ◌+◌, ◌*◌, ◌/◌, ◌%◌, Bool, true, false, Option, none, some, List, [], ◌∷◌, ltb, leb,
  ◌==◌, ◌||◌, if◌then◌else◌, get_or, length, take, drop, ◌-◌, ◌&&◌,
}
use zeros_i.Memory.{word}
use zeros_i.Lex.{
  Lexer, Token, TokenKind, eof, newline, indent, dedent, name, number, string, plus, minus, star,
  slash, percent, eq, eqeq, ne, lt, gt, le, ge, lparen, rparen, colon, comma, and_, or_, not_, if_,
  elif, else_, while, for, in_, def, return, import, pass, true_, false_, none_, lbrack, rbrack,
  error,
}

-- `MpNode`, with the fields that the parser sets for its kind; `next` links a list of nodes. The
-- heap that the nodes and strings lie in is never given back, so they are values here.
mutual
  pub data Node : Type 0 where
    int : ℕ → Node
    str nd_name : List ℕ → Node
    bool : Bool → Node
    nd_none nd_pass : Node
    unary : TokenKind → Node → Node
    binop nd_compare : TokenKind → Node → Node → Node
    call : Node → Nodes → Node
    assign index : Node → Node → Node
    expr_stmt : Node → Node
    nd_if : Node → Node → OptNode → Node
    nd_while : Node → Node → Node
    nd_for : List ℕ → Node → Node → Node
    func : List ℕ → Nodes → Node → Node
    nd_return : OptNode → Node
    nd_list block nd_module : Nodes → Node
    nd_import : List ℕ → Node

  pub data Nodes : Type 0 where
    last : Nodes
    then_node : Node → Nodes → Nodes

  -- A pointer that may be null.
  pub data OptNode : Type 0 where
    absent : OptNode
    present : Node → OptNode

-- The messages of the parser.
pub data ParseError : Type 0 where
  memory_error expected_rbrack expected_lparen expected_rparen expected_expression : ParseError
  expected_colon expected_indent expected_dedent : ParseError
  expected_for_name expected_in expected_function_name expected_param : ParseError
  expected_module_name : ParseError

-- `MpParser` without its `lx`, which does not change and is a parameter of the functions; an empty
-- `err` is `none`. `heap_off` is the global of py/heap.c.
pub record Parser : Type 0 where
  pub pos : ℕ
  pub err : Option ParseError
  pub heap_off : ℕ

-- What a call returns: a node (or another value), or a null pointer. `out_of_fuel` has no counterpart
-- in the source.
pub data Parse (A : Type 0) : Type 0 where
  got : A → Parser → Parse A
  null : Parser → Parse A
  out_of_fuel : Parse A

abbrev pub Step : Type 0 → Type 0
Step A = Parser → Parse A

abbrev pub then_do : {A B : Type 0} → Parse A → (A → Step B) → Parse B
then_do (got a p) f = f a p
then_do (null p) f = null p
then_do out_of_fuel f = out_of_fuel

infixl 1 ◌>>=◌ ◌>>◌
abbrev pub ◌>>=◌ : {A B : Type 0} → Step A → (A → Step B) → Step B
(m >>= f) p = then_do (m p) f

abbrev pub ◌>>◌ : {A B : Type 0} → Step A → Step B → Step B
m >> m' = m >>= λ _. m'

abbrev pub pure : {A : Type 0} → A → Step A
pure a p = got a p

abbrev pub heap_size : ℕ
heap_size = 64 * 1024

-- `(size + 7u) & ~7u`
abbrev pub align8 : ℕ → ℕ
align8 size = (size + 7) % word / 8 * 8

-- The bytes are zeroed or written at once by the callers.
unfoldable pub mp_alloc : ℕ → Step (Unit {0})
mp_alloc size p =
    if ltb heap_size ((p.heap_off + align8 size) % word)
    then null p
    else got tt (record p { heap_off = (p.heap_off + align8 size) % word })

-- Eleven fields of 4 bytes.
abbrev pub node_size : ℕ
node_size = 44

abbrev pub or_error : ParseError → Parse (Unit {0}) → Parse (Unit {0})
or_error e (null p) = null (record p { err = some e })
or_error e r = r

-- The node itself is made by the callers, from its fields.
unfoldable pub node_new : Step (Unit {0})
node_new p = or_error memory_error (mp_alloc node_size p)

-- The enum's numbers.
abbrev pub token_code : TokenKind → ℕ
token_code eof = 0
token_code newline = 1
token_code indent = 2
token_code dedent = 3
token_code name = 4
token_code number = 5
token_code string = 6
token_code plus = 7
token_code minus = 8
token_code star = 9
token_code slash = 10
token_code percent = 11
token_code eq = 12
token_code eqeq = 13
token_code ne = 14
token_code lt = 15
token_code gt = 16
token_code le = 17
token_code ge = 18
token_code lparen = 19
token_code rparen = 20
token_code colon = 21
token_code comma = 22
token_code and_ = 23
token_code or_ = 24
token_code not_ = 25
token_code if_ = 26
token_code elif = 27
token_code else_ = 28
token_code while = 29
token_code for = 30
token_code in_ = 31
token_code def = 32
token_code return = 33
token_code import = 34
token_code pass = 35
token_code true_ = 36
token_code false_ = 37
token_code none_ = 38
token_code lbrack = 39
token_code rbrack = 40
token_code error = 41

abbrev pub no_token : Token
no_token = record { kind = eof; start = 0; len = 0; value = 0; line = 0; col = 0 }

-- What a backslash in front of the character stands for.
abbrev escaped : ℕ → ℕ
escaped e = if e == b'n' then 10 else if e == b't' then 9 else if e == b'r' then 13 else e

-- The loop of `copy_string_lit`.
unfoldable pub unescape : List ℕ → List ℕ
unescape [] = []
unescape (c ∷ []) = c ∷ []
unescape (c ∷ (e ∷ s)) = elim (c == 92) [
  | true ↦ escaped e ∷ unescape s
  | false ↦ c ∷ unescape (e ∷ s)
]

module _ (lx : Lexer) where
  -- `cur`; the tokens are not empty.
  unfoldable pub cur : Parser → Token
  cur p =
      get_or lx.tokens (if leb (length lx.tokens) p.pos then length lx.tokens - 1 else p.pos)
        no_token

  unfoldable pub check : Parser → TokenKind → Bool
  check p k = token_code (cur p).kind == token_code k

  abbrev pub past : Parser → Parser
  past p = record p { pos = p.pos + 1 }

  -- `if (match(p, k)) … else …`
  unfoldable pub match_else : {A : Type 0} → TokenKind → Step A → Step A → Step A
  match_else k hit other p = if check p k then hit (past p) else other p

  -- `match(p, k);`
  unfoldable pub try_match : TokenKind → Step (Unit {0})
  try_match k p = got tt (if check p k then past p else p)

  unfoldable pub expect : TokenKind → ParseError → Step (Unit {0})
  expect k e p = if check p k then got tt (past p) else null (record p { err = some e })

  -- The bytes of a token.
  abbrev pub slice : Token → List ℕ
  slice t = take t.len (drop t.start lx.src)

  -- A failure leaves `err` as it is.
  unfoldable pub copy_slice : Token → Step (List ℕ)
  copy_slice t = mp_alloc (t.len + 1) >> pure (slice t)

  unfoldable pub copy_string_lit : Token → Step (List ℕ)
  copy_string_lit t = mp_alloc (t.len + 1) >> pure (unescape (slice t))
