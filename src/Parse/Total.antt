-- ===== src/Parse/Total.antt =====
-- `mp_parse` ends on every token table, and what it has then is in its bounds.
use zeros_i.Base.{
  ℕ, zero, suc, ◌+◌, ◌-◌, ◌≤◌, ◌≡◌, refl, ◌||◌, none, List, [], ◌∷◌, arith, get_or, ◌++◌,
  length-append, ap, length, Bool-cases, Option-cases, inl, inr,
}
use zeros_i.Lex.{Lexer, Token, eof, newline, indent, dedent, colon}
use zeros_i.Lex.Scan.{LexResult, lexed, failed, out_of_fuel, mp_lex}
use zeros_i.Lex.Total.{IsLexed, LexSpec, mp_lex-Spec}
use zeros_i.Parse.{
  Node, Nodes, then_node, Parser, Parse, got, null, no_token, Step, ◌>>=◌, ◌>>◌, pure, node_new,
  check, nd_module,
}
use zeros_i.Parse.Expr.{parse_expr}
use zeros_i.Parse.Stmt.{
  parse_indented, parse_one, parse_suite, keep_stmt, block_loop, parse_block, parse_stmt,
  module_loop, parse_module, mp_parse,
}
use zeros_i.Parse.Moves.{
  EndsEof, size, Moves, Good, Good-pure, first_no, first_one, Good-fewer, Good-empty,
  Good-match_else, Good-expect, Good-node_new,
}
use zeros_i.Parse.Exprs.{parse_expr-Good}
use zeros_i.Parse.Stmts.{skip_newlines-Good, node_of-Good, expected, some_stmt-Good, further}

module _ (lx : Lexer) (ends : EndsEof lx) where
  module _ (n : ℕ) (blocks stmt : Step Node) (g : Good lx 0 n blocks) (g' : Good lx 1 n stmt) where
    parse_indented-Good : (k : ℕ) → k ≤ n → Good lx 0 k (parse_indented lx blocks)
    unfolding parse_indented
    parse_indented-Good k le' = expected lx ends k indent _ _ (omega arith) (
        first_no lx 0 k _ _ (Good-fewer lx 0 0 n k blocks (omega arith) le' g)
          λ b. expected lx ends k dedent _ _ (omega arith) (Good-pure lx k b))

    parse_one-Good : (k : ℕ) → k ≤ n → Good lx 0 k (parse_one stmt)
    unfolding parse_one
    parse_one-Good k le' =
        first_no lx 0 k _ _ (Good-fewer lx 1 0 n k stmt (omega arith) le' g')
          λ s. node_of-Good lx ends k node_new _ (Good-node_new lx k)

    parse_suite-Good : Good lx 1 (suc n) (parse_suite lx blocks stmt)
    unfolding parse_suite
    parse_suite-Good =
        first_one lx (suc n) _ _ (Good-expect lx ends (suc n) colon _ (omega arith)) λ u.
          Good-fewer lx 0 0 n (suc n - 1) _ (omega arith) (omega arith) (
            Good-match_else lx ends 0 n newline _ _ (omega arith) (omega arith)
              (parse_indented-Good (n - 1) (omega arith)) (parse_one-Good n (omega arith)))

  keep_stmt-Moves :
      (k : ℕ) (rest : Step Nodes) (p : Parser) (r : Parse Node)
      → size lx ≤ p.pos + k
      → Good lx 0 (k - 1) rest
      → Moves lx 1 p r
      → Moves lx 0 p (keep_stmt rest r)
  unfolding keep_stmt
  keep_stmt-Moves k rest p (got s q) l g h =
      further lx ends p q _ (omega (arith, h.0)) (
        (node_of-Good lx ends (k - 1) rest (λ ss. then_node s ss) g).run q h.1 (omega (arith, h.0)))
  keep_stmt-Moves k rest p (null q) l g h = elim (Option-cases q.err) [
    | inl quiet ↦ rw quiet (omega (arith, h.0), h.1)
    | inr (e, told) ↦ rw told h
  ]
  keep_stmt-Moves k rest p Parse.out_of_fuel l g h = h

  module _ (n : ℕ) (stmt : Step Node) (g : Good lx 1 n stmt) where
    collected :
        (k : ℕ) (rest : Step Nodes)
        → k ≤ n
        → Good lx 0 (k - 1) rest
        → Good lx 0 k (λ p. keep_stmt rest (stmt p))
    collected k rest le' gr = record {
      run = λ p h l.
          keep_stmt-Moves k rest p (stmt p) l gr
            ((Good-fewer lx 1 1 n k stmt (omega arith) le' g).run p h l);
    }

    block_loop-Good : (m k : ℕ) → k ≤ m → k ≤ n → Good lx 0 k (block_loop lx m stmt)
    unfolding block_loop
    block_loop-Good zero k few le' = Good-empty lx 0 k _ few
    block_loop-Good (suc m) k few le' =
        first_no lx 0 k _ _ (skip_newlines-Good lx ends (suc m) k few) λ u. record {
          run = λ p h l. elim (Bool-cases (check lx p dedent || check lx p eof)) [
            | inl stop ↦ rw stop (omega arith, h)
            | inr on ↦ rw on (
                (collected k _ le' (block_loop-Good m (k - 1) (omega arith) (omega arith))).run p h
                  l)
          ];
        }

    module_loop-Good : (m k : ℕ) → k ≤ m → k ≤ n → Good lx 0 k (module_loop lx m stmt)
    unfolding module_loop
    module_loop-Good zero k few le' = Good-empty lx 0 k _ few
    module_loop-Good (suc m) k few le' =
        first_no lx 0 k _ _ (skip_newlines-Good lx ends (suc m) k few) λ u. record {
          run = λ p h l. elim (Bool-cases (check lx p eof)) [
            | inl stop ↦ rw stop (omega arith, h)
            | inr on ↦ rw on (
                (collected k _ le' (module_loop-Good m (k - 1) (omega arith) (omega arith))).run p h
                  l)
          ];
        }

    parse_block-Good : Good lx 0 n (parse_block lx n stmt)
    unfolding parse_block
    parse_block-Good =
        first_no lx 0 n _ _ (Good-node_new lx n)
          λ u. node_of-Good lx ends n _ _ (block_loop-Good n n (omega arith) (omega arith))

    parse_module-Good :
        Good lx 0 n (node_new >> (module_loop lx n stmt >>= λ body. pure (nd_module body)))
    parse_module-Good =
        first_no lx 0 n _ _ (Good-node_new lx n)
          λ u. node_of-Good lx ends n _ _ (module_loop-Good n n (omega arith) (omega arith))

  parse_stmt-Good : (n : ℕ) → Good lx 1 n (parse_stmt lx n)
  unfolding parse_stmt
  parse_stmt-Good zero = Good-empty lx 1 0 _ (omega arith)
  parse_stmt-Good (suc n) =
      let stmt = parse_stmt-Good n in
      first_no lx 1 (suc n) _ _ (skip_newlines-Good lx ends (suc n) (suc n) (omega arith)) λ u.
        some_stmt-Good lx ends (suc n) (parse_expr lx (suc n))
          (parse_suite lx (parse_block lx n (parse_stmt lx n)) (parse_stmt lx n))
          (parse_expr-Good lx ends (suc n))
          (parse_suite-Good n (parse_block lx n (parse_stmt lx n)) (parse_stmt lx n)
            (parse_block-Good n (parse_stmt lx n) stmt) stmt)
          (suc n) (suc n) (omega arith) (omega arith)

  -- With one round for each token the parser ends: it has a module or a null pointer, and its position
  -- is inside the table. So it reads no token past the end marker.
  pub mp_parse-Moves :
      (heap_off : ℕ)
      → Moves lx 0 (record { pos = 0; err = none; heap_off = heap_off }) (mp_parse lx heap_off)
  unfolding mp_parse parse_module
  mp_parse-Moves heap_off =
      (parse_module-Good (length lx.tokens) (parse_stmt lx (length lx.tokens))
          (parse_stmt-Good (length lx.tokens))).run
        _ ends.0 (omega arith)

last_of :
    (before : List Token) (t : Token)
    → get_or (before ++ (t ∷ [])) (length (before ++ (t ∷ [])) - 1) no_token ≡ t
last_of [] t = refl
last_of (s ∷ before) t =
    let e : length (before ++ (t ∷ [])) ≡ suc (length before) =
      omega (arith, length-append before (t ∷ [])) in
    let e' : suc (length (before ++ (t ∷ []))) - 1 ≡ suc (length (before ++ (t ∷ [])) - 1) =
      omega (arith, e) in
    rw e' (last_of before t)

IsLexed-EndsEof : (src : List ℕ) (lx : Lexer) → IsLexed src lx → EndsEof lx
IsLexed-EndsEof src lx h =
    let (before, t, e, is_eof) = h.last in
    (
      omega (arith, ap length e, length-append before (t ∷ [])),
      rw (e, last_of before t, is_eof) refl,
    )

abbrev pub ParseSpec : ℕ → LexResult → Type 0
ParseSpec heap_off (lexed lx) =
    Moves lx 0 (record { pos = 0; err = none; heap_off = heap_off }) (mp_parse lx heap_off)
ParseSpec heap_off (failed lx) = Unit
ParseSpec heap_off out_of_fuel = ⊥

spec_of : (src : List ℕ) (heap_off : ℕ) (r : LexResult) → LexSpec src r → ParseSpec heap_off r
spec_of src heap_off (lexed lx) h = mp_parse-Moves lx (IsLexed-EndsEof src lx h) heap_off
spec_of src heap_off (failed lx) h = tt
spec_of src heap_off out_of_fuel h = h

-- For every source and state of the heap, lexing ends, and where it succeeds parsing ends, too, with
-- a module or a null pointer: one round of each loop and one level of nesting for each token is
-- enough. The parser's position is then inside the token table.
pub mp_parse-mp_lex : (src : List ℕ) (heap_off : ℕ) → ParseSpec heap_off (mp_lex src)
mp_parse-mp_lex src heap_off = spec_of src heap_off (mp_lex src) (mp_lex-Spec src)
