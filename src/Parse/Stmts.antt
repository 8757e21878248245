-- ===== src/Parse/Stmts.antt =====
-- Statements and blocks: every function ends within its fuel.
use zeros_i.Base.{ℕ, zero, suc, ◌+◌, ◌-◌, ◌≤◌, ◌<◌, not, ◌&&◌, ◌||◌, arith, Bool-cases, inl, inr}
use zeros_i.Lex.{
  Lexer, Token, TokenKind, eof, newline, dedent, name, lparen, rparen, eq, comma, if_, elif, else_,
  while, for, in_, def, return, import, pass,
}
use zeros_i.Parse.{
  Node, nd_name, nd_pass, nd_for, nd_import, present, last, then_node, Parser, Parse, got, null,
  out_of_fuel, Step, then_do, ◌>>=◌, ◌>>◌, pure, node_new, ParseError, token_code, cur, check, past,
  match_else, try_match, expect, copy_slice, expected_rparen, expected_lparen, expected_for_name,
  expected_in, expected_function_name, expected_param, expected_module_name, func,
}
use zeros_i.Parse.Stmt.{
  skip_newlines, parse_if_body, parse_while, parse_for, parse_params, params, parse_def,
  pass_newline, parse_pass, return_value, parse_return, parse_import, parse_assign, parse_expr_stmt,
  parse_simple, stmt_kinds, some_stmt,
}
use zeros_i.Parse.Moves.{
  EndsEof, size, Moves, Good, Good-pure, first_no, first_one, Good-fewer, Good-zero, Good-empty,
  more_tokens, after_token, Good-match_else, Good-expect, Good-try_match, Good-node_new,
  Good-copy_slice,
}

module _ (lx : Lexer) (ends : EndsEof lx) where
  pub skip_newlines-Good : (m k : ℕ) → k ≤ m → Good lx 0 k (skip_newlines lx m)
  unfolding skip_newlines
  skip_newlines-Good zero k few = Good-empty lx 0 k _ few
  skip_newlines-Good (suc m) k few =
      Good-match_else lx ends 0 k newline _ _ (omega arith) (omega arith)
        (skip_newlines-Good m (k - 1) (omega arith)) (Good-pure lx k tt)

  -- A node of one child.
  pub node_of-Good :
      {A B : Type 0} (k : ℕ) (m : Step A) (f : A → B)
      → Good lx 0 k m
      → Good lx 0 k (m >>= λ a. pure (f a))
  node_of-Good k m f g = first_no lx 0 k _ _ g λ a. Good-pure lx k (f a)

  -- A token that is expected, and what follows.
  pub expected :
      {A : Type 0} (k : ℕ) (t : TokenKind) (e : ParseError) (m : Step A)
      → 0 < token_code t
      → Good lx 0 k m
      → Good lx 0 k (expect lx t e >> m)
  expected k t e m some_kind g =
      first_no lx 0 k _ _ (Good-zero lx k _ (Good-expect lx ends k t e some_kind)) λ u. g

  -- A newline that may be there, and the node.
  ended : {A : Type 0} (k : ℕ) (a : A) → Good lx 0 k (try_match lx newline >> pure a)
  ended k a =
      first_no lx 0 k _ _ (Good-try_match lx ends k newline (omega arith)) λ u. Good-pure lx k a

  -- A step that reads the current token first.
  reading :
      {A : Type 0} (d k : ℕ) (f : Token → Step A)
      → ((t : Token) → Good lx d k (f t))
      → Good lx d k (λ p. f (cur lx p) p)
  reading d k f g = record { run = λ p. (g (cur lx p)).run p }

  two_forward : {A : Type 0} (p : Parser) (r : Parse A) → Moves lx 1 (past lx p) r → Moves lx 1 p r
  two_forward p (got a q) h = (omega (arith, h.0), h.1)
  two_forward p (null q) h = (omega (arith, h.0), h.1)
  two_forward p out_of_fuel h = h

  pub further :
      {A : Type 0} (p q : Parser) (r : Parse A)
      → p.pos + 0 ≤ q.pos
      → Moves lx 0 q r
      → Moves lx 0 p r
  further p q (got a p') far h = (omega (arith, h.0), h.1)
  further p q (null p') far h = (omega (arith, h.0), h.1)
  further p q out_of_fuel far h = h

  pub shut :
      (p : Parser) (r : Parse (Unit {0}))
      → Moves lx 0 p r
      → Moves lx 0 p (then_do {B = Node} r (λ u p'. null p'))
  shut p (got a p') h = (omega (arith, h.0), h.1)
  shut p (null p') h = h
  shut p out_of_fuel h = h

  parse_params-Good : (m k : ℕ) → k ≤ m → Good lx 0 k (parse_params lx m)
  unfolding parse_params
  parse_params-Good zero k few = Good-empty lx 0 k _ few
  parse_params-Good (suc m) k few =
      reading 0 k
        (λ t.
          expect lx name expected_param
          >> (node_new
              >> (copy_slice lx t >>= λ s.
                  match_else lx comma
                    (parse_params lx m >>= λ rest. pure (then_node (nd_name s) rest))
                    (pure (then_node (nd_name s) last)))))
        λ t. expected k name _ _ (omega arith) (
          first_no lx 0 k _ _ (Good-node_new lx k) λ u.
            first_no lx 0 k _ _ (Good-copy_slice lx k t) λ s.
              Good-match_else lx ends 0 k comma _ _ (omega arith) (omega arith)
                (node_of-Good (k - 1) _ _ (parse_params-Good m (k - 1) (omega arith)))
                (Good-pure lx k _))

  params-Good : (m k : ℕ) → k ≤ m → Good lx 0 k (params lx m)
  unfolding params
  params-Good m k few = record {
    run = λ p h l. elim (Bool-cases (check lx p rparen)) [
      | inl stop ↦ rw stop (omega arith, h)
      | inr on ↦ rw on ((parse_params-Good m k few).run p h l)
    ];
  }

  parse_pass-Good : (k : ℕ) → Good lx 0 k (parse_pass lx)
  unfolding parse_pass pass_newline
  parse_pass-Good k = record {
    run = λ p h l. passed p (node_new p) ((Good-node_new lx k).run p h l) l;
  }
    where
      passed :
          (p : Parser) (r : Parse (Unit {0}))
          → Moves lx 0 p r
          → size lx ≤ p.pos + k
          → Moves lx 0 p (pass_newline lx r)
      passed p (got a q) h l =
          further p q _ (omega (arith, h.0)) ((ended k nd_pass).run q h.1 (omega (arith, h.0)))
      passed p (null q) h l = further p q _ (omega (arith, h.0)) (
          shut q (try_match lx newline q)
            ((Good-try_match lx ends k newline (omega arith)).run q h.1 (omega (arith, h.0))))
      passed p out_of_fuel h l = h

  parse_import-Good : (k : ℕ) → Good lx 0 k (parse_import lx)
  unfolding parse_import
  parse_import-Good k =
      reading 0 k
        (λ t.
          node_new
          >> (expect lx name expected_module_name
              >> (copy_slice lx t >>= λ s. try_match lx newline >> pure (nd_import s))))
        λ t. first_no lx 0 k _ _ (Good-node_new lx k) λ u.
          expected k name _ _ (omega arith)
            (first_no lx 0 k _ _ (Good-copy_slice lx k t) λ s. ended k _)

  module _ (top : ℕ) (expr suite : Step Node) (reads : Good lx 1 top expr)
      (bodies : Good lx 1 top suite) where
    expr-Good : (k : ℕ) → k ≤ top → Good lx 0 k expr
    expr-Good k le' = Good-fewer lx 1 0 top k expr (omega arith) le' reads

    suite-Good : (k : ℕ) → k ≤ top → Good lx 0 k suite
    suite-Good k le' = Good-fewer lx 1 0 top k suite (omega arith) le' bodies

    parse_if_body-Good : (m k : ℕ) → k ≤ m → k ≤ top → Good lx 0 k (parse_if_body lx m expr suite)
    unfolding parse_if_body
    parse_if_body-Good zero k few le' = Good-empty lx 0 k _ few
    parse_if_body-Good (suc m) k few le' = first_no lx 0 k _ _ (Good-node_new lx k) λ u.
        first_no lx 0 k _ _ (expr-Good k le') λ a. first_no lx 0 k _ _ (suite-Good k le') λ body.
          first_no lx 0 k _ _ (skip_newlines-Good (suc m) k few) λ v.
            Good-match_else lx ends 0 k elif _ _ (omega arith) (omega arith)
              (node_of-Good (k - 1) _ _ (parse_if_body-Good m (k - 1) (omega arith) (omega arith)))
              (Good-match_else lx ends 0 k else_ _ _ (omega arith) (omega arith)
                (node_of-Good (k - 1) _ _ (suite-Good (k - 1) (omega arith))) (Good-pure lx k _))

    parse_while-Good : (k : ℕ) → k ≤ top → Good lx 0 k (parse_while expr suite)
    unfolding parse_while
    parse_while-Good k le' =
        first_no lx 0 k _ _ (Good-node_new lx k)
          λ u. first_no lx 0 k _ _ (expr-Good k le') λ a. node_of-Good k _ _ (suite-Good k le')

    parse_for-Good : (k : ℕ) → k ≤ top → Good lx 0 k (parse_for lx expr suite)
    unfolding parse_for
    parse_for-Good k le' = first_no lx 0 k _ _ (Good-node_new lx k) λ u.
        reading 0 k
          (λ t.
            expect lx name expected_for_name
            >> (copy_slice lx t >>= λ s.
                expect lx in_ expected_in
                >> (expr >>= λ a. suite >>= λ body. pure (nd_for s a body))))
          λ t. expected k name _ _ (omega arith) (
            first_no lx 0 k _ _ (Good-copy_slice lx k t) λ s.
              expected k in_ _ _ (omega arith)
                (first_no lx 0 k _ _ (expr-Good k le') λ a. node_of-Good k _ _ (suite-Good k le')))

    parse_def-Good : (m k : ℕ) → k ≤ m → k ≤ top → Good lx 0 k (parse_def lx m suite)
    unfolding parse_def
    parse_def-Good m k few le' = first_no lx 0 k _ _ (Good-node_new lx k) λ u.
        reading 0 k
          (λ t.
            expect lx name expected_function_name
            >> (copy_slice lx t >>= λ s.
                expect lx lparen expected_lparen
                >> (params lx m >>= λ ps.
                    expect lx rparen expected_rparen >> (suite >>= λ body. pure (func s ps body)))))
          λ t. expected k name _ _ (omega arith) (
            first_no lx 0 k _ _ (Good-copy_slice lx k t) λ s. expected k lparen _ _ (omega arith) (
              first_no lx 0 k _ _ (params-Good m k few)
                λ ps. expected k rparen _ _ (omega arith) (node_of-Good k _ _ (suite-Good k le'))))

    return_value-Good : (k : ℕ) → k ≤ top → Good lx 0 k (return_value lx expr)
    unfolding return_value
    return_value-Good k le' = record {
      run = λ p h l.
          elim (Bool-cases
            (not (check lx p newline) && (not (check lx p eof) && not (check lx p dedent)))) [
              | inl some_value ↦
                  rw some_value ((node_of-Good k expr present (expr-Good k le')).run p h l)
              | inr no_value ↦ rw no_value (omega arith, h)
            ];
    }

    parse_return-Good : (k : ℕ) → k ≤ top → Good lx 0 k (parse_return lx expr)
    unfolding parse_return
    parse_return-Good k le' =
        first_no lx 0 k _ _ (Good-node_new lx k)
          λ u. first_no lx 0 k _ _ (return_value-Good k le') λ a. ended k _

    parse_assign-Good : (k : ℕ) (t : Token) → k ≤ top → Good lx 0 k (parse_assign lx t expr)
    unfolding parse_assign
    parse_assign-Good k t le' = first_no lx 0 k _ _ (Good-node_new lx k) λ u.
        first_no lx 0 k _ _ (Good-copy_slice lx k t) λ s.
          first_no lx 0 k _ _ (Good-node_new lx k)
            λ v. first_no lx 0 k _ _ (expr-Good k le') λ b. ended k _

    parse_expr_stmt-Good : (k : ℕ) → k ≤ top → Good lx 1 k (parse_expr_stmt lx expr)
    unfolding parse_expr_stmt
    parse_expr_stmt-Good k le' =
        first_one lx k _ _ (Good-fewer lx 1 1 top k expr (omega arith) le' reads)
          λ e. first_no lx 0 (k - 1) _ _ (Good-node_new lx (k - 1)) λ u. ended (k - 1) _

    parse_simple-Good : (k : ℕ) → k ≤ top → Good lx 1 k (parse_simple lx expr)
    unfolding parse_simple
    parse_simple-Good k le' = record {
      run = λ p h l. elim (Bool-cases (check lx p name)) [
        | inr no_name ↦ rw no_name ((parse_expr_stmt-Good k le').run p h l)
        | inl named ↦ elim (Bool-cases (check lx (past lx p) eq)) [
          | inr no_eq ↦ rw (named, no_eq) ((parse_expr_stmt-Good k le').run p h l)
          | inl assigned ↦
              rw (named, assigned)
                (let inside = more_tokens lx ends p name h named (omega arith) in
                  two_forward p (parse_assign lx (cur lx p) expr (past lx (past lx p))) (
                    after_token lx ends 1 (k - 1 - 1) eq (parse_assign lx (cur lx p) expr)
                      (past lx p) (omega arith) (omega arith)
                      (parse_assign-Good (k - 1 - 1) (cur lx p) (omega arith)) inside (omega arith)
                      assigned))
        ]
      ];
    }

    stmt_kinds-Good : (m k : ℕ) → k ≤ suc m → k ≤ top → Good lx 1 k (stmt_kinds lx m expr suite)
    unfolding stmt_kinds
    stmt_kinds-Good m k few le' =
        Good-match_else lx ends 1 k pass _ _ (omega arith) (omega arith) (parse_pass-Good (k - 1)) (
          Good-match_else lx ends 1 k return _ _ (omega arith) (omega arith)
            (parse_return-Good (k - 1) (omega arith))
            (Good-match_else lx ends 1 k if_ _ _ (omega arith) (omega arith)
              (parse_if_body-Good m (k - 1) (omega arith) (omega arith))
              (Good-match_else lx ends 1 k while _ _ (omega arith) (omega arith)
                (parse_while-Good (k - 1) (omega arith))
                (Good-match_else lx ends 1 k for _ _ (omega arith) (omega arith)
                  (parse_for-Good (k - 1) (omega arith))
                  (Good-match_else lx ends 1 k def _ _ (omega arith) (omega arith)
                    (parse_def-Good m (k - 1) (omega arith) (omega arith))
                    (Good-match_else lx ends 1 k import _ _ (omega arith) (omega arith)
                      (parse_import-Good (k - 1)) (parse_simple-Good k le')))))))

    pub some_stmt-Good : (m k : ℕ) → k ≤ suc m → k ≤ top → Good lx 1 k (some_stmt lx m expr suite)
    unfolding some_stmt
    some_stmt-Good m k few le' = record {
      run = λ p h l. elim (Bool-cases (check lx p eof || check lx p dedent)) [
        | inl stop ↦ rw stop (omega arith, h)
        | inr on ↦ rw on ((stmt_kinds-Good m k few le').run p h l)
      ];
    }
