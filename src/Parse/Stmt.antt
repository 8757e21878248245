-- ===== src/Parse/Stmt.antt =====
-- py/parse.c: statements, blocks and `mp_parse`.
use zeros_i.Base.{ℕ, zero, suc, not, ◌&&◌, ◌||◌, none, some, if◌then◌else◌, length}
use zeros_i.Lex.{
  Lexer, Token, eof, newline, indent, dedent, name, lparen, rparen, eq, colon, comma, if_, elif,
  else_, while, for, in_, def, return, import, pass,
}
use zeros_i.Parse.{
  Node, nd_name, nd_pass, assign, expr_stmt, nd_if, nd_while, nd_for, func, nd_return, block,
  nd_module, nd_import, Nodes, last, then_node, OptNode, absent, present, Parse, got, null,
  out_of_fuel, Step, then_do, ◌>>=◌, ◌>>◌, pure, node_new, expected_lparen, expected_rparen,
  expected_colon, expected_indent, expected_dedent, expected_for_name, expected_in,
  expected_function_name, expected_param, expected_module_name, cur, check, past, match_else,
  try_match, expect, copy_slice,
}
use zeros_i.Parse.Expr.{parse_expr}

-- `blocks`, `stmt`, `expr` and `suite` stand for the calls of `parse_block` and the others.
unfoldable pub parse_one : Step Node → Step Node
parse_one stmt = stmt >>= λ s. node_new >> pure (block (then_node s last))

unfoldable pub parse_while : Step Node → Step Node → Step Node
parse_while expr suite = node_new >> (expr >>= λ a. suite >>= λ body. pure (nd_while a body))

-- What the loops of `parse_block` and `mp_parse` do with a statement, and with a null pointer.
unfoldable pub keep_stmt : Step Nodes → Parse Node → Parse Nodes
keep_stmt rest (got s p) = then_do (rest p) λ ss. pure (then_node s ss)
keep_stmt rest (null p) = elim p.err [ none ↦ got last p | some e ↦ null p ]
keep_stmt rest out_of_fuel = out_of_fuel

module _ (lx : Lexer) where
  -- A round for each newline.
  unfoldable pub skip_newlines : ℕ → Step (Unit {0})
  skip_newlines zero p = out_of_fuel
  skip_newlines (suc n) p = match_else lx newline (skip_newlines n) (pure tt) p

  unfoldable pub parse_indented : Step Node → Step Node
  parse_indented blocks =
      expect lx indent expected_indent
      >> (blocks >>= λ b. expect lx dedent expected_dedent >> pure b)

  unfoldable pub parse_suite : Step Node → Step Node → Step Node
  parse_suite blocks stmt =
      expect lx colon expected_colon
      >> match_else lx newline (parse_indented blocks) (parse_one stmt)

  unfoldable pub parse_if_body : ℕ → Step Node → Step Node → Step Node
  parse_if_body zero expr suite p = out_of_fuel
  parse_if_body (suc n) expr suite p =
      (node_new
          >> (expr >>= λ a. suite >>= λ body.
              skip_newlines (suc n)
              >> match_else lx elif
                  (parse_if_body n expr suite >>= λ o. pure (nd_if a body (present o)))
                  (match_else lx else_ (suite >>= λ o. pure (nd_if a body (present o)))
                    (pure (nd_if a body absent)))))
        p

  unfoldable pub parse_for : Step Node → Step Node → Step Node
  parse_for expr suite = node_new >> λ p.
      let t = cur lx p in
      (expect lx name expected_for_name
          >> (copy_slice lx t >>= λ s.
              expect lx in_ expected_in
              >> (expr >>= λ a. suite >>= λ body. pure (nd_for s a body))))
        p

  -- The loop over the parameters.
  unfoldable pub parse_params : ℕ → Step Nodes
  parse_params zero p = out_of_fuel
  parse_params (suc n) p =
      let t = cur lx p in
      (expect lx name expected_param
          >> (node_new
              >> (copy_slice lx t >>= λ s.
                  match_else lx comma (parse_params n >>= λ rest. pure (then_node (nd_name s) rest))
                    (pure (then_node (nd_name s) last)))))
        p

  unfoldable pub params : ℕ → Step Nodes
  params n p = if check lx p rparen then got last p else parse_params n p

  unfoldable pub parse_def : ℕ → Step Node → Step Node
  parse_def n suite = node_new >> λ p.
      let t = cur lx p in
      (expect lx name expected_function_name
          >> (copy_slice lx t >>= λ s.
              expect lx lparen expected_lparen
              >> (params n >>= λ ps.
                  expect lx rparen expected_rparen >> (suite >>= λ body. pure (func s ps body)))))
        p

  -- The newline is passed also where the node could not be made.
  unfoldable pub pass_newline : Parse (Unit {0}) → Parse Node
  pass_newline (got a p) = (try_match lx newline >> pure nd_pass) p
  pass_newline (null p) = then_do (try_match lx newline p) λ u p'. null p'
  pass_newline out_of_fuel = out_of_fuel

  unfoldable pub parse_pass : Step Node
  parse_pass p = pass_newline (node_new p)

  unfoldable pub return_value : Step Node → Step OptNode
  return_value expr p =
      if not (check lx p newline) && (not (check lx p eof) && not (check lx p dedent))
      then (expr >>= λ a. pure (present a)) p
      else got absent p

  unfoldable pub parse_return : Step Node → Step Node
  parse_return expr =
      node_new >> (return_value expr >>= λ a. try_match lx newline >> pure (nd_return a))

  unfoldable pub parse_import : Step Node
  parse_import p =
      let t = cur lx p in
      (node_new
          >> (expect lx name expected_module_name
              >> (copy_slice lx t >>= λ s. try_match lx newline >> pure (nd_import s))))
        p

  -- After the name `t` and the `=`.
  unfoldable pub parse_assign : Token → Step Node → Step Node
  parse_assign t expr =
      node_new
      >> (copy_slice lx t >>= λ s.
          node_new >> (expr >>= λ b. try_match lx newline >> pure (assign (nd_name s) b)))

  unfoldable pub parse_expr_stmt : Step Node → Step Node
  parse_expr_stmt expr = expr >>= λ e. node_new >> (try_match lx newline >> pure (expr_stmt e))

  -- The end of `parse_stmt`. The position goes back where no `=` follows the name.
  unfoldable pub parse_simple : Step Node → Step Node
  parse_simple expr p =
      if check lx p name && check lx (past lx p) eq
      then parse_assign (cur lx p) expr (past lx (past lx p))
      else parse_expr_stmt expr p

  unfoldable pub stmt_kinds : ℕ → Step Node → Step Node → Step Node
  stmt_kinds n expr suite = match_else lx pass parse_pass (
      match_else lx return (parse_return expr) (
        match_else lx if_ (parse_if_body n expr suite) (
          match_else lx while (parse_while expr suite) (
            match_else lx for (parse_for expr suite) (
              match_else lx def (parse_def n suite)
                (match_else lx import parse_import (parse_simple expr)))))))

  -- A null pointer with no message at the end of a block.
  unfoldable pub some_stmt : ℕ → Step Node → Step Node → Step Node
  some_stmt n expr suite p =
      if check lx p eof || check lx p dedent then null p else stmt_kinds n expr suite p

  unfoldable pub block_loop : ℕ → Step Node → Step Nodes
  block_loop zero stmt p = out_of_fuel
  block_loop (suc n) stmt p =
      (skip_newlines (suc n) >> λ p'.
      if check lx p' dedent || check lx p' eof
      then got last p'
      else keep_stmt (block_loop n stmt) (stmt p'))
        p

  unfoldable pub parse_block : ℕ → Step Node → Step Node
  parse_block n stmt = node_new >> (block_loop n stmt >>= λ body. pure (block body))

  unfoldable pub parse_stmt : ℕ → Step Node
  parse_stmt zero p = out_of_fuel
  parse_stmt (suc n) p =
      let suite = parse_suite (parse_block n (parse_stmt n)) (parse_stmt n) in
      (skip_newlines (suc n) >> some_stmt (suc n) (parse_expr lx (suc n)) suite) p

  unfoldable pub module_loop : ℕ → Step Node → Step Nodes
  module_loop zero stmt p = out_of_fuel
  module_loop (suc n) stmt p =
      (skip_newlines (suc n) >> λ p'.
      if check lx p' eof then got last p' else keep_stmt (module_loop n stmt) (stmt p'))
        p

  unfoldable pub parse_module : ℕ → Step Node
  parse_module n = node_new >> (module_loop n (parse_stmt n) >>= λ body. pure (nd_module body))

  -- A round for each token is enough.
  unfoldable pub mp_parse : ℕ → Parse Node
  mp_parse heap_off =
      parse_module (length lx.tokens) (record { pos = 0; err = none; heap_off = heap_off })
