-- ===== src/Parse/Expr.antt =====
-- py/parse.c: expressions. Fuel bounds the nesting of calls of `parse_expr` and the rounds of each loop.
use zeros_i.Base.{ℕ, zero, suc, Bool, true, false, some, List, [], ◌∷◌, ◌||◌, if◌then◌else◌}
use zeros_i.Lex.{
  Lexer, Token, TokenKind, number, string, plus, minus, star, slash, percent, eqeq, ne, lt, gt, le,
  ge, lparen, rparen, comma, and_, or_, not_, true_, false_, none_, lbrack, rbrack, name,
}
use zeros_i.Parse.{
  Node, int, str, nd_name, bool, nd_none, unary, binop, nd_compare, call, index, nd_list, Nodes,
  last, then_node, Parser, got, null, out_of_fuel, Step, ◌>>=◌, ◌>>◌, pure, node_new,
  expected_rbrack, expected_rparen, expected_expression, cur, check, past, match_else, expect,
  copy_slice, copy_string_lit,
}

unfoldable pub parse_number : Token → Step Node
parse_number t = node_new >> pure (int t.value)

unfoldable pub no_expression : Step Node
no_expression p = null (record p { err = some expected_expression })

module _ (lx : Lexer) where
  -- `for (;;) { el = parse_expr(p); … if (!match(p, TOK_COMMA)) break; }`
  unfoldable pub comma_list : ℕ → Step Node → Step Nodes
  comma_list zero expr p = out_of_fuel
  comma_list (suc n) expr p =
      (expr >>= λ el.
      match_else lx comma (comma_list n expr >>= λ rest. pure (then_node el rest))
        (pure (then_node el last)))
        p

  -- The elements up to a closing token, if there are any.
  unfoldable pub elements : TokenKind → ℕ → Step Node → Step Nodes
  elements close n expr p = if check lx p close then got last p else comma_list n expr p

  unfoldable pub parse_string : Token → Step Node
  parse_string t = node_new >> (copy_string_lit lx t >>= λ s. pure (str s))

  unfoldable pub parse_list : ℕ → Step Node → Step Node
  parse_list n expr =
      node_new
      >> (elements rbrack n expr >>= λ els. expect lx rbrack expected_rbrack >> pure (nd_list els))

  unfoldable pub parse_call : ℕ → Step Node → Node → Step Node
  parse_call n expr node =
      node_new
      >> (elements rparen n expr >>= λ args.
          expect lx rparen expected_rparen >> pure (call node args))

  unfoldable pub parse_name : Token → ℕ → Step Node → Step Node
  parse_name t n expr =
      node_new
      >> (copy_slice lx t >>= λ s.
          match_else lx lparen (parse_call n expr (nd_name s)) (pure (nd_name s)))

  unfoldable pub parse_group : Step Node → Step Node
  parse_group expr = expr >>= λ node. expect lx rparen expected_rparen >> pure node

  -- The chain of tests in `parse_primary`.
  unfoldable pub parse_atom : ℕ → Step Node → Step Node
  parse_atom n expr p =
      let t = cur lx p in
      match_else lx number (parse_number t)
        (match_else lx string (parse_string t) (
          match_else lx true_ (node_new >> pure (bool true)) (
            match_else lx false_ (node_new >> pure (bool false)) (
              match_else lx none_ (node_new >> pure nd_none) (
                match_else lx lbrack (parse_list n expr) (
                  match_else lx name (parse_name t n expr)
                    (match_else lx lparen (parse_group expr) no_expression)))))))
        p

  -- `while (match(p, TOK_LBRACK))`
  unfoldable pub parse_indices : ℕ → Step Node → Node → Step Node
  parse_indices zero expr node p = out_of_fuel
  parse_indices (suc n) expr node p =
      match_else lx lbrack
        (node_new
          >> (expr >>= λ i.
              expect lx rbrack expected_rbrack >> parse_indices n expr (index node i)))
        (pure node) p

  unfoldable pub parse_primary : ℕ → Step Node → Step Node
  parse_primary n expr = parse_atom n expr >>= parse_indices n expr

  abbrev pub one_of : List TokenKind → Parser → Bool
  one_of [] p = false
  one_of (k ∷ ks) p = check lx p k || one_of ks p

  -- `op` is the kind of the token that was matched.
  unfoldable pub parse_unary : ℕ → Step Node → Step Node
  parse_unary zero expr p = out_of_fuel
  parse_unary (suc n) expr p =
      let op = (cur lx p).kind in
      let operand = (node_new >> (parse_unary n expr >>= λ a. pure (unary op a))) (past lx p) in
      if one_of (not_ ∷ (minus ∷ (plus ∷ []))) p then operand else parse_primary (suc n) expr p

  -- The loops of `parse_term`, `parse_arith`, `parse_and` and `parse_or`: `next` reads an operand.
  unfoldable pub parse_operators : List TokenKind → ℕ → Step Node → Node → Step Node
  parse_operators ops zero next left p = out_of_fuel
  parse_operators ops (suc n) next left p =
      let op = (cur lx p).kind in
      let more =
        (node_new >> (next >>= λ right. parse_operators ops n next (binop op left right)))
          (past lx p) in
      if one_of ops p then more else got left p

  unfoldable pub parse_term : ℕ → Step Node → Step Node
  parse_term n expr =
      parse_unary n expr
      >>= parse_operators (star ∷ (slash ∷ (percent ∷ []))) n (parse_unary n expr)

  unfoldable pub parse_arith : ℕ → Step Node → Step Node
  parse_arith n expr =
      parse_term n expr >>= parse_operators (plus ∷ (minus ∷ [])) n (parse_term n expr)

  unfoldable pub parse_compare : ℕ → Step Node → Step Node
  parse_compare n expr = parse_arith n expr >>= λ left p.
      let op = (cur lx p).kind in
      if one_of (eqeq ∷ (ne ∷ (lt ∷ (gt ∷ (le ∷ (ge ∷ [])))))) p
      then (node_new >> (parse_arith n expr >>= λ right. pure (nd_compare op left right)))
          (past lx p)
      else got left p

  unfoldable pub parse_and : ℕ → Step Node → Step Node
  parse_and n expr = parse_compare n expr >>= parse_operators (and_ ∷ []) n (parse_compare n expr)

  unfoldable pub parse_or : ℕ → Step Node → Step Node
  parse_or n expr = parse_and n expr >>= parse_operators (or_ ∷ []) n (parse_and n expr)

  unfoldable pub parse_expr : ℕ → Step Node
  parse_expr zero p = out_of_fuel
  parse_expr (suc n) p = parse_or (suc n) (parse_expr n) p
