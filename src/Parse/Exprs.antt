-- ===== src/Parse/Exprs.antt =====
-- Expressions: every function ends within its fuel.
use zeros_i.Base.{
  ℕ, zero, suc, ◌+◌, ◌-◌, ◌≤◌, ◌<◌, ◌≡◌, true, false, List, [], ◌∷◌, arith, Bool-cases, inl, inr,
}
use zeros_i.Lex.{
  Lexer, Token, TokenKind, number, string, plus, minus, eqeq, ne, lt, gt, le, ge, lparen, rparen,
  comma, not_, true_, false_, none_, lbrack, rbrack, name,
}
use zeros_i.Parse.{
  Node, bool, nd_none, unary, binop, nd_compare, Parser, Step, ◌>>=◌, ◌>>◌, pure, node_new, cur,
  check, past, match_else, expect, ParseError, token_code,
}
use zeros_i.Parse.Expr.{
  comma_list, elements, parse_number, parse_string, parse_list, parse_call, parse_name, parse_group,
  no_expression, parse_atom, parse_indices, parse_primary, one_of, parse_unary, parse_operators,
  parse_term, parse_arith, parse_compare, parse_and, parse_or, parse_expr,
}
use zeros_i.Parse.Moves.{
  EndsEof, size, Moves, Good, Good-pure, first_no, first_one, one_forward, Good-fewer, Good-zero,
  Good-empty, after_token, Good-match_else, Good-expect, Good-node_new, Good-copy_slice,
  Good-copy_string_lit,
}

module _ (lx : Lexer) (ends : EndsEof lx) (n : ℕ) (expr : Step Node)
    (reads : Good lx 1 n expr) where
  expr-Good : (k : ℕ) → k ≤ n → Good lx 1 k expr
  expr-Good k le' = Good-fewer lx 1 1 n k expr (omega arith) le' reads

  comma_list-Good : (m k : ℕ) → k ≤ m → k ≤ n → Good lx 1 k (comma_list lx m expr)
  unfolding comma_list
  comma_list-Good zero k few le' = Good-empty lx 1 k _ few
  comma_list-Good (suc m) k few le' = first_one lx k expr _ (expr-Good k le') λ el.
      Good-match_else lx ends 0 (k - 1) comma _ _ (omega arith) (omega arith)
        (first_no lx 0 (k - 1 - 1) _ _
          (Good-zero lx _ _ (comma_list-Good m (k - 1 - 1) (omega arith) (omega arith)))
          (λ rest. Good-pure lx _ _))
        (Good-pure lx _ _)

  elements-Good : (t : TokenKind) (m k : ℕ) → k ≤ m → k ≤ n → Good lx 0 k (elements lx t m expr)
  unfolding elements
  elements-Good t m k few le' = record {
    run = λ p h l. elim (Bool-cases (check lx p t)) [
      | inl stop ↦ rw stop (omega arith, h)
      | inr on ↦ rw on ((Good-zero lx k _ (comma_list-Good m k few le')).run p h l)
    ];
  }

  -- A closing token, and the node.
  closed-Good :
      {A : Type 0} (t : TokenKind) (e : ParseError) (k : ℕ) (a : A)
      → 0 < token_code t
      → Good lx 0 k (expect lx t e >> pure a)
  closed-Good t e k a some_kind =
      first_no lx 0 k _ _ (Good-zero lx k _ (Good-expect lx ends k t e some_kind))
        (λ u. Good-pure lx k a)

  parse_list-Good : (m k : ℕ) → k ≤ m → k ≤ n → Good lx 0 k (parse_list lx m expr)
  unfolding parse_list
  parse_list-Good m k few le' = first_no lx 0 k _ _ (Good-node_new lx k) λ u.
      first_no lx 0 k _ _ (elements-Good rbrack m k few le')
        λ els. closed-Good rbrack _ k _ (omega arith)

  parse_call-Good :
      (m k : ℕ) (node : Node) → k ≤ m → k ≤ n → Good lx 0 k (parse_call lx m expr node)
  unfolding parse_call
  parse_call-Good m k node few le' = first_no lx 0 k _ _ (Good-node_new lx k) λ u.
      first_no lx 0 k _ _ (elements-Good rparen m k few le')
        λ els. closed-Good rparen _ k _ (omega arith)

  parse_name-Good : (t : Token) (m k : ℕ) → k ≤ m → k ≤ n → Good lx 0 k (parse_name lx t m expr)
  unfolding parse_name
  parse_name-Good t m k few le' = first_no lx 0 k _ _ (Good-node_new lx k) λ u.
      first_no lx 0 k _ _ (Good-copy_slice lx k t) λ s.
        Good-match_else lx ends 0 k lparen _ _ (omega arith) (omega arith)
          (parse_call-Good m (k - 1) _ (omega arith) (omega arith)) (Good-pure lx k _)

  parse_group-Good : (k : ℕ) → k ≤ n → Good lx 0 k (parse_group lx expr)
  unfolding parse_group
  parse_group-Good k le' =
      first_no lx 0 k _ _ (Good-zero lx k _ (expr-Good k le'))
        λ node. closed-Good rparen _ k _ (omega arith)

  no_expression-Good : (d k : ℕ) → Good lx d k no_expression
  unfolding no_expression
  no_expression-Good d k = record { run = λ p h l. (omega arith, h) }

  parse_number-Good : (k : ℕ) (t : Token) → Good lx 0 k (parse_number t)
  unfolding parse_number
  parse_number-Good k t = first_no lx 0 k _ _ (Good-node_new lx k) λ u. Good-pure lx k _

  parse_string-Good : (k : ℕ) (t : Token) → Good lx 0 k (parse_string lx t)
  unfolding parse_string
  parse_string-Good k t =
      first_no lx 0 k _ _ (Good-node_new lx k)
        λ u. first_no lx 0 k _ _ (Good-copy_string_lit lx k t) λ s. Good-pure lx k _

  constant-Good : (k : ℕ) (node : Node) → Good lx 0 k (node_new >> pure node)
  constant-Good k node = first_no lx 0 k _ _ (Good-node_new lx k) λ u. Good-pure lx k node

  parse_atom-Good : (m k : ℕ) → k ≤ suc m → k ≤ suc n → Good lx 1 k (parse_atom lx m expr)
  unfolding parse_atom
  parse_atom-Good m k few le' = record { run = λ p. (chain (cur lx p)).run p }
    where
      chain :
          (t : Token)
          → Good lx 1 k (
              match_else lx number (parse_number t) (
                match_else lx string (parse_string lx t) (
                  match_else lx true_ (node_new >> pure (bool true)) (
                    match_else lx false_ (node_new >> pure (bool false)) (
                      match_else lx none_ (node_new >> pure nd_none) (
                        match_else lx lbrack (parse_list lx m expr) (
                          match_else lx name
                            (parse_name lx t m expr)
                            (match_else lx lparen (parse_group lx expr) no_expression))))))))
      chain t =
          Good-match_else lx ends 1 k number _ _ (omega arith) (omega arith)
            (parse_number-Good (k - 1) t)
            (Good-match_else lx ends 1 k string _ _ (omega arith) (omega arith)
              (parse_string-Good (k - 1) t)
              (Good-match_else lx ends 1 k true_ _ _ (omega arith) (omega arith)
                (constant-Good (k - 1) (bool true))
                (Good-match_else lx ends 1 k false_ _ _ (omega arith) (omega arith)
                  (constant-Good (k - 1) (bool false))
                  (Good-match_else lx ends 1 k none_ _ _ (omega arith) (omega arith)
                    (constant-Good (k - 1) nd_none)
                    (Good-match_else lx ends 1 k lbrack _ _ (omega arith) (omega arith)
                      (parse_list-Good m (k - 1) (omega arith) (omega arith))
                      (Good-match_else lx ends 1 k name _ _ (omega arith) (omega arith)
                        (parse_name-Good t m (k - 1) (omega arith) (omega arith))
                        (Good-match_else lx ends 1 k lparen _ _ (omega arith) (omega arith)
                          (parse_group-Good (k - 1) (omega arith)) (no_expression-Good 1 k))))))))

  parse_indices-Good :
      (m k : ℕ) (node : Node) → k ≤ m → k ≤ suc n → Good lx 0 k (parse_indices lx m expr node)
  unfolding parse_indices
  parse_indices-Good zero k node few le' = Good-empty lx 0 k _ few
  parse_indices-Good (suc m) k node few le' =
      Good-match_else lx ends 0 k lbrack _ _ (omega arith) (omega arith)
        (first_no lx 0 (k - 1) _ _ (Good-node_new lx (k - 1)) λ u.
          first_no lx 0 (k - 1) _ _ (Good-zero lx (k - 1) _ (expr-Good (k - 1) (omega arith))) λ i.
            first_no lx 0 (k - 1) _ _
              (Good-zero lx (k - 1) _ (Good-expect lx ends (k - 1) rbrack _ (omega arith)))
              λ v. parse_indices-Good m (k - 1) _ (omega arith) (omega arith))
        (Good-pure lx k node)

  parse_primary-Good : (m k : ℕ) → k ≤ m → k ≤ suc n → Good lx 1 k (parse_primary lx m expr)
  unfolding parse_primary
  parse_primary-Good m k few le' =
      first_one lx k _ _ (parse_atom-Good m k (omega arith) le')
        λ node. parse_indices-Good m (k - 1) node (omega arith) (omega arith)

  -- A test for any of some tokens that are not the end marker.
  abbrev SomeKinds : List TokenKind → Type 0
  SomeKinds [] = Unit
  SomeKinds (t ∷ ts) = (0 < token_code t) × SomeKinds ts

  after_one_of :
      {A : Type 0} (k : ℕ) (ts : List TokenKind) (m : Step A) (p : Parser)
      → SomeKinds ts
      → Good lx 0 (k - 1) m
      → p.pos < size lx
      → size lx ≤ p.pos + k
      → one_of lx ts p ≡ true
      → Moves lx 1 p (m (past lx p))
  after_one_of k [] m p kinds g h l is = absurd (ground arith)
  after_one_of k (t ∷ ts) m p kinds g h l is = elim (Bool-cases (check lx p t)) [
    | inl this ↦ after_token lx ends 1 (k - 1) t m p (omega arith) kinds.0 g h (omega arith) this
    | inr other ↦ after_one_of k ts m p kinds.1 g h l (ground arith)
  ]

  -- A node whose operand comes from `m`.
  node_of-Good :
      {A : Type 0} (k : ℕ) (m : Step A) (f : A → Node)
      → Good lx 1 k m
      → Good lx 0 k (node_new >> (m >>= λ a. pure (f a)))
  node_of-Good k m f g =
      first_no lx 0 k _ _ (Good-node_new lx k)
        λ u. first_no lx 0 k _ _ (Good-zero lx k m g) λ a. Good-pure lx k (f a)

  parse_unary-Good : (m k : ℕ) → k ≤ m → k ≤ suc n → Good lx 1 k (parse_unary lx m expr)
  unfolding parse_unary
  parse_unary-Good zero k few le' = Good-empty lx 1 k _ few
  parse_unary-Good (suc m) k few le' = record {
    run = λ p h l. elim (Bool-cases (one_of lx (not_ ∷ (minus ∷ (plus ∷ []))) p)) [
      | inl is ↦ rw is (
          after_one_of k (not_ ∷ (minus ∷ (plus ∷ []))) _ p
            (omega arith, (omega arith, (omega arith, tt)))
            (node_of-Good (k - 1) _ (unary (cur lx p).kind)
              (parse_unary-Good m (k - 1) (omega arith) (omega arith)))
            h l is)
      | inr no' ↦ rw no' ((parse_primary-Good (suc m) k few le').run p h l)
    ];
  }

  parse_operators-Good :
      (ts : List TokenKind) (top m k : ℕ) (next : Step Node) (left : Node)
      → SomeKinds ts
      → Good lx 1 top next
      → k ≤ m
      → k ≤ top
      → Good lx 0 k (parse_operators lx ts m next left)
  unfolding parse_operators
  parse_operators-Good ts top zero k next left kinds g few le' = Good-empty lx 0 k _ few
  parse_operators-Good ts top (suc m) k next left kinds g few le' = record {
    run = λ p h l. elim (Bool-cases (one_of lx ts p)) [
      | inr no' ↦ rw no' (omega arith, h)
      | inl is ↦
          let more = first_no lx 0 (k - 1) _ _ (Good-node_new lx (k - 1)) λ u.
            first_no lx 0 (k - 1) next
              (λ right. parse_operators lx ts m next (binop (cur lx p).kind left right))
              (Good-fewer lx 1 0 top (k - 1) next (omega arith) (omega arith) g)
              λ right.
                parse_operators-Good ts top m (k - 1) next _ kinds g (omega arith) (omega arith) in
          rw is (one_forward lx p _ (after_one_of k ts _ p kinds more h l is))
    ];
  }

  -- An operand, and operators with operands after it.
  chain-Good :
      (ts : List TokenKind) (m k : ℕ) (next : Step Node)
      → SomeKinds ts
      → Good lx 1 k next
      → k ≤ m
      → Good lx 1 k (next >>= parse_operators lx ts m next)
  chain-Good ts m k next kinds g few =
      first_one lx k next _ g
        λ left. parse_operators-Good ts k m (k - 1) next left kinds g (omega arith) (omega arith)

  parse_term-Good : (m k : ℕ) → k ≤ m → k ≤ suc n → Good lx 1 k (parse_term lx m expr)
  unfolding parse_term
  parse_term-Good m k few le' =
      chain-Good _ m k _ (omega arith, (omega arith, (omega arith, tt)))
        (parse_unary-Good m k few le') few

  parse_arith-Good : (m k : ℕ) → k ≤ m → k ≤ suc n → Good lx 1 k (parse_arith lx m expr)
  unfolding parse_arith
  parse_arith-Good m k few le' =
      chain-Good _ m k _ (omega arith, (omega arith, tt)) (parse_term-Good m k few le') few

  parse_compare-Good : (m k : ℕ) → k ≤ m → k ≤ suc n → Good lx 1 k (parse_compare lx m expr)
  unfolding parse_compare
  parse_compare-Good m k few le' = first_one lx k _ _ (parse_arith-Good m k few le') λ left.
      record {
        run = λ p h l.
            elim (Bool-cases (one_of lx (eqeq ∷ (ne ∷ (lt ∷ (gt ∷ (le ∷ (ge ∷ [])))))) p)) [
              | inr no' ↦ rw no' (omega arith, h)
              | inl is ↦ rw is (
                  one_forward lx p _ (
                    after_one_of (k - 1) (eqeq ∷ (ne ∷ (lt ∷ (gt ∷ (le ∷ (ge ∷ [])))))) _ p
                      (
                        omega arith,
                        (
                          omega arith,
                          (omega arith, (omega arith, (omega arith, (omega arith, tt)))),
                        ),
                      )
                      (node_of-Good (k - 1 - 1) _ (λ right. nd_compare (cur lx p).kind left right)
                        (parse_arith-Good m (k - 1 - 1) (omega arith) (omega arith)))
                      h l is))
            ];
      }

  parse_and-Good : (m k : ℕ) → k ≤ m → k ≤ suc n → Good lx 1 k (parse_and lx m expr)
  unfolding parse_and
  parse_and-Good m k few le' =
      chain-Good _ m k _ (omega arith, tt) (parse_compare-Good m k few le') few

  parse_or-Good : (m k : ℕ) → k ≤ m → k ≤ suc n → Good lx 1 k (parse_or lx m expr)
  unfolding parse_or
  parse_or-Good m k few le' = chain-Good _ m k _ (omega arith, tt) (parse_and-Good m k few le') few

-- With fuel for each token that is left.
pub parse_expr-Good : (lx : Lexer) (ends : EndsEof lx) (n : ℕ) → Good lx 1 n (parse_expr lx n)
unfolding parse_expr
parse_expr-Good lx ends zero = Good-empty lx 1 0 _ (omega arith)
parse_expr-Good lx ends (suc n) =
    parse_or-Good lx ends n (parse_expr lx n) (parse_expr-Good lx ends n) (suc n) (suc n)
      (omega arith) (omega arith)
