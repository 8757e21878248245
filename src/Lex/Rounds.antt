-- ===== src/Lex/Rounds.antt =====
-- One round of the loop keeps the invariant and moves on in the source.
use zeros_i.Base.{
  ℕ, ◌-◌, ◌<◌, ◌≡◌, refl, sym, subst, Bool, true, false, ◌||◌, not, Option, none, some, List, [],
  ◌∷◌, ltb, ◌==◌, if◌then◌else◌, arith, Bool-cases, inl, inr,
}
use zeros_i.Lex.{
  TokenKind, newline, plus, minus, star, slash, percent, eq, eqeq, ne, lt, gt, le, ge, lparen,
  rparen, colon, comma, lbrack, rbrack, Lexer, newline_char, tab_char, advance, push_tok, skip,
  emit_indent, is_alpha, is_digit,
}
use zeros_i.Lex.Scan.{
  Outcome, next, stop, fail, unchecked, lex_word, lex_number, two_chars, lex_operator, lex_char,
  lex_rest, after_indent, lex_round,
}
use zeros_i.Lex.Valid.{
  IsLexing, Later, Later-refl, Later-trans, push_tok-IsLexing, push_tok-Later, advance-IsLexing,
  advance-Later, advance-pos, skip-IsLexing, skip-lt,
}
use zeros_i.Lex.Indent.{emit_indent-IsLexing}
use zeros_i.Lex.Steps.{After, IsPlain, unchecked_push, inside, lex_word-After, lex_number-After}
use zeros_i.Lex.Strings.{lex_string-After}

-- `After`, as a type that names its outcome.
pub record Follows (lx : Lexer) (o : Outcome) : Type 0 where
  pub after : After lx o

Follows-if :
    {lx : Lexer} (b : Bool) (x y : Outcome)
    → Follows lx x
    → Follows lx y
    → Follows lx (if b then x else y)
Follows-if true x y hx hy = hx
Follows-if false x y hx hy = hy

-- An operator starts at the character before the state that has read it.
module _ (lx read : Lexer) (h : IsLexing read) (l : Later lx read) (p : lx.pos < read.pos) where
  short : (kind : TokenKind) → IsPlain kind → Follows lx (unchecked (push_tok kind lx.pos 1 0 read))
  short kind plain = record {
    after =
        unchecked_push lx read h l p kind lx.pos 1 0 plain
          (ground (arith, inside read h, l.same_src));
  }

  long :
      (kind : TokenKind) (c : ℕ) (cs : List ℕ)
      → read.rest ≡ c ∷ cs
      → IsPlain kind
      → Follows lx (unchecked (push_tok kind lx.pos 2 0 (advance c cs read)))
  long kind c cs e plain =
      let l' = advance-Later c cs read in
      let h' = advance-IsLexing c cs read e h in
      record {
        after =
            unchecked_push lx (advance c cs read) h' (Later-trans l l') (omega (arith, l'.pos_le))
              kind lx.pos 2 0 plain
              (ground (
                arith,
                inside (advance c cs read) h',
                (advance-pos c cs read).0,
                l'.same_src,
                l.same_src,
              ));
      }

  abbrev ShortPlain : Option TokenKind → Type 0
  ShortPlain none = Unit
  ShortPlain (some kind) = IsPlain kind

  two :
      (second : ℕ) (kind : TokenKind) (o : Option TokenKind) (r : List ℕ)
      → read.rest ≡ r
      → IsPlain kind
      → ShortPlain o
      → Follows lx (two_chars second kind o lx.pos r read)
  two second kind none [] e plain so = record { after = tt }
  two second kind (some k) [] e plain so = short k so
  two second kind none (c ∷ cs) e plain so =
      Follows-if (c == second) _ _ (long kind c cs e plain) (record { after = tt })
  two second kind (some k) (c ∷ cs) e plain so =
      Follows-if (c == second) _ _ (long kind c cs e plain) (short k so)

  lex_operator-Follows : (c : ℕ) → Follows lx (lex_operator c lx.pos read)
  unfolding lex_operator
  lex_operator-Follows c = Follows-if (c == b'+') _ _ (short plus (refl, refl)) (
      Follows-if (c == b'-') _ _ (short minus (refl, refl)) (
        Follows-if (c == b'*') _ _ (short star (refl, refl)) (
          Follows-if (c == b'/') _ _
            (two b'/' slash (some slash) read.rest refl (refl, refl) (refl, refl))
            (Follows-if (c == b'%') _ _ (short percent (refl, refl)) (
              Follows-if (c == b'(') _ _ (short lparen (refl, refl)) (
                Follows-if (c == b')') _ _ (short rparen (refl, refl)) (
                  Follows-if (c == b'[') _ _ (short lbrack (refl, refl)) (
                    Follows-if (c == b']') _ _ (short rbrack (refl, refl)) (
                      Follows-if (c == b':') _ _ (short colon (refl, refl)) (
                        Follows-if (c == b',') _ _ (short comma (refl, refl)) (
                          Follows-if (c == b'=') _ _
                            (two b'=' eqeq (some eq) read.rest refl (refl, refl) (refl, refl))
                            (Follows-if (c == b'!') _ _
                              (two b'=' ne none read.rest refl (refl, refl) tt)
                              (Follows-if (c == b'<') _ _
                                (two b'=' le (some lt) read.rest refl (refl, refl) (refl, refl))
                                (Follows-if (c == b'>') _ _
                                  (two b'=' ge (some gt) read.rest refl (refl, refl) (refl, refl))
                                  (record { after = tt })))))))))))))))

checked_newline :
    (lx : Lexer) (r : Bool × Lexer)
    → IsLexing r.1
    → Later lx r.1
    → lx.pos < r.1.pos
    → Follows lx (
        let (pushed, lx') = r in
        if pushed then next (record lx' { at_line_start = true }) else fail lx')
checked_newline lx (false, lx') h l p = record { after = tt }
checked_newline lx (true, lx') h l p = record {
  after = (
    record {
      place = h.place;
      spans = h.spans;
      balance = h.balance;
      stack = h.stack;
      depth = h.depth;
      size = h.size;
      settled = h.settled;
      faults = h.faults;
    },
    record { same_src = l.same_src; pos_le = l.pos_le },
    p,
  );
}

module _ (lx : Lexer) (h : IsLexing lx) (c : ℕ) (cs : List ℕ) (e : lx.rest ≡ c ∷ cs) where
  lex_char-Follows : Follows lx (lex_char c cs lx)
  unfolding lex_char
  lex_char-Follows =
      let read = advance c cs lx in
      let h' = advance-IsLexing c cs lx e h in
      let l' = advance-Later c cs lx in
      let lt : lx.pos < read.pos = omega (arith, (advance-pos c cs lx).0) in
      let r = push_tok newline (read.pos - 1) 1 0 read in
      let l'' = push_tok-Later newline (read.pos - 1) 1 0 read in
      let not_line = λ (d : ℕ). not (d == newline_char) in
      let blank = c == b' ' || (c == tab_char) || (c == 13) in
      Follows-if blank _ _ (record { after = (h', l', lt) })
        (comment (
          Follows-if (c == newline_char) _ _
            (checked_newline lx r
              (push_tok-IsLexing newline (read.pos - 1) 1 0 read h' refl refl
                (omega (arith, inside read h')))
              (Later-trans l' l'') (omega (arith, l''.pos_le)))
            (word (
              number_or (
                Follows-if (c == b'"' || (c == b'\'')) _ _
                  (record { after = lex_string-After lx c cs h e })
                  (lex_operator-Follows lx read h' l' lt c))))))
    where
      word : {o : Outcome} → Follows lx o → Follows lx (if is_alpha c then lex_word lx else o)
      word {o} f = elim (Bool-cases (is_alpha c)) [
        | inl yes_ ↦ rw yes_ (record { after = lex_word-After lx h c cs e yes_ })
        | inr no_ ↦ rw no_ f
      ]

      number_or :
          {o : Outcome} → Follows lx o → Follows lx (if is_digit c then lex_number lx else o)
      number_or {o} f = elim (Bool-cases (is_digit c)) [
        | inl yes_ ↦ rw yes_ (record { after = lex_number-After lx h c cs e yes_ })
        | inr no_ ↦ rw no_ f
      ]

      comment :
          {o : Outcome}
          → Follows lx o
          → Follows lx
              (if c == b'#' then next (skip (λ d. not (d == newline_char)) lx.rest lx) else o)
      comment {o} f = elim (Bool-cases (c == b'#')) [
        | inl yes_ ↦
            let p = λ (d : ℕ). not (d == newline_char) in
            let (h', l) = skip-IsLexing p lx.rest lx refl h in
            let lt : lx.pos < (skip p lx.rest lx).pos =
              subst (λ r. lx.pos < (skip p r lx).pos) (sym e)
                (skip-lt p c cs lx e h (ground arith)) in
            rw yes_ (record { after = (h', l, lt) })
        | inr no_ ↦ rw no_ f
      ]

lex_rest-After : (lx : Lexer) (r : List ℕ) → lx.rest ≡ r → IsLexing lx → After lx (lex_rest r lx)
unfolding lex_rest
lex_rest-After lx [] e h = (h, Later-refl lx)
lex_rest-After lx (c ∷ cs) e h = (lex_char-Follows lx h c cs e).after

After-Later : (lx lx' : Lexer) (o : Outcome) → Later lx lx' → After lx' o → After lx o
After-Later lx lx' (next lx'') l h = (h.0, Later-trans l h.1, omega (arith, l.pos_le, h.2))
After-Later lx lx' (stop lx'') l h = (h.0, Later-trans l h.1)
After-Later lx lx' (fail lx'') l h = tt

after_indent-After :
    (lx : Lexer) (o : Bool × Lexer)
    → (o.0 ≡ true → IsLexing o.1 × Later lx o.1)
    → After lx (after_indent o)
after_indent-After lx (false, lx') h = tt
after_indent-After lx (true, lx') h =
    let (h', l) = h refl in
    After-Later lx lx' (lex_rest lx'.rest lx') l (lex_rest-After lx' lx'.rest refl h')

-- A round that goes on has moved on in the source, and keeps the invariant.
pub lex_round-After : (lx : Lexer) → IsLexing lx → After lx (lex_round lx)
unfolding lex_round
lex_round-After lx h =
    let none_pending : ltb 0 lx.pending_dedents ≡ false = ground (arith, h.settled) in
    let begun = record lx { at_line_start = false } in
    let h' : IsLexing begun = record {
      place = h.place;
      spans = h.spans;
      balance = h.balance;
      stack = h.stack;
      depth = h.depth;
      size = h.size;
      settled = h.settled;
      faults = h.faults;
    } in
    rw none_pending
      (Follows-if lx.at_line_start _ _
        (record {
          after =
              After-Later lx begun (after_indent (emit_indent begun))
                (record { same_src = refl; pos_le = omega arith })
                (after_indent-After begun (emit_indent begun) (emit_indent-IsLexing begun h'));
        })
        (record { after = lex_rest-After lx lx.rest refl h })).after
