-- ===== src/Lex/Steps.antt =====
-- One round of the loop keeps the invariant and moves on in the source.
use zeros_i.Base.{
  ℕ, ◌+◌, ◌-◌, ◌≤◌, ◌<◌, ◌≡◌, refl, sym, subst, Bool, true, false, List, [], ◌∷◌, length, take,
  arith, Bool-cases, inl, inr,
}
use zeros_i.Lex.{
  TokenKind, number, Lexer, push_tok, skip, keyword, keywords, keyword_in, matches, is_alpha,
  is_digit, is_alnum,
}
use zeros_i.Lex.Scan.{
  Outcome, next, stop, fail, checked, unchecked, lex_word, lex_number, digits_value,
}
use zeros_i.Lex.Valid.{
  is_indent, is_dedent, IsLexing, Later, Later-trans, push_tok-IsLexing, push_tok-Later,
  skip-IsLexing, skip-lt,
}

-- What a round leaves of the invariant, by how it ends.
abbrev pub After : Lexer → Outcome → Type 0
After lx (next lx') = IsLexing lx' × Later lx lx' × (lx.pos < lx'.pos)
After lx (stop lx') = IsLexing lx' × Later lx lx'
After lx (fail lx') = Unit

abbrev pub IsPlain : TokenKind → Type 0
IsPlain k = (is_indent k ≡ 0) × (is_dedent k ≡ 0)

pub checked-After :
    (lx : Lexer) (r : Bool × Lexer)
    → IsLexing r.1
    → Later lx r.1
    → lx.pos < r.1.pos
    → After lx (checked r)
checked-After lx (true, lx') h l p = (h, l, p)
checked-After lx (false, lx') h l p = tt

pub unchecked-After :
    (lx : Lexer) (r : Bool × Lexer)
    → IsLexing r.1
    → Later lx r.1
    → lx.pos < r.1.pos
    → After lx (unchecked r)
unchecked-After lx (pushed, lx') h l p = (h, l, p)

-- A token pushed at a state further on.
module _ (lx lx' : Lexer) (h : IsLexing lx') (l : Later lx lx') (p : lx.pos < lx'.pos)
    (kind : TokenKind) (start len value : ℕ) (plain : IsPlain kind)
    (span : start + len ≤ length lx.src) where
  pub checked_push : After lx (checked (push_tok kind start len value lx'))
  checked_push =
      let l' = push_tok-Later kind start len value lx' in
      checked-After lx (push_tok kind start len value lx')
        (push_tok-IsLexing kind start len value lx' h plain.0 plain.1 (ground (arith, l.same_src)))
        (Later-trans l l') (omega (arith, l'.pos_le))

  pub unchecked_push : After lx (unchecked (push_tok kind start len value lx'))
  unchecked_push =
      let l' = push_tok-Later kind start len value lx' in
      unchecked-After lx (push_tok kind start len value lx')
        (push_tok-IsLexing kind start len value lx' h plain.0 plain.1 (ground (arith, l.same_src)))
        (Later-trans l l') (omega (arith, l'.pos_le))

-- A state whose position lies inside the source.
pub inside : (lx : Lexer) → IsLexing lx → lx.pos ≤ length lx.src
inside lx h = omega (arith, h.place)

AllPlain : List (List ℕ × TokenKind) → Type 0
AllPlain [] = Unit
AllPlain ((k, kind) ∷ rest) = IsPlain kind × AllPlain rest

keyword_in-IsPlain :
    (table : List (List ℕ × TokenKind)) (s : List ℕ) → AllPlain table → IsPlain (keyword_in table s)
unfolding keyword_in AllPlain
keyword_in-IsPlain [] s h = (refl, refl)
keyword_in-IsPlain ((k, kind) ∷ rest) s h = elim (Bool-cases (matches k s)) [
  | inl hit ↦ rw hit h.0
  | inr miss ↦ rw miss (keyword_in-IsPlain rest s h.1)
]

keyword-IsPlain : (s : List ℕ) → IsPlain (keyword s)
unfolding keyword AllPlain
keyword-IsPlain s = keyword_in-IsPlain keywords s (omega arith)

module _ (lx : Lexer) (h : IsLexing lx) (c : ℕ) (cs : List ℕ) (e : lx.rest ≡ c ∷ cs) where
  pub lex_word-After : is_alpha c ≡ true → After lx (lex_word lx)
  unfolding lex_word
  lex_word-After alpha =
      let lx' = skip is_alnum lx.rest lx in
      let (h', l) = skip-IsLexing is_alnum lx.rest lx refl h in
      let lt : lx.pos < lx'.pos =
        subst (λ r. lx.pos < (skip is_alnum r lx).pos) (sym e)
          (skip-lt is_alnum c cs lx e h (ground arith)) in
      let span : lx.pos + (lx'.pos - lx.pos) ≤ length lx.src =
        ground (arith, inside lx' h', l.same_src) in
      checked_push lx lx' h' l lt (keyword (take (lx'.pos - lx.pos) lx.rest)) lx.pos
        (lx'.pos - lx.pos) 0 (keyword-IsPlain (take (lx'.pos - lx.pos) lx.rest)) span

  pub lex_number-After : is_digit c ≡ true → After lx (lex_number lx)
  unfolding lex_number
  lex_number-After digit =
      let lx' = skip is_digit lx.rest lx in
      let (h', l) = skip-IsLexing is_digit lx.rest lx refl h in
      let lt : lx.pos < lx'.pos =
        subst (λ r. lx.pos < (skip is_digit r lx).pos) (sym e)
          (skip-lt is_digit c cs lx e h digit) in
      let span : lx.pos + (lx'.pos - lx.pos) ≤ length lx.src =
        ground (arith, inside lx' h', l.same_src) in
      checked_push lx lx' h' l lt number lx.pos (lx'.pos - lx.pos)
        (digits_value 0 (take (lx'.pos - lx.pos) lx.rest)) (refl, refl) span
