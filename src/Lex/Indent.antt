-- ===== src/Lex/Indent.antt =====
-- The indentation stack: `emit_indent` keeps the invariant where it succeeds.
use zeros_i.Base.{
  ℕ, ◌+◌, ◌-◌, ◌≤◌, ◌<◌, ◌≡◌, refl, Bool, true, false, ◌||◌, some, List, [], ◌∷◌, ltb, leb, ◌==◌,
  if◌then◌else◌, get_or, length, length-append, arith, Bool-cases, ◌⊎◌, inl, inr,
}
use zeros_i.Lex.{
  TokenKind, indent, dedent, Token, Lexer, inconsistent, max_tokens, newline_char, tab_char,
  push_tok, skip, top, pop_indents, set_indent, emit_indent, peek,
}
use zeros_i.Lex.Valid.{
  IsLexing, IsStack, Later, opened-snoc, closed-snoc, Spans-snoc, skip-IsLexing,
}

-- A state at the same place.
pub record Stays (lx lx' : Lexer) : Type 0 where
  pub same_src : lx'.src ≡ lx.src
  pub same_pos : lx'.pos ≡ lx.pos
  pub same_rest : lx'.rest ≡ lx.rest

abbrev pub Settled : Lexer → Bool × Lexer → Type 0
Settled lx (true, lx') = IsLexing lx' × Stays lx lx'
Settled lx (false, lx') = Unit

Stays-refl : (lx : Lexer) → Stays lx lx
Stays-refl lx = record { same_src = refl; same_pos = refl; same_rest = refl }

-- A block token with the stack that goes with it.
pub push_block :
    (kind : TokenKind) (st : List ℕ) (lx : Lexer)
    → IsLexing lx
    → IsStack st
    → length st ≤ 32
    → (kind ≡ dedent) × (length lx.indents ≡ length st + 1)
      ⊎ (kind ≡ indent) × (length st ≡ length lx.indents + 1)
    → let (pushed, lx') = push_tok kind lx.pos 0 0 (record lx { indents = st }) in
      pushed ≡ true → IsLexing lx' × Stays lx lx' × (lx'.indents ≡ st)
unfolding push_tok
push_block kind st lx h stack deep change pushed =
    elim (Bool-cases (leb max_tokens (length lx.tokens))) [
      | inl full ↦ absurd (ground arith)
      | inr room ↦
          let t : Token = record {
            kind = kind;
            start = lx.pos;
            len = 0;
            value = 0;
            line = lx.line;
            col = lx.col;
          } in
          rw room (
            record {
              place = h.place;
              spans = Spans-snoc (length lx.src) lx.tokens t h.spans (omega (arith, h.place));
              balance = ground (arith, h.balance, opened-snoc lx.tokens t, closed-snoc lx.tokens t);
              stack = stack;
              depth = deep;
              size = ground (arith, length-append lx.tokens (t ∷ []));
              settled = h.settled;
              faults = ground (arith, h.faults, length-append lx.tokens (t ∷ []));
            },
            record { same_src = refl; same_pos = refl; same_rest = refl },
            refl,
          )
    ]

Settled-trans : (lx lx' : Lexer) (o : Bool × Lexer) → Stays lx lx' → Settled lx' o → Settled lx o
Settled-trans lx lx' (true, lx'') s h = (
  h.0,
  record {
    same_src = ground (arith, s.same_src, h.1.same_src);
    same_pos = ground (arith, s.same_pos, h.1.same_pos);
    same_rest = ground (arith, s.same_rest, h.1.same_rest);
  },
)
Settled-trans lx lx' (false, lx'') s h = tt

settled-Later :
    (lx lx' : Lexer) (o : Bool × Lexer)
    → Later lx lx'
    → Settled lx' o
    → o.0 ≡ true
    → IsLexing o.1 × Later lx o.1
settled-Later lx lx' (true, lx'') l h ok = (
  h.0,
  record {
    same_src = ground (arith, l.same_src, h.1.same_src);
    pos_le = ground (arith, l.pos_le, h.1.same_pos);
  },
)
settled-Later lx lx' (false, lx'') l h ok = absurd (ground arith)

settled_if :
    (lx : Lexer) (o : Bool × Lexer) → (o.0 ≡ true → IsLexing o.1 × Stays lx o.1) → Settled lx o
settled_if lx (true, lx') h = h refl
settled_if lx (false, lx') h = tt

IsStack-push : (st : List ℕ) (n : ℕ) → IsStack st → get_or st 0 0 < n → IsStack (n ∷ st)
IsStack-push [] n h lt = absurd h
IsStack-push (i ∷ []) n h lt = (lt, h)
IsStack-push (i ∷ j ∷ below) n h lt = (lt, h)

-- A failing push settles nothing, a succeeding one does.
pushed :
    (spaces : ℕ) (lx : Lexer)
    → IsLexing lx
    → ltb (top lx) spaces ≡ true
    → leb 32 (length lx.indents) ≡ false
    → Settled lx (push_tok indent lx.pos 0 0 (record lx { indents = spaces ∷ lx.indents }))
pushed spaces lx h more fits =
    settled_if lx (push_tok indent lx.pos 0 0 (record lx { indents = spaces ∷ lx.indents })) (λ ok.
      let (h', s, e) =
        push_block indent (spaces ∷ lx.indents) lx h
          (IsStack-push lx.indents spaces h.stack (ground arith)) (ground arith)
          (inr (refl, omega arith)) ok in
      (h', s))

abbrev pop_indents_state : ℕ → Lexer → Lexer
pop_indents_state spaces lx = (pop_indents spaces lx.indents lx).1

pub pop_indents-Settled :
    (spaces : ℕ) (st : List ℕ) (lx : Lexer)
    → lx.indents ≡ st
    → IsLexing lx
    → Settled lx (pop_indents spaces st lx)
unfolding pop_indents
pop_indents-Settled spaces [] lx e h = (h, Stays-refl lx)
pop_indents-Settled spaces (i ∷ []) lx e h = (h, Stays-refl lx)
pop_indents-Settled spaces (i ∷ j ∷ below) lx e h =
    let stack = rw e at h.stack in
    let lx' = (push_tok dedent lx.pos 0 0 (record lx { indents = j ∷ below })).1 in
    elim (Bool-cases (ltb spaces i)) [
      | inr stay ↦ rw stay (h, Stays-refl lx)
      | inl deeper ↦
          elim (Bool-cases (push_tok dedent lx.pos 0 0 (record lx { indents = j ∷ below })).0) [
            | inr full ↦ rw (deeper, full) tt
            | inl pushed ↦
                let (h', stays, e') =
                  push_block dedent (j ∷ below) lx h stack.1 (ground (arith, h.depth))
                    (inl (refl, ground arith)) pushed in
                rw (deeper, pushed)
                  (Settled-trans lx lx' (pop_indents spaces (j ∷ below) lx') stays
                    (pop_indents-Settled spaces (j ∷ below) lx' e' h'))
          ]
    ]

compared-Settled :
    (spaces : ℕ) (lx : Lexer) (b : Bool)
    → Settled lx (b, pop_indents_state spaces lx)
    → Settled lx (
        if b
        then (if top (pop_indents_state spaces lx) == spaces
            then (true, pop_indents_state spaces lx)
            else (false, record (pop_indents_state spaces lx) { fault = some inconsistent }))
        else (false, pop_indents_state spaces lx))
compared-Settled spaces lx false h = tt
compared-Settled spaces lx true h =
    elim (Bool-cases (top (pop_indents_state spaces lx) == spaces)) [
      | inl same ↦ rw same h
      | inr other ↦ rw other tt
    ]

set_indent-Settled : (spaces : ℕ) (lx : Lexer) → IsLexing lx → Settled lx (set_indent spaces lx)
unfolding set_indent
set_indent-Settled spaces lx h =
    let blank = peek lx == newline_char || (peek lx == b'#') || (peek lx == 0) in
    elim (Bool-cases blank) [
      | inl empty ↦ rw empty (h, Stays-refl lx)
      | inr text ↦ elim (Bool-cases (peek lx == tab_char)) [
        | inl tab ↦ rw (text, tab) tt
        | inr no_tab ↦ elim (Bool-cases (spaces == top lx)) [
          | inl same ↦ rw (text, no_tab, same) (h, Stays-refl lx)
          | inr differ ↦ elim (Bool-cases (ltb (top lx) spaces)) [
            | inr less ↦
                rw (text, no_tab, differ, less)
                  (compared-Settled spaces lx (pop_indents spaces lx.indents lx).0
                    (pop_indents-Settled spaces lx.indents lx refl h))
            | inl more ↦ elim (Bool-cases (leb 32 (length lx.indents))) [
              | inl deep ↦ rw (text, no_tab, differ, more, deep) tt
              | inr fits ↦ rw (text, no_tab, differ, more, fits) (pushed spaces lx h more fits)
            ]
          ]
        ]
      ]
    ]

-- The line's spaces are read, and the stack is set for them.
pub emit_indent-IsLexing :
    (lx : Lexer)
    → IsLexing lx
    → (emit_indent lx).0 ≡ true
    → IsLexing (emit_indent lx).1 × Later lx (emit_indent lx).1
unfolding emit_indent
emit_indent-IsLexing lx h ok =
    let lx' = skip (λ c. c == b' ') lx.rest lx in
    let (h', later) = skip-IsLexing (λ c. c == b' ') lx.rest lx refl h in
    settled-Later lx lx' (set_indent (lx'.pos - lx.pos) lx') later
      (set_indent-Settled (lx'.pos - lx.pos) lx' h') ok
