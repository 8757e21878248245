-- ===== src/Lex/Total.antt =====
-- `mp_lex` ends, and what its result is when it succeeds.
use zeros_i.Base.{
  ℕ, zero, suc, ◌+◌, ◌≤◌, ◌<◌, ◌≡◌, refl, subst, Bool, true, false, none, List, [], ◌∷◌, ◌++◌, leb,
  if◌then◌else◌, length, length-append, arith, Bool-cases, inl, inr,
}
use zeros_i.Lex.{eof, dedent, Token, Lexer, max_tokens, push_tok}
use zeros_i.Lex.Scan.{
  Outcome, next, stop, fail, lex_round, goes_on, LexResult, lexed, failed, out_of_fuel, lex_loop,
  close_blocks, finish, start_lexer, mp_lex,
}
use zeros_i.Lex.Valid.{
  IsLexing, Spans, Later, Later-refl, Later-trans, opened, closed, opened-snoc, closed-snoc,
  Spans-snoc,
}
use zeros_i.Lex.Indent.{push_block}
use zeros_i.Lex.Steps.{After}
use zeros_i.Lex.Rounds.{lex_round-After}

-- The loop's regular end keeps the invariant, and with fuel for what is left it is not cut short.
abbrev LoopSpec : Lexer → LexResult → Type 0
LoopSpec lx (lexed lx') = IsLexing lx' × Later lx lx'
LoopSpec lx (failed lx') = Unit
LoopSpec lx out_of_fuel = ⊥

LoopSpec-Later : (lx lx' : Lexer) (r : LexResult) → Later lx lx' → LoopSpec lx' r → LoopSpec lx r
LoopSpec-Later lx lx' (lexed lx'') l h = (h.0, Later-trans l h.1)
LoopSpec-Later lx lx' (failed lx'') l h = tt
LoopSpec-Later lx lx' out_of_fuel l h = h

-- A round that goes on leaves the rest to the loop.
round-Spec :
    (lx : Lexer) (fuel : ℕ) (o : Outcome)
    → After lx o
    → ((lx' : Lexer)
        → IsLexing lx'
        → length lx'.src < lx'.pos + fuel
        → LoopSpec lx' (lex_loop fuel lx'))
    → length lx.src < lx.pos + suc fuel
    → LoopSpec lx
        (elim o [ next lx' ↦ lex_loop fuel lx' | stop lx' ↦ lexed lx' | fail lx' ↦ failed lx' ])
round-Spec lx fuel (next lx') a ih enough =
    LoopSpec-Later lx lx' (lex_loop fuel lx') a.1 (ih lx' a.0 (ground (arith, a.1.same_src, a.2)))
round-Spec lx fuel (stop lx') a ih enough = a
round-Spec lx fuel (fail lx') a ih enough = tt

test-Spec :
    (lx : Lexer) (b : Bool) (r : LexResult)
    → LoopSpec lx (lexed lx)
    → LoopSpec lx r
    → LoopSpec lx (elim b [ false ↦ lexed lx | true ↦ r ])
test-Spec lx false r done go = done
test-Spec lx true r done go = go

lex_loop-Spec :
    (fuel : ℕ) (lx : Lexer)
    → IsLexing lx
    → length lx.src < lx.pos + fuel
    → LoopSpec lx (lex_loop fuel lx)
unfolding lex_loop
lex_loop-Spec zero lx h enough = omega (arith, h.place)
lex_loop-Spec (suc fuel) lx h enough =
    test-Spec lx (goes_on lx) _ (h, Later-refl lx)
      (round-Spec lx fuel (lex_round lx) (lex_round-After lx h) (lex_loop-Spec fuel) enough)

-- A successful run: the tokens fit the table, lie inside the source, end with the end marker, open
-- and close equally many blocks, and none was dropped for want of room.
pub record IsLexed (src : List ℕ) (lx : Lexer) : Type 0 where
  pub same_src : lx.src ≡ src
  pub spans : Spans (length src) lx.tokens
  pub balance : opened lx.tokens ≡ closed lx.tokens
  pub size : length lx.tokens ≤ max_tokens
  pub last : (before : List Token) × (t : Token) × (lx.tokens ≡ before ++ (t ∷ [])) × (t.kind ≡ eof)
  pub no_fault : lx.fault ≡ none

abbrev pub LexSpec : List ℕ → LexResult → Type 0
LexSpec src (lexed lx) = IsLexed src lx
LexSpec src (failed lx) = Unit
LexSpec src out_of_fuel = ⊥

push_eof-Spec :
    (lx : Lexer)
    → IsLexing lx
    → length lx.indents ≡ 1
    → LexSpec lx.src
        (let (pushed, lx') = push_tok eof lx.pos 0 0 lx in if pushed then lexed lx' else failed lx')
unfolding push_tok
push_eof-Spec lx h e = elim (Bool-cases (leb max_tokens (length lx.tokens))) [
  | inl full ↦ rw full tt
  | inr room ↦
      let t : Token = record {
        kind = eof;
        start = lx.pos;
        len = 0;
        value = 0;
        line = lx.line;
        col = lx.col;
      } in
      rw room (record {
        same_src = refl;
        spans = Spans-snoc (length lx.src) lx.tokens t h.spans (omega (arith, h.place));
        balance = omega (arith, h.balance, opened-snoc lx.tokens t, closed-snoc lx.tokens t);
        size = ground (arith, length-append lx.tokens (t ∷ []));
        last = (lx.tokens, t, refl, refl);
        no_fault = ground (arith, h.faults);
      })
]

close_blocks-Spec :
    (st : List ℕ) (lx : Lexer) → lx.indents ≡ st → IsLexing lx → LexSpec lx.src (close_blocks st lx)
unfolding close_blocks
close_blocks-Spec [] lx e h = tt
close_blocks-Spec (i ∷ []) lx e h = push_eof-Spec lx h (ground arith)
close_blocks-Spec (i ∷ j ∷ below) lx e h =
    let r = push_tok dedent lx.pos 0 0 (record lx { indents = j ∷ below }) in
    elim (Bool-cases r.0) [
      | inr full ↦ rw full tt
      | inl pushed ↦
          let stack = rw e at h.stack in
          let (h', stays, e') =
            push_block dedent (j ∷ below) lx h stack.1 (ground (arith, h.depth))
              (inl (refl, ground arith)) pushed in
          rw pushed (
            subst (λ s. LexSpec s (close_blocks (j ∷ below) r.1)) stays.same_src
              (close_blocks-Spec (j ∷ below) r.1 e' h'))
    ]

start_lexer-IsLexing : (src : List ℕ) → IsLexing (start_lexer src)
unfolding opened closed
start_lexer-IsLexing src = record {
  place = omega arith;
  spans = tt;
  balance = refl;
  stack = refl;
  depth = omega arith;
  size = omega arith;
  settled = refl;
  faults = inl refl;
}

finish-Spec : (src : List ℕ) (r : LexResult) → LoopSpec (start_lexer src) r → LexSpec src (finish r)
finish-Spec src (lexed lx) h =
    subst (λ s. LexSpec s (close_blocks lx.indents lx)) h.1.same_src
      (close_blocks-Spec lx.indents lx refl h.0)
finish-Spec src (failed lx) h = tt
finish-Spec src out_of_fuel h = h

-- The lexer ends on every source, within one round for each character and one more. Where it
-- succeeds, the tokens fit the table of 256, lie inside the source, open and close equally many
-- blocks and end with the end marker, and no fault was recorded.
pub mp_lex-Spec : (src : List ℕ) → LexSpec src (mp_lex src)
unfolding mp_lex
mp_lex-Spec src =
    finish-Spec src (lex_loop (length src + 1) (start_lexer src))
      (lex_loop-Spec (length src + 1) (start_lexer src) (start_lexer-IsLexing src) (omega arith))
