-- ===== src/Lex/Valid.antt =====
-- The lexer's invariant, and that the helper functions keep it.
use zeros_i.Base.{
  ℕ, ◌+◌, ◌≤◌, ◌<◌, ◌≡◌, refl, Bool, true, none, List, [], ◌∷◌, ◌++◌, leb, ◌==◌, length,
  length-append, arith, Bool-cases, ◌⊎◌, inl, inr,
}
use zeros_i.Lex.{
  TokenKind, indent, dedent, Token, Lexer, max_tokens, newline_char, advance, push_tok, skip,
}

abbrev pub is_indent : TokenKind → ℕ
is_indent indent = 1
is_indent _ = 0

abbrev pub is_dedent : TokenKind → ℕ
is_dedent dedent = 1
is_dedent _ = 0

-- How many tokens open a block, and how many close one.
unfoldable pub opened : List Token → ℕ
opened [] = 0
opened (t ∷ ts) = is_indent t.kind + opened ts

unfoldable pub closed : List Token → ℕ
closed [] = 0
closed (t ∷ ts) = is_dedent t.kind + closed ts

-- Each token lies inside the first `n` characters.
abbrev pub Spans : ℕ → List Token → Type 0
Spans n [] = Unit
Spans n (t ∷ ts) = (t.start + t.len ≤ n) × Spans n ts

-- The bottom entry is 0, and each entry is larger than the one below it.
abbrev pub IsStack : List ℕ → Type 0
IsStack [] = ⊥
IsStack (i ∷ []) = i ≡ 0
IsStack (i ∷ j ∷ below) = (j < i) × IsStack (j ∷ below)

pub record IsLexing (lx : Lexer) : Type 0 where
  pub place : lx.pos + length lx.rest ≡ length lx.src
  pub spans : Spans (length lx.src) lx.tokens
  pub balance : opened lx.tokens + 1 ≡ closed lx.tokens + length lx.indents
  pub stack : IsStack lx.indents
  pub depth : length lx.indents ≤ 32
  pub size : length lx.tokens ≤ max_tokens
  pub settled : lx.pending_dedents ≡ 0
  pub faults : (lx.fault ≡ none) ⊎ (max_tokens ≤ length lx.tokens)

-- A later state of the same run.
pub record Later (lx lx' : Lexer) : Type 0 where
  pub same_src : lx'.src ≡ lx.src
  pub pos_le : lx.pos ≤ lx'.pos

pub Later-refl : (lx : Lexer) → Later lx lx
Later-refl lx = record { same_src = refl; pos_le = omega arith }

pub Later-trans : {a b c : Lexer} → Later a b → Later b c → Later a c
Later-trans p q = record {
  same_src = ground (arith, p.same_src, q.same_src);
  pos_le = omega (arith, p.pos_le, q.pos_le);
}

pub opened-snoc :
    (ts : List Token) (t : Token) → opened (ts ++ (t ∷ [])) ≡ opened ts + is_indent t.kind
unfolding opened
opened-snoc [] t = omega arith
opened-snoc (u ∷ ts) t = omega (arith, opened-snoc ts t)

pub closed-snoc :
    (ts : List Token) (t : Token) → closed (ts ++ (t ∷ [])) ≡ closed ts + is_dedent t.kind
unfolding closed
closed-snoc [] t = omega arith
closed-snoc (u ∷ ts) t = omega (arith, closed-snoc ts t)

pub Spans-snoc :
    (n : ℕ) (ts : List Token) (t : Token)
    → Spans n ts
    → t.start + t.len ≤ n
    → Spans n (ts ++ (t ∷ []))
Spans-snoc n [] t h k = (k, tt)
Spans-snoc n (u ∷ ts) t h k = (h.0, Spans-snoc n ts t h.1 k)

-- A push leaves the position alone.
pub push_tok-Later :
    (kind : TokenKind) (start len value : ℕ) (lx : Lexer)
    → Later lx (push_tok kind start len value lx).1
unfolding push_tok
push_tok-Later kind start len value lx = record { same_src = ground arith; pos_le = ground arith }

-- A push keeps the invariant, if the stack is already that of the token pushed; a failing push
-- needs the old stack to match.
pub push_tok-IsLexing :
    (kind : TokenKind) (start len value : ℕ) (lx : Lexer)
    → IsLexing lx
    → is_indent kind ≡ 0
    → is_dedent kind ≡ 0
    → start + len ≤ length lx.src
    → IsLexing (push_tok kind start len value lx).1
unfolding push_tok
push_tok-IsLexing kind start len value lx h i d span =
    elim (Bool-cases (leb max_tokens (length lx.tokens))) [
      | inl full ↦ rw full (record {
        place = h.place;
        spans = h.spans;
        balance = h.balance;
        stack = h.stack;
        depth = h.depth;
        size = h.size;
        settled = h.settled;
        faults = inr (ground arith);
      })
      | inr room ↦
          let t : Token = record {
            kind = kind;
            start = start;
            len = len;
            value = value;
            line = lx.line;
            col = lx.col;
          } in
          rw room (record {
            place = h.place;
            spans = Spans-snoc (length lx.src) lx.tokens t h.spans span;
            balance = omega (arith, h.balance, opened-snoc lx.tokens t, closed-snoc lx.tokens t);
            stack = h.stack;
            depth = h.depth;
            size = ground (arith, length-append lx.tokens (t ∷ []));
            settled = h.settled;
            faults = ground (arith, h.faults, length-append lx.tokens (t ∷ []));
          })
    ]

pub advance-Later : (c : ℕ) (cs : List ℕ) (lx : Lexer) → Later lx (advance c cs lx)
unfolding advance
advance-Later c cs lx = record { same_src = ground arith; pos_le = ground arith }

pub advance-pos :
    (c : ℕ) (cs : List ℕ) (lx : Lexer)
    → ((advance c cs lx).pos ≡ lx.pos + 1) × ((advance c cs lx).rest ≡ cs)
unfolding advance
advance-pos c cs lx = (ground arith, ground arith)

pub advance-IsLexing :
    (c : ℕ) (cs : List ℕ) (lx : Lexer) → lx.rest ≡ c ∷ cs → IsLexing lx → IsLexing (advance c cs lx)
unfolding advance
advance-IsLexing c cs lx e h =
    let at : lx.pos + 1 + length cs ≡ length lx.src = ground (arith, h.place) in
    elim (Bool-cases (c == newline_char)) [
      | inl line ↦ rw line (record {
        place = at;
        spans = h.spans;
        balance = h.balance;
        stack = h.stack;
        depth = h.depth;
        size = h.size;
        settled = h.settled;
        faults = h.faults;
      })
      | inr plain ↦ rw plain (record {
        place = at;
        spans = h.spans;
        balance = h.balance;
        stack = h.stack;
        depth = h.depth;
        size = h.size;
        settled = h.settled;
        faults = h.faults;
      })
    ]

-- Skipping moves on by a number of characters, all of which pass the test.
pub skip-IsLexing :
    (p : ℕ → Bool) (r : List ℕ) (lx : Lexer)
    → lx.rest ≡ r
    → IsLexing lx
    → IsLexing (skip p r lx) × Later lx (skip p r lx)
unfolding skip
skip-IsLexing p [] lx e h = (h, Later-refl lx)
skip-IsLexing p (c ∷ cs) lx e h = elim (Bool-cases (p c)) [
  | inr stays ↦ rw stays (h, Later-refl lx)
  | inl goes ↦
      let (h', later) =
        skip-IsLexing p cs (advance c cs lx) (advance-pos c cs lx).1
          (advance-IsLexing c cs lx e h) in
      rw goes (h', Later-trans (advance-Later c cs lx) later)
]

-- At a character that passes, skipping moves on.
pub skip-lt :
    (p : ℕ → Bool) (c : ℕ) (cs : List ℕ) (lx : Lexer)
    → lx.rest ≡ c ∷ cs
    → IsLexing lx
    → p c ≡ true
    → lx.pos < (skip p (c ∷ cs) lx).pos
unfolding skip
skip-lt p c cs lx e h goes =
    let (h', later) =
      skip-IsLexing p cs (advance c cs lx) (advance-pos c cs lx).1 (advance-IsLexing c cs lx e h) in
    rw goes (omega (arith, later.pos_le, advance-pos c cs lx))
