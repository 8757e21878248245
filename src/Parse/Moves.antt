-- ===== src/Parse/Moves.antt =====
-- A step of the parser ends, and goes forward inside the tokens.
use zeros_i.Base.{
  ℕ, ◌+◌, ◌-◌, ◌%◌, ◌≤◌, ◌<◌, ◌≡◌, true, false, ltb, leb, ◌==◌, get_or, length, arith, Bool-cases,
  inl, inr,
}
use zeros_i.Memory.{word}
use zeros_i.Lex.{Lexer, Token, TokenKind}
use zeros_i.Parse.{
  Parser, Parse, got, null, out_of_fuel, Step, then_do, ◌>>=◌, pure, ParseError, mp_alloc, node_new,
  or_error, node_size, align8, heap_size, memory_error, token_code, no_token, cur, check, past,
  match_else, try_match, expect, copy_slice, copy_string_lit, slice,
}

-- The last token, and no other need be, is the end marker.
abbrev pub EndsEof : Lexer → Type 0
EndsEof lx =
    (0 < length lx.tokens)
    × (token_code (get_or lx.tokens (length lx.tokens - 1) no_token).kind ≡ 0)

module _ (lx : Lexer) where
  abbrev pub size : ℕ
  size = length lx.tokens

  -- From `p` to where a step leaves the parser: `d` tokens ahead at least, where it does not fail.
  abbrev pub Moves : {A : Type 0} → ℕ → Parser → Parse A → Type 0
  Moves d p (got a p') = (p.pos + d ≤ p'.pos) × (p'.pos < size)
  Moves d p (null p') = (p.pos ≤ p'.pos) × (p'.pos < size)
  Moves d p out_of_fuel = ⊥

  -- With `k` tokens left at most.
  pub record Good {A : Type 0} (d k : ℕ) (m : Step A) : Type 0 where
    pub run : (p : Parser) → p.pos < size → size ≤ p.pos + k → Moves d p (m p)

  pub Good-pure : {A : Type 0} (k : ℕ) (a : A) → Good 0 k (pure a)
  Good-pure k a = record { run = λ p h l. (omega arith, h) }

  pub Moves-then :
      {A B : Type 0} (c d e k j : ℕ) (f : A → Step B) (p : Parser) (r : Parse A)
      → c ≤ d + e
      → k ≤ d + j
      → size ≤ p.pos + k
      → Moves d p r
      → ((a : A) → Good e j (f a))
      → Moves c p (then_do r f)
  Moves-then {A} {B} c d e k j f p (got a p') total left l h g =
      later (f a p') ((g a).run p' h.1 (omega (arith, h.0)))
    where
      later : (r' : Parse B) → Moves e p' r' → Moves c p r'
      later (got b q) h' = (omega (arith, h.0, h'.0), h'.1)
      later (null q) h' = (omega (arith, h.0, h'.0), h'.1)
      later out_of_fuel h' = elim h' [ ]
  Moves-then {A} {B} c d e k j f p (null p') total left l h g = h
  Moves-then {A} {B} c d e k j f p out_of_fuel total left l h g = elim h [ ]

  pub Good-bind :
      {A B : Type 0} (c d e k j : ℕ) (m : Step A) (f : A → Step B)
      → c ≤ d + e
      → k ≤ d + j
      → Good d k m
      → ((a : A) → Good e j (f a))
      → Good c k (m >>= f)
  Good-bind c d e k j m f total left gm gf = record {
    run = λ p h l. Moves-then c d e k j f p (m p) total left l (gm.run p h l) gf;
  }

  -- No step forward, then any; or one forward, then none needed.
  pub first_no :
      {A B : Type 0} (d k : ℕ) (m : Step A) (f : A → Step B)
      → Good 0 k m
      → ((a : A) → Good d k (f a))
      → Good d k (m >>= f)
  first_no d k m f = Good-bind d 0 d k k m f (omega arith) (omega arith)

  pub first_one :
      {A B : Type 0} (k : ℕ) (m : Step A) (f : A → Step B)
      → Good 1 k m
      → ((a : A) → Good 0 (k - 1) (f a))
      → Good 1 k (m >>= f)
  first_one k m f = Good-bind 1 1 0 k (k - 1) m f (omega arith) (omega arith)

  -- With no token left there is nothing to show.
  pub Good-empty : {A : Type 0} (d k : ℕ) (m : Step A) → k ≤ 0 → Good d k m
  Good-empty d k m none_left = record { run = λ p h l. absurd (omega arith) }

  pub Good-fewer : {A : Type 0} (d e k j : ℕ) (m : Step A) → e ≤ d → j ≤ k → Good d k m → Good e j m
  Good-fewer {A} d e k j m de jk g = record {
    run = λ p h l. fewer p (m p) (g.run p h (omega arith));
  }
    where
      fewer : (p : Parser) (r : Parse A) → Moves d p r → Moves e p r
      fewer p (got a p') h = (omega (arith, h.0), h.1)
      fewer p (null p') h = h
      fewer p out_of_fuel h = elim h [ ]

  -- The same with one step forward as none.
  pub Good-zero : {A : Type 0} (k : ℕ) (m : Step A) → Good 1 k m → Good 0 k m
  Good-zero k m g = Good-fewer 1 0 k k m (omega arith) (omega arith) g

  pub one_forward : {A : Type 0} (p : Parser) (r : Parse A) → Moves 1 p r → Moves 0 p r
  one_forward p (got a p') h = (omega (arith, h.0), h.1)
  one_forward p (null p') h = h
  one_forward p out_of_fuel h = h

  Moves-past :
      {A : Type 0} (d : ℕ) (p : Parser) (r : Parse A) → d ≤ 1 → Moves 0 (past lx p) r → Moves d p r
  Moves-past d p (got a p') small h = (omega (arith, h.0), h.1)
  Moves-past d p (null p') small h = (omega (arith, h.0), h.1)
  Moves-past d p out_of_fuel small h = elim h [ ]

  module _ (ends : EndsEof lx) where
    -- Only the end marker stands last.
    pub more_tokens :
        (p : Parser) (k : TokenKind)
        → p.pos < size
        → check lx p k ≡ true
        → 0 < token_code k
        → p.pos + 1 < size
    unfolding check cur
    more_tokens p k h is some_kind = elim (Bool-cases (ltb (p.pos + 1) size)) [
      | inl more ↦ ground arith
      | inr end ↦
          let at : p.pos ≡ size - 1 = ground arith in
          let inside : leb size p.pos ≡ false = ground arith in
          let code : (token_code (get_or lx.tokens (size - 1) no_token).kind == token_code k)
              ≡ true =
            rw (inside, at) at is in
          absurd (ground (arith, ends.1))
    ]

    -- Reading on after a token that is there.
    pub after_token :
        {A : Type 0} (d k : ℕ) (t : TokenKind) (m : Step A) (p : Parser)
        → d ≤ 1
        → 0 < token_code t
        → Good 0 k m
        → p.pos < size
        → size ≤ p.pos + 1 + k
        → check lx p t ≡ true
        → Moves d p (m (past lx p))
    after_token d k t m p small some_kind g h l is =
        let more = more_tokens p t h is some_kind in
        Moves-past d p (m (past lx p)) small (g.run (past lx p) more (omega arith))

    pub Good-match_else :
        {A : Type 0} (d k : ℕ) (t : TokenKind) (hit other : Step A)
        → d ≤ 1
        → 0 < token_code t
        → Good 0 (k - 1) hit
        → Good d k other
        → Good d k (match_else lx t hit other)
    unfolding match_else
    Good-match_else d k t hit other small some_kind g g' = record {
      run = λ p h l. elim (Bool-cases (check lx p t)) [
        | inl is ↦ rw is (after_token d (k - 1) t hit p small some_kind g h (omega arith) is)
        | inr no' ↦ rw no' (g'.run p h l)
      ];
    }

    pub Good-expect :
        (k : ℕ) (t : TokenKind) (e : ParseError) → 0 < token_code t → Good 1 k (expect lx t e)
    unfolding expect
    Good-expect k t e some_kind = record {
      run = λ p h l. elim (Bool-cases (check lx p t)) [
        | inl is ↦ rw is (omega arith, more_tokens p t h is some_kind)
        | inr no' ↦ rw no' (omega arith, h)
      ];
    }

    pub Good-try_match : (k : ℕ) (t : TokenKind) → 0 < token_code t → Good 0 k (try_match lx t)
    unfolding try_match
    Good-try_match k t some_kind = record {
      run = λ p h l. elim (Bool-cases (check lx p t)) [
        | inl is ↦ rw is (omega arith, more_tokens p t h is some_kind)
        | inr no' ↦ rw no' (omega arith, h)
      ];
    }

  pub Good-mp_alloc : (n k : ℕ) → Good 0 k (mp_alloc n)
  unfolding mp_alloc
  Good-mp_alloc n k = record {
    run = λ p h l. elim (Bool-cases (ltb heap_size ((p.heap_off + align8 n) % word))) [
      | inl full ↦ rw full (omega arith, h)
      | inr room ↦ rw room (omega arith, h)
    ];
  }

  pub Good-node_new : (k : ℕ) → Good 0 k node_new
  unfolding node_new
  Good-node_new k = record {
    run = λ p h l. noted p (mp_alloc node_size p) ((Good-mp_alloc node_size k).run p h l);
  }
    where
      noted :
          (p : Parser) (r : Parse (Unit {0})) → Moves 0 p r → Moves 0 p (or_error memory_error r)
      noted p (got a p') h = h
      noted p (null p') h = h
      noted p out_of_fuel h = elim h [ ]

  pub Good-copy_slice : (k : ℕ) (t : Token) → Good 0 k (copy_slice lx t)
  unfolding copy_slice
  Good-copy_slice k t =
      first_no 0 k (mp_alloc (t.len + 1)) (λ u. pure (slice lx t)) (Good-mp_alloc (t.len + 1) k)
        (λ u. Good-pure k (slice lx t))

  pub Good-copy_string_lit : (k : ℕ) (t : Token) → Good 0 k (copy_string_lit lx t)
  unfolding copy_string_lit
  Good-copy_string_lit k t =
      first_no 0 k (mp_alloc (t.len + 1)) _ (Good-mp_alloc (t.len + 1) k) (λ u. Good-pure k _)
