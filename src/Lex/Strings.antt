-- ===== src/Lex/Strings.antt =====
-- A string token keeps the invariant and moves on in the source.
use zeros_i.Base.{
  ℕ, ◌-◌, ◌≤◌, ◌<◌, ◌≡◌, refl, Option, none, some, List, [], ◌∷◌, ◌==◌, arith, Bool-cases, inl, inr,
}
use zeros_i.Lex.{string, Lexer, unterminated, newline_char, advance}
use zeros_i.Lex.Scan.{failing, scan_string, close_string, lex_string}
use zeros_i.Lex.Valid.{
  IsLexing, Later, Later-refl, Later-trans, advance-IsLexing, advance-Later, advance-pos,
}
use zeros_i.Lex.Steps.{After, checked_push, inside}

-- A string's scan stays inside the run.
Scanned : Lexer → Option Lexer → Type 0
Scanned lx none = Unit
Scanned lx (some lx') = IsLexing lx' × Later lx lx'

Scanned-Later : (lx lx' : Lexer) (o : Option Lexer) → Later lx lx' → Scanned lx' o → Scanned lx o
unfolding Scanned
Scanned-Later lx lx' none l h = tt
Scanned-Later lx lx' (some lx'') l h = (h.0, Later-trans l h.1)

scan_string-Scanned :
    (q : ℕ) (r : List ℕ) (lx : Lexer) → lx.rest ≡ r → IsLexing lx → Scanned lx (scan_string q r lx)
unfolding scan_string Scanned
scan_string-Scanned q [] lx e h = (h, Later-refl lx)
scan_string-Scanned q (c ∷ []) lx e h =
    let h' = advance-IsLexing c [] lx e h in
    let l' = advance-Later c [] lx in
    elim (Bool-cases (c == q)) [
      | inl close ↦ rw close (h, Later-refl lx)
      | inr inner ↦ elim (Bool-cases (c == b'\\')) [
        | inl esc ↦ rw (inner, esc) (h', l')
        | inr plain ↦ elim (Bool-cases (c == newline_char)) [
          | inl line ↦ rw (inner, plain, line) tt
          | inr more ↦ rw (inner, plain, more) (h', l')
        ]
      ]
    ]
scan_string-Scanned q (c ∷ d ∷ cs) lx e h =
    let one = advance c (d ∷ cs) lx in
    let two = advance d cs one in
    let h1 = advance-IsLexing c (d ∷ cs) lx e h in
    let l1 = advance-Later c (d ∷ cs) lx in
    let e1 = (advance-pos c (d ∷ cs) lx).1 in
    elim (Bool-cases (c == q)) [
      | inl close ↦ rw close (h, Later-refl lx)
      | inr inner ↦ elim (Bool-cases (c == b'\\')) [
        | inl esc ↦ elim (Bool-cases (d == newline_char)) [
          | inl line ↦ rw (inner, esc, line) tt
          | inr more ↦
              rw (inner, esc, more)
                (Scanned-Later lx two (scan_string q cs two)
                  (Later-trans l1 (advance-Later d cs one))
                  (scan_string-Scanned q cs two (advance-pos d cs one).1
                    (advance-IsLexing d cs one e1 h1)))
        ]
        | inr plain ↦ elim (Bool-cases (c == newline_char)) [
          | inl line ↦ rw (inner, plain, line) tt
          | inr more ↦
              rw (inner, plain, more)
                (Scanned-Later lx one (scan_string q (d ∷ cs) one) l1
                  (scan_string-Scanned q (d ∷ cs) one e1 h1))
        ]
      ]
    ]

close_string-After :
    (lx lx' : Lexer) (q start : ℕ) (r : List ℕ)
    → lx'.rest ≡ r
    → IsLexing lx'
    → Later lx lx'
    → lx.pos < lx'.pos
    → start ≤ lx'.pos
    → After lx (close_string q start r lx')
unfolding close_string
close_string-After lx lx' q start [] e h l p s = tt
close_string-After lx lx' q start (c ∷ cs) e h l p s = elim (Bool-cases (c == q)) [
  | inr open_ ↦ rw open_ tt
  | inl close ↦
      let l' = advance-Later c cs lx' in
      rw close (
        checked_push lx (advance c cs lx') (advance-IsLexing c cs lx' e h) (Later-trans l l')
          (omega (arith, l'.pos_le)) string start (lx'.pos - start) 0 (refl, refl)
          (ground (arith, inside lx' h, l.same_src)))
]

string_rest-After :
    (lx opened : Lexer) (q : ℕ) (o : Option Lexer)
    → Later lx opened
    → lx.pos < opened.pos
    → Scanned opened o
    → After lx (elim o [
      | none ↦ failing unterminated opened
      | some lx' ↦ close_string q opened.pos lx'.rest lx'
    ])
unfolding Scanned
string_rest-After lx opened q none l p s = tt
string_rest-After lx opened q (some lx') l p s =
    close_string-After lx lx' q opened.pos lx'.rest refl s.0 (Later-trans l s.1)
      (omega (arith, s.1.pos_le)) s.1.pos_le

pub lex_string-After :
    (lx : Lexer) (q : ℕ) (cs : List ℕ)
    → IsLexing lx
    → lx.rest ≡ q ∷ cs
    → After lx (lex_string q cs lx)
unfolding lex_string
lex_string-After lx q cs h e =
    let opened = advance q cs lx in
    string_rest-After lx opened q (scan_string q cs opened) (advance-Later q cs lx)
      (omega (arith, (advance-pos q cs lx).0))
      (scan_string-Scanned q cs opened (advance-pos q cs lx).1 (advance-IsLexing q cs lx e h))
