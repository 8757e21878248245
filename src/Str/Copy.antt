-- ===== src/Str/Copy.antt =====
-- What `kstrncpy` leaves in the buffer.
use zeros_i.Base.{
  ℕ, zero, suc, ◌+◌, ◌-◌, ◌≤◌, ◌<◌, ◌≡◌, ◌∙◌, refl, take-nil, ap, List, [], ◌∷◌, ◌++◌, ltb, take,
  set, length, length-set, arith, Bool-cases, inl, inr,
}
use mathlib.Core.List.{append-nil, append_assoc}
use zeros_i.Str.{IsCString, kstrncpy_from, kstrncpy, cstr}

take-set :
    (dst : List ℕ) (i v : ℕ) → i < length dst → take (suc i) (set dst i v) ≡ take i dst ++ (v ∷ [])
take-set [] i v h = absurd (omega arith)
take-set (d ∷ dst) zero v h = refl
take-set (d ∷ dst) (suc i) v h = ap (λ xs. d ∷ xs) (take-set dst i v (omega arith))

cstr-set_zero :
    (dst : List ℕ) (i : ℕ)
    → i < length dst
    → IsCString (take i dst)
    → cstr (set dst i 0) ≡ take i dst
unfolding cstr
cstr-set_zero [] i h c = absurd (omega arith)
cstr-set_zero (d ∷ dst) zero h c = refl
cstr-set_zero (d ∷ dst) (suc i) h c = ground (arith, cstr-set_zero dst i (omega arith) c.2)

IsCString-snoc : (s : List ℕ) (c : ℕ) → IsCString s → 0 < c → c < 256 → IsCString (s ++ (c ∷ []))
IsCString-snoc [] c h pos small = (pos, small, tt)
IsCString-snoc (d ∷ s) c h pos small = (h.0, h.1, IsCString-snoc s c h.2 pos small)

pub length-kstrncpy_from :
    (dst src : List ℕ) (n i : ℕ) → length (kstrncpy_from dst src n i) ≡ length dst
unfolding kstrncpy_from
length-kstrncpy_from dst [] n i = length-set dst i 0
length-kstrncpy_from dst (c ∷ src) n i = ground (
  arith,
  length-kstrncpy_from (set dst i c) src n (i + 1),
  length-set dst i c,
  length-set dst i 0,
)

cstr-kstrncpy_from :
    (dst src : List ℕ) (n i : ℕ)
    → i < n
    → n ≤ length dst
    → IsCString src
    → IsCString (take i dst)
    → cstr (kstrncpy_from dst src n i) ≡ take i dst ++ take (n - 1 - i) src
unfolding kstrncpy_from
cstr-kstrncpy_from dst [] n i lt room cs ct =
    rw (take-nil, append-nil) (cstr-set_zero dst i (omega arith) ct)
cstr-kstrncpy_from dst (c ∷ src) n i lt room cs ct = elim (Bool-cases (ltb (i + 1) n)) [
  | inl more ↦
      let e : i + 1 ≡ suc i = omega arith in
      let k : n - 1 - i ≡ suc (n - 1 - suc i) = ground arith in
      let step : take (suc i) (set dst i c) ≡ take i dst ++ (c ∷ []) =
        take-set dst i c (omega arith) in
      rw (more, e, k)
        (cstr-kstrncpy_from (set dst i c) src n (suc i) (ground arith)
            (omega (arith, length-set dst i c)) cs.2
            (rw step (IsCString-snoc (take i dst) c ct cs.0 cs.1))
          ∙ rw step (append_assoc (take i dst) (c ∷ []) (take (n - 1 - suc i) src)))
  | inr last ↦
      let k : n - 1 - i ≡ zero = ground arith in
      rw (last, k, append-nil) (cstr-set_zero dst i (omega arith) ct)
]

-- With room for `n` cells, at least one, the buffer ends up holding the first `n - 1` bytes of a C
-- string, or all of a shorter one; so it is terminated inside those cells, and it keeps its size.
pub cstr-kstrncpy :
    (dst src : List ℕ) (n : ℕ)
    → 0 < n
    → n ≤ length dst
    → IsCString src
    → (cstr (kstrncpy dst src n) ≡ take (n - 1) src) × (length (kstrncpy dst src n) ≡ length dst)
unfolding kstrncpy
cstr-kstrncpy dst src n pos room cs = (
  cstr-kstrncpy_from dst src n 0 pos room cs tt ∙ ap (λ k. take k src) (omega arith),
  length-kstrncpy_from dst src n 0,
)
