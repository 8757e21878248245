-- ===== src/Str/Compare.antt =====
-- What the comparisons decide.
use zeros_i.Base.{ℕ, zero, suc, ◌≡◌, ◌↔◌, refl, ap, List, [], ◌∷◌, take, length, arith}
use zeros_i.Base.Int.{pos}
use zeros_i.Str.{IsCString, kstrlen, kstrcmp, kstrncmp}

-- `kstrlen` is the length.
pub kstrlen-eq-length : (s : List ℕ) → kstrlen s ≡ length s
unfolding kstrlen
kstrlen-eq-length [] = refl
kstrlen-eq-length (c ∷ s) = omega (arith, kstrlen-eq-length s)

kstrcmp_eq : (s t : List ℕ) → IsCString s → IsCString t → kstrcmp s t ≡ pos 0 → s ≡ t
unfolding kstrcmp
kstrcmp_eq [] [] h k e = refl
kstrcmp_eq [] (d ∷ t) h k e = absurd (ground arith)
kstrcmp_eq (c ∷ s) [] h k e = absurd (ground arith)
kstrcmp_eq (c ∷ s) (d ∷ t) h k e = ground (arith, kstrcmp_eq s t h.2 k.2)

kstrcmp_refl : (s : List ℕ) → kstrcmp s s ≡ pos 0
unfolding kstrcmp
kstrcmp_refl [] = refl
kstrcmp_refl (c ∷ s) = ground (arith, kstrcmp_refl s)

-- Two C strings compare as 0 exactly when they are equal.
pub kstrcmp-zero_iff : (s t : List ℕ) → IsCString s → IsCString t → (kstrcmp s t ≡ pos 0) ↔ (s ≡ t)
kstrcmp-zero_iff s t h k = (
  kstrcmp_eq s t h k,
  λ e. let e' : kstrcmp s t ≡ kstrcmp t t = ap (λ u. kstrcmp u t) e in cc (e', kstrcmp_refl t),
)

-- Comparing the first `n` bytes compares the strings cut off there.
pub kstrncmp-eq-kstrcmp : (s t : List ℕ) (n : ℕ) → kstrncmp s t n ≡ kstrcmp (take n s) (take n t)
unfolding kstrcmp kstrncmp
kstrncmp-eq-kstrcmp s t zero = refl
kstrncmp-eq-kstrcmp [] [] (suc n) = refl
kstrncmp-eq-kstrcmp [] (d ∷ t) (suc n) = refl
kstrncmp-eq-kstrcmp (c ∷ s) [] (suc n) = refl
kstrncmp-eq-kstrcmp (c ∷ s) (d ∷ t) (suc n) = rw (kstrncmp-eq-kstrcmp s t n)
