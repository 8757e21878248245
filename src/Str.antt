-- ===== src/Str.antt =====
-- kernel/core/string.c, and py/util.c, which repeats its loops. A C string is the list of its bytes
-- without the NUL, so that the end of the list reads as 0; a buffer is the list of its cells.
pub mod Compare
pub mod Copy
use zeros_i.Base.{
  ℕ, zero, suc, ◌+◌, ◌-◌, ◌*◌, ◌≤◌, ◌<◌, Bool, true, false, ◌&&◌, List, [], ◌∷◌, ltb, leb, ◌==◌,
  if◌then◌else◌, set, get_or,
}
use zeros_i.Base.Int.{ℤ, pos, negsuc, sub_ℕ}

-- The bytes of a C string are neither NUL nor wider than a char.
abbrev pub IsCString : List ℕ → Type 0
IsCString [] = Unit
IsCString (c ∷ s) = (0 < c) × (c < 256) × IsCString s

unfoldable pub kstrlen : List ℕ → ℕ
kstrlen [] = 0
kstrlen (c ∷ s) = kstrlen s + 1

-- The difference of the first bytes that differ, as `unsigned char`s.
unfoldable pub kstrcmp : List ℕ → List ℕ → ℤ
kstrcmp [] [] = pos 0
kstrcmp [] (d ∷ t) = sub_ℕ 0 d
kstrcmp (c ∷ s) [] = sub_ℕ c 0
kstrcmp (c ∷ s) (d ∷ t) = if c == d then kstrcmp s t else sub_ℕ c d

pub kstrncmp : List ℕ → List ℕ → ℕ → ℤ
kstrncmp s t zero = pos 0
kstrncmp [] [] (suc n) = pos 0
kstrncmp [] (d ∷ t) (suc n) = sub_ℕ 0 d
kstrncmp (c ∷ s) [] (suc n) = sub_ℕ c 0
kstrncmp (c ∷ s) (d ∷ t) (suc n) = if c == d then kstrncmp s t n else sub_ℕ c d

-- The blocks hold at least `n` bytes; a read past one reads 0 here.
pub kmemcmp : List ℕ → List ℕ → ℕ → ℤ
kmemcmp x y zero = pos 0
kmemcmp [] y (suc n) = pos 0
kmemcmp (c ∷ x) [] (suc n) = pos 0
kmemcmp (c ∷ x) (d ∷ y) (suc n) = if c == d then kmemcmp x y n else sub_ℕ c d

-- `for (i = 0; i + 1 < n && src[i]; i++) dst[i] = src[i]; dst[i] = 0;` from `i` on.
unfoldable pub kstrncpy_from : List ℕ → List ℕ → ℕ → ℕ → List ℕ
kstrncpy_from dst [] n i = set dst i 0
kstrncpy_from dst (c ∷ src) n i =
    let rest = kstrncpy_from (set dst i c) src n (i + 1) in
    if ltb (i + 1) n then rest else set dst i 0

unfoldable pub kstrncpy : List ℕ → List ℕ → ℕ → List ℕ
kstrncpy dst src n = kstrncpy_from dst src n 0

-- The string that a buffer holds: its bytes before the first NUL.
unfoldable pub cstr : List ℕ → List ℕ
cstr [] = []
cstr (c ∷ buf) = if c == 0 then [] else c ∷ cstr buf

-- The digits of `katoi`; an `int` that overflows is undefined, so `v` is not bounded here.
katoi_digits : ℕ → List ℕ → ℕ
katoi_digits v [] = v
katoi_digits v (c ∷ s) =
    let rest = katoi_digits (v * 10 + (c - b'0')) s in if leb b'0' c && leb c b'9' then rest else v

pub katoi : List ℕ → ℤ
unfolding katoi_digits
katoi [] = pos 0
katoi (c ∷ s) = if c == b'-' then sub_ℕ 0 (katoi_digits 0 s) else pos (katoi_digits 0 (c ∷ s))
