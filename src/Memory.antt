-- ===== src/Memory.antt =====
-- Flat 32-bit memory, and the block routines of kernel/core/string.c over it: `kmemset` and
-- `kmemcpy` go byte by byte, upwards, and an address wraps at 2 ^ 32.
pub mod Blocks
use zeros_i.Base.{ℕ, zero, suc, ◌+◌, ◌%◌, ◌^◌, ◌==◌, if◌then◌else◌, List, [], ◌∷◌}

abbrev pub word : ℕ
word = 2 ^ 32

-- The byte at each address.
abbrev pub Mem : Type 0
Mem = ℕ → ℕ

abbrev pub store : Mem → ℕ → ℕ → Mem
store m a v x = if x == a % word then v % 256 else m x

abbrev pub load : Mem → ℕ → ℕ
load m a = m (a % word)

-- `while (n--) *d++ = (uint8_t)v;`
pub kmemset : Mem → ℕ → ℕ → ℕ → Mem
kmemset m d v zero = m
kmemset m d v (suc n) = kmemset (store m d v) (d + 1) v n

-- `while (n--) *d++ = *s++;`
unfoldable pub kmemcpy : Mem → ℕ → ℕ → ℕ → Mem
kmemcpy m d s zero = m
kmemcpy m d s (suc n) = kmemcpy (store m d (load m s)) (d + 1) (s + 1) n

-- A block of bytes that comes from elsewhere, and one that goes there.
abbrev pub put_bytes : Mem → ℕ → List ℕ → Mem
put_bytes m d [] = m
put_bytes m d (b ∷ bytes) = put_bytes (store m d b) (d + 1) bytes

abbrev pub get_bytes : Mem → ℕ → ℕ → List ℕ
get_bytes m s zero = []
get_bytes m s (suc n) = load m s ∷ get_bytes m (s + 1) n
