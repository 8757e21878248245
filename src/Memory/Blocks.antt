-- ===== src/Memory/Blocks.antt =====
-- What the block routines leave in memory, for a block that does not wrap.
use zeros_i.Base.{
  ℕ, zero, suc, ◌+◌, ◌%◌, ◌≤◌, ◌<◌, ◌≡◌, refl, ◌&&◌, ltb, leb, if◌then◌else◌, arith, ◌⊎◌,
}
use zeros_i.Memory.{word, Mem, store, load, kmemset, kmemcpy}

-- For a block that ends at 2 ^ 32 or below, exactly the block is filled.
pub kmemset_lem :
    (m : Mem) (d v n x : ℕ)
    → d + n ≤ word
    → kmemset m d v n x ≡ (if leb d x && ltb x (d + n) then v % 256 else m x)
unfolding kmemset
kmemset_lem m d v zero x h = ground arith
kmemset_lem m d v (suc n) x h = ground (arith, kmemset_lem (store m d v) (d + 1) v n x)

-- Outside the target nothing changes.
pub kmemcpy_outside :
    (m : Mem) (d s n x : ℕ) → d + n ≤ word → (x < d) ⊎ (d + n ≤ x) → kmemcpy m d s n x ≡ m x
unfolding kmemcpy
kmemcpy_outside m d s zero x h o = refl
kmemcpy_outside m d s (suc n) x h o =
    ground (arith, kmemcpy_outside (store m d (load m s)) (d + 1) (s + 1) n x)

store_bytes : (m : Mem) (d v : ℕ) → ((x : ℕ) → m x < 256) → (x : ℕ) → store m d v x < 256
store_bytes m d v b x = ground (arith, b x)

-- In a memory of bytes, for blocks that end below 2 ^ 32, the target receives the source, where the
-- target does not lie above the source and overlap it.
pub kmemcpy_lem :
    (m : Mem) (d s n i : ℕ)
    → ((x : ℕ) → m x < 256)
    → d + n ≤ word
    → s + n ≤ word
    → (d ≤ s) ⊎ (s + n ≤ d)
    → i < n
    → kmemcpy m d s n (d + i) ≡ m (s + i)
unfolding kmemcpy
kmemcpy_lem m d s zero i b hd hs o h = absurd (omega arith)
kmemcpy_lem m d s (suc n) zero b hd hs o h =
    ground (arith, b s, kmemcpy_outside (store m d (load m s)) (d + 1) (s + 1) n (d + zero))
kmemcpy_lem m d s (suc n) (suc i) b hd hs o h =
    let later : kmemcpy (store m d (load m s)) (d + 1) (s + 1) n (d + 1 + i)
        ≡ store m d (load m s) (s + 1 + i) =
      kmemcpy_lem (store m d (load m s)) (d + 1) (s + 1) n i (store_bytes m d (load m s) b)
        (omega arith) (omega arith) (ground arith) (omega arith) in
    let e : d + suc i ≡ d + 1 + i = omega arith in
    let e' : s + suc i ≡ s + 1 + i = omega arith in rw (e, later, e') (ground arith)
