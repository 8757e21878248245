-- ===== src/Mm/Kmalloc.antt =====
-- `kmalloc`: what it returns for a size that leaves the sums below 2 ^ 32, and for one that does not.
use zeros_i.Base.{
  ℕ, ◌+◌, ◌*◌, ◌%◌, ◌≤◌, ◌<◌, ◌≡◌, refl, Option, none, some, inl, inr, Bool-cases, ltb, ◌/◌, arith,
}
use zeros_i.Memory.{word, Mem}
use zeros_i.Mm.{Mm, heap_end, kmalloc, mm_init}

-- The region that `mm_init` sets up, as `kmalloc` keeps it.
pub record IsHeap (m : Mm) : Type 0 where
  pub low : heap_end ≤ m.kheap_ptr
  pub high : m.kheap_ptr ≤ m.kheap_end
  pub bound : m.kheap_end ≡ 0x2000000
  pub aligned : m.kheap_ptr % 16 ≡ 0

-- The fresh state has a heap.
pub mm_init-IsHeap : (mem : Mem) → IsHeap (mm_init mem)
unfolding mm_init
mm_init-IsHeap mem = omega arith

-- What a request for `n` bytes returns: a null pointer and the state as it was, if the rest of the
-- region is too small, or the old pointer, with room for `n` bytes up to the new one.
abbrev pub KmallocSpec : Mm → ℕ → Option ℕ × Mm → Type 0
KmallocSpec m n (none, m') = (m' ≡ m) × (m.kheap_end < m.kheap_ptr + n + 15)
KmallocSpec m n (some p, m') =
    (p ≡ m.kheap_ptr)
    × (p % 16 ≡ 0)
    × (p + n ≤ m'.kheap_ptr)
    × (m'.kheap_ptr < p + n + 16)
    × (m'.page_bitmap ≡ m.page_bitmap)
    × IsHeap m'

-- In the region that `mm_init` sets up, a request of at most 2 ^ 31 bytes gets the old pointer,
-- which is a multiple of 16, and moves it up by at least that many bytes and fewer than 16 more,
-- inside the region and leaving the bitmap alone; or it gets null, changes nothing, and fewer than
-- `n + 15` bytes of the region were left.
pub kmalloc_lem : (m : Mm) (n : ℕ) → IsHeap m → n ≤ 0x80000000 → KmallocSpec m n (kmalloc n m)
unfolding kmalloc
kmalloc_lem m n h small =
    elim (Bool-cases (ltb m.kheap_end ((m.kheap_ptr + (n + 15) % word / 16 * 16) % word))) [
      | inl over ↦ rw over (refl, ground arith)
      | inr fits ↦
          let room : m.kheap_ptr + (n + 15) % word / 16 * 16 ≤ m.kheap_end = ground arith in
          rw fits (
            refl,
            h.aligned,
            omega arith,
            omega arith,
            refl,
            record {
              low = omega arith;
              high = omega arith;
              bound = h.bound;
              aligned = omega arith;
            },
          )
    ]

-- In the region that `mm_init` sets up, for each of the fifteen largest sizes the rounding wraps to
-- 0: `kmalloc` returns a pointer without reserving a byte, so the next request gets the same one.
pub kmalloc_wraps :
    (m : Mm) (n : ℕ) → IsHeap m → word ≤ n + 15 → n < word → kmalloc n m ≡ (some m.kheap_ptr, m)
unfolding kmalloc
kmalloc_wraps m n h wrap small =
    let same : (m.kheap_ptr + (n + 15) % word / 16 * 16) % word ≡ m.kheap_ptr = omega arith in
    rw same (ground arith)
