-- ===== src/Mm.antt =====
-- kernel/core/mm.c: the page allocator over its bitmap, and the bump allocator `kmalloc`.
-- The proofs are in the modules below.
pub mod Bitmap
pub mod Runs
pub mod Alloc
pub mod Count
pub mod Kmalloc
use zeros_i.Base.{
  ℕ, zero, suc, ◌+◌, ◌-◌, ◌*◌, ◌/◌, ◌%◌, ◌^◌, Bool, true, false, ◌||◌, Option, none, some, List,
  bit_and, bit_or, ltb, leb, ◌==◌, if◌then◌else◌, get_or, set, replicate,
}
use zeros_i.Memory.{word, Mem, kmemset}

abbrev pub page_size : ℕ
page_size = 4096

abbrev pub kernel_heap_start : ℕ
kernel_heap_start = 0x400000

abbrev pub heap_end : ℕ
heap_end = 0x1000000

abbrev pub page_count : ℕ
page_count = (heap_end - kernel_heap_start) / page_size

-- The file's three globals, and the memory that it writes to.
pub record Mm : Type 0 where
  pub page_bitmap : List ℕ
  pub kheap_ptr : ℕ
  pub kheap_end : ℕ
  pub mem : Mem

-- Within `IsValid` no index leaves the array.
unfoldable pub bitmap_get : List ℕ → ℕ → Bool
bitmap_get bm i = bit_and (get_or bm (i / 8) 0 / 2 ^ (i % 8)) 1 == 1

-- `|= 1u << (i % 8)`, `&= (uint8_t)~(1u << (i % 8))`
unfoldable pub bitmap_set : List ℕ → ℕ → Bool → List ℕ
bitmap_set bm i true = set bm (i / 8) (bit_or (get_or bm (i / 8) 0) (2 ^ (i % 8)))
bitmap_set bm i false = set bm (i / 8) (bit_and (get_or bm (i / 8) 0) (255 - 2 ^ (i % 8)))

-- The bitmap has `PAGE_COUNT / 8 + 1` bytes.
unfoldable pub mm_init : Mem → Mm
mm_init mem = record {
  page_bitmap = replicate (page_count / 8 + 1) 0;
  kheap_ptr = heap_end;
  kheap_end = 0x2000000;
  mem = mem;
}

-- The inner loop, `k` rounds before `j` reaches `PAGE_COUNT`: the final `run`.
unfoldable pub run_from : List ℕ → ℕ → ℕ → ℕ → ℕ → ℕ
run_from bm n zero j run = run
run_from bm n (suc k) j run =
    let rest = run_from bm n k (j + 1) (run + 1) in
    if ltb run n then (if bitmap_get bm j then run else rest) else run

-- The outer loop, `k` rounds before `i` reaches `PAGE_COUNT`: the page where a run of `n` starts.
unfoldable pub find_run : List ℕ → ℕ → ℕ → ℕ → Option ℕ
find_run bm n zero i = none
find_run bm n (suc k) i =
    let rest = find_run bm n k (i + 1) in
    if bitmap_get bm i then rest else (if run_from bm n (suc k) i 0 == n then some i else rest)

-- `for (j = 0; j < n; j++) bitmap_set(i + j, 1);`
unfoldable pub mark_run : List ℕ → ℕ → ℕ → List ℕ
mark_run bm i zero = bm
mark_run bm i (suc n) = mark_run (bitmap_set bm i true) (i + 1) n

-- The return statements of `mm_alloc_pages`; `none` is the null pointer.
unfoldable pub alloc_at : ℕ → Mm → Option ℕ → Option ℕ × Mm
alloc_at n m none = (none, m)
alloc_at n m (some i) = (
  some (kernel_heap_start + i * page_size),
  record m { page_bitmap = mark_run m.page_bitmap i n },
)

unfoldable pub mm_alloc_pages : ℕ → Mm → Option ℕ × Mm
mm_alloc_pages n m =
    if n == 0 then (none, m) else alloc_at n m (find_run m.page_bitmap n page_count 0)

-- `for (i = 0; i < n && idx + i < PAGE_COUNT; i++) bitmap_set(idx + i, 0);`
pub clear_run : List ℕ → ℕ → ℕ → List ℕ
clear_run bm i zero = bm
clear_run bm i (suc n) =
    let rest = clear_run (bitmap_set bm i false) (i + 1) n in if ltb i page_count then rest else bm

-- The product `n * PAGE_SIZE` wraps.
unfoldable pub mm_free_pages : ℕ → ℕ → Mm → Mm
mm_free_pages p n m = if ltb p kernel_heap_start || leb heap_end p then m else record m {
  page_bitmap = clear_run m.page_bitmap ((p - kernel_heap_start) / page_size) n;
  mem = kmemset m.mem p 0xA5 (n * page_size % word);
}

-- `(n + 15u) & ~15u`
pub align16 : ℕ → ℕ
align16 n = (n + 15) % word / 16 * 16

-- The pointer sum wraps.
pub kmalloc : ℕ → Mm → Option ℕ × Mm
unfolding align16
kmalloc n m =
    if ltb m.kheap_end ((m.kheap_ptr + align16 n) % word)
    then (none, m)
    else (some m.kheap_ptr, record m { kheap_ptr = (m.kheap_ptr + align16 n) % word })

-- The loop of `mm_phys_used`, `k` rounds before `i` reaches `PAGE_COUNT`.
pub count_used : List ℕ → ℕ → ℕ → ℕ → ℕ
count_used bm zero i c = c
count_used bm (suc k) i c = count_used bm k (i + 1) (if bitmap_get bm i then c + 1 else c)

pub mm_phys_used : Mm → ℕ
mm_phys_used m = count_used m.page_bitmap page_count 0 0 * page_size % word
