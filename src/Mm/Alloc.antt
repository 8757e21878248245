-- ===== src/Mm/Alloc.antt =====
-- What `mm_alloc_pages`, `mm_free_pages` and `mm_phys_used` promise to their callers.
use zeros_i.Base.{
  ℕ, zero, suc, replicate, length-replicate, ◌+◌, ◌-◌, ◌*◌, ◌/◌, ◌%◌, ◌≤◌, ◌<◌, ◌≡◌, refl, Bool,
  true, false, ◌&&◌, ◌||◌, Option, none, some, List, ltb, leb, ◌==◌, if◌then◌else◌, arith,
  Bool-cases, ◌⊎◌, inl, inr,
}
use zeros_i.Memory.{word, Mem, kmemset}
use zeros_i.Memory.Blocks.{kmemset_lem}
use zeros_i.Mm.Bitmap.{IsBytes}
use zeros_i.Mm.{
  mm_init, Mm, page_size, page_count, kernel_heap_start, heap_end, bitmap_get, clear_run, find_run,
  alloc_at, mm_alloc_pages, mm_free_pages,
}
use zeros_i.Mm.Runs.{
  IsBitmap, IsRun, inside, Finds, find_run-Finds, bitmap_get-mark_run, bitmap_get-clear_run,
  mark_run-IsBitmap, clear_run-IsBitmap,
}

abbrev pub used : Mm → ℕ → Bool
used m j = bitmap_get m.page_bitmap j

-- The outcome of a request for `n` pages, of any state `m`.
abbrev pub AllocSpec : Mm → ℕ → Option ℕ × Mm → Type 0
AllocSpec m n (none, m') = (m' ≡ m) × ((r : ℕ) → ¬ IsRun m.page_bitmap page_count r n)
AllocSpec m n (some p, m') =
    (r : ℕ) × (p ≡ kernel_heap_start + r * page_size)
    × IsRun m.page_bitmap page_count r n
    × ((q : ℕ) → q < r → ¬ IsRun m.page_bitmap page_count q n)
    × ((j : ℕ) → used m' j ≡ (if inside r n j then true else used m j))
    × IsBitmap m'.page_bitmap

alloc_at_lem :
    (m : Mm) (n : ℕ) (o : Option ℕ)
    → IsBitmap m.page_bitmap
    → Finds m.page_bitmap n page_count 0 o
    → AllocSpec m n (alloc_at n m o)
unfolding alloc_at
alloc_at_lem m n none h f = (refl, λ r. f r (omega arith))
alloc_at_lem m n (some i) h f = (
  i,
  refl,
  f.1,
  λ q. f.2 q (omega arith),
  λ j. bitmap_get-mark_run n m.page_bitmap i j h f.1.within,
  mark_run-IsBitmap n m.page_bitmap i h,
)

-- With a bitmap of the declared size, a request for at least one page returns the lowest run of
-- free pages and marks exactly that run, or returns null, leaves the state alone, and there is no
-- such run.
pub mm_alloc_pages_first_fit :
    (m : Mm) (n : ℕ) → IsBitmap m.page_bitmap → 0 < n → AllocSpec m n (mm_alloc_pages n m)
unfolding mm_alloc_pages
mm_alloc_pages_first_fit m n h pos = elim (Bool-cases (n == 0)) [
  | inl z ↦ absurd (ground arith)
  | inr nz ↦ rw nz (
      alloc_at_lem m n (find_run m.page_bitmap n page_count 0) h
        (find_run-Finds m.page_bitmap n page_count 0 page_count pos (omega arith)))
]

-- The specification at a known outcome.
pub allocated :
    (m m' : Mm) (n p : ℕ)
    → IsBitmap m.page_bitmap
    → 0 < n
    → mm_alloc_pages n m ≡ (some p, m')
    → AllocSpec m n (some p, m')
allocated m m' n p h pos e = rw e at (mm_alloc_pages_first_fit m n h pos)

pub mm_free_pages-IsBitmap :
    (m : Mm) (p n : ℕ) → IsBitmap m.page_bitmap → IsBitmap (mm_free_pages p n m).page_bitmap
unfolding mm_free_pages
mm_free_pages-IsBitmap m p n h =
    ground (arith, clear_run-IsBitmap n m.page_bitmap ((p - kernel_heap_start) / page_size) h)

-- With a bitmap of the declared size, freeing an address of the heap clears the pages from its own
-- on, as far as the bitmap goes, and no others; an address outside the heap changes nothing.
pub used-mm_free_pages :
    (m : Mm) (p n j : ℕ)
    → IsBitmap m.page_bitmap
    → used (mm_free_pages p n m) j ≡ (
        if leb kernel_heap_start p && ltb p heap_end
        then (if inside ((p - kernel_heap_start) / page_size) n j && ltb j page_count
            then false
            else used m j)
        else used m j)
unfolding mm_free_pages
used-mm_free_pages m p n j h =
    ground (arith, bitmap_get-clear_run n m.page_bitmap ((p - kernel_heap_start) / page_size) j h)

-- The outcome of freeing `n` pages at `p`.
pub record FreeSpec (m : Mm) (p n : ℕ) (m' : Mm) : Type 0 where
  pub bits :
      (j : ℕ)
      → used m' j ≡ (
          if inside ((p - kernel_heap_start) / page_size) n j && ltb j page_count
          then false
          else used m j)
  pub bytes : (x : ℕ) → m'.mem x ≡ (if leb p x && ltb x (p + n * page_size) then 0xA5 else m.mem x)
  pub heap : (m'.kheap_ptr ≡ m.kheap_ptr) × (m'.kheap_end ≡ m.kheap_end)

-- With a bitmap of the declared size, freeing pages that end below 2 ^ 32: an address outside the heap
-- changes nothing. Of an address of the heap, exactly the pages from its own on are cleared in the
-- bitmap, as far as that goes, exactly their bytes are poisoned with 0xA5, and the small heap stays.
pub mm_free_pages_lem :
    (m : Mm) (p n : ℕ)
    → IsBitmap m.page_bitmap
    → p + n * page_size < word
    → ((p < kernel_heap_start) ⊎ (heap_end ≤ p)) × (mm_free_pages p n m ≡ m)
      ⊎ (kernel_heap_start ≤ p) × (p < heap_end) × FreeSpec m p n (mm_free_pages p n m)
unfolding mm_free_pages
mm_free_pages_lem m p n h fits = elim (Bool-cases (ltb p kernel_heap_start || leb heap_end p)) [
  | inl out ↦ rw out (
      inl (
        elim (Bool-cases (ltb p kernel_heap_start)) [
          | inl below ↦ inl (ground arith)
          | inr above ↦ inr (ground arith)
        ],
        refl,
      ))
  | inr heap ↦
      let size : n * page_size % word ≡ n * page_size = omega (arith, fits) in
      let m' = record m {
        page_bitmap = clear_run m.page_bitmap ((p - kernel_heap_start) / page_size) n;
        mem = kmemset m.mem p 0xA5 (n * page_size % word);
      } in
      rw heap (
        inr (
          ground arith,
          ground arith,
          record {
            bits =
                λ j. bitmap_get-clear_run n m.page_bitmap ((p - kernel_heap_start) / page_size) j h;
            bytes = λ x. rw size (kmemset_lem m.mem p 0xA5 (n * page_size) x (omega (arith, fits)));
            heap = (refl, refl);
          },
        ))
]

free_inside :
    (bm : List ℕ) (r n j : ℕ)
    → IsRun bm page_count r n
    → inside r n j ≡ true
    → bitmap_get bm j ≡ false
free_inside bm r n j run h =
    let e : r + (j - r) ≡ j = ground arith in
    let unused : bitmap_get bm (r + (j - r)) ≡ false = run.free (j - r) (ground arith) in
    rw e at unused

-- With a bitmap of the declared size, giving the pages of a successful request for at least one
-- page back makes the bitmap read as it did before.
pub mm_free_pages-mm_alloc_pages :
    (m m' : Mm) (n p j : ℕ)
    → IsBitmap m.page_bitmap
    → 0 < n
    → mm_alloc_pages n m ≡ (some p, m')
    → used (mm_free_pages p n m') j ≡ used m j
mm_free_pages-mm_alloc_pages m m' n p j h pos e =
    let (r, at, run, low, bits, valid) = allocated m m' n p h pos e in
    let back : (p - kernel_heap_start) / page_size ≡ r = omega arith in
    ground (
      arith,
      bits j,
      run.within,
      rw back at (used-mm_free_pages m' p n j valid),
      free_inside m.page_bitmap r n j run,
    )

bytes_apart :
    (r n r' n' p p' : ℕ)
    → p ≡ kernel_heap_start + r * page_size
    → p' ≡ kernel_heap_start + r' * page_size
    → (r + n ≤ r') ⊎ (r' + n' ≤ r)
    → (p + n * page_size ≤ p') ⊎ (p' + n' * page_size ≤ p)
bytes_apart r n r' n' p p' e e' (inl h) = inl (omega arith)
bytes_apart r n r' n' p p' e e' (inr h) = inr (omega arith)

marked :
    (m m' : Mm) (r n : ℕ)
    → ((j : ℕ) → used m' j ≡ (if inside r n j then true else used m j))
    → (j : ℕ) → inside r n j ≡ true
    → used m' j ≡ true
marked m m' r n bits j h = ground (arith, bits j)

-- A run found free where another is marked lies below it or above it.
runs_apart :
    (bm : List ℕ) (r n r' n' : ℕ)
    → 0 < n
    → 0 < n'
    → ((j : ℕ) → inside r n j ≡ true → bitmap_get bm j ≡ true)
    → IsRun bm page_count r' n'
    → (r + n ≤ r') ⊎ (r' + n' ≤ r)
runs_apart bm r n r' n' pos pos' marked run = elim (Bool-cases (leb (r + n) r')) [
  | inl below ↦ inl (ground arith)
  | inr over ↦ elim (Bool-cases (leb (r' + n') r)) [
    | inl above ↦ inr (ground arith)
    | inr meet ↦ elim (Bool-cases (leb r r')) [
      | inl first ↦ absurd (ground (arith, run.free 0 pos', marked (r' + 0)))
      | inr second ↦ absurd (ground (arith, run.free (r - r'), marked (r' + (r - r'))))
    ]
  ]
]

-- With a bitmap of the declared size, the blocks of two successful requests in a row, for at least
-- one page each, have no byte in common, and the first lies between the ends of the heap.
pub mm_alloc_pages_disjoint :
    (m m' m'' : Mm) (n p n' p' : ℕ)
    → IsBitmap m.page_bitmap
    → 0 < n
    → 0 < n'
    → mm_alloc_pages n m ≡ (some p, m')
    → mm_alloc_pages n' m' ≡ (some p', m'')
    → ((p + n * page_size ≤ p') ⊎ (p' + n' * page_size ≤ p))
      × (kernel_heap_start ≤ p)
      × (p + n * page_size ≤ heap_end)
mm_alloc_pages_disjoint m m' m'' n p n' p' h pos pos' e e' =
    let (r, at, run, low, bits, valid) = allocated m m' n p h pos e in
    let (r', at', run', low', bits', valid') = allocated m' m'' n' p' valid pos' e' in
    (
      bytes_apart r n r' n' p p' at at'
          (runs_apart m'.page_bitmap r n r' n' pos pos' (marked m m' r n bits) run'),
      omega arith,
      omega (arith, run.within),
    )

replicate-IsBytes : (n : ℕ) → IsBytes (replicate n 0)
replicate-IsBytes zero = tt
replicate-IsBytes (suc n) = (omega arith, replicate-IsBytes n)

pub mm_init-IsBitmap : (mem : Mem) → IsBitmap (mm_init mem).page_bitmap
unfolding mm_init
mm_init-IsBitmap mem = record {
  bytes = replicate-IsBytes (page_count / 8 + 1);
  size = length-replicate {A = ℕ} (page_count / 8 + 1) 0;
}
