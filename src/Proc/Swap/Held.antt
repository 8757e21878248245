-- ===== src/Proc/Swap/Held.antt =====
-- Addresses whose pages are taken, and what evicting one image does to memory.
use zeros_i.Base.{
  ℕ, zero, suc, ◌+◌, ◌-◌, ◌*◌, ◌/◌, ◌%◌, ◌≤◌, ◌<◌, ◌≡◌, refl, true, none, some, leb, ◌==◌, set, ◌⊎◌,
  inl, inr, arith, Bool-cases, Option-cases, ap,
}
use zeros_i.Memory.{word, Mem, store, load, kmemcpy}
use zeros_i.Memory.Blocks.{kmemcpy_outside, kmemcpy_lem}
use zeros_i.Mm.{
  Mm, page_size, page_count, kernel_heap_start, heap_end, find_run, alloc_at, mm_alloc_pages,
}
use zeros_i.Mm.Runs.{IsBitmap, IsRun, inside}
use zeros_i.Mm.Alloc.{used, allocated}
use zeros_i.Proc.{Proc, proc_at}
use zeros_i.Proc.Kill.{Sys}
use zeros_i.Proc.Swap.{evict}

-- The page of the address is in use.
pub record Held (m : Mm) (x : ℕ) : Type 0 where
  pub above : kernel_heap_start ≤ x
  pub below : x < heap_end
  pub taken : used m ((x - kernel_heap_start) / page_size) ≡ true

-- An image that lies above the heap and does not wrap, and bytes that are bytes.
pub record CanMove (p : Proc) (mem : Mem) : Type 0 where
  pub high : heap_end ≤ p.image
  pub within : p.image + p.image_pages * page_size < word
  pub bytes : (x : ℕ) → mem x < 256

-- What evicting the image of `p` to `shadow` has done.
pub record Evicted (p : Proc) (m m' : Mm) (shadow : ℕ) : Type 0 where
  pub copy : (t : ℕ) → t < p.image_pages * page_size → m'.mem (shadow + t) ≡ m.mem (p.image + t)
  pub fresh : (t : ℕ) → t < p.image_pages * page_size → Held m' (shadow + t)
  pub kept : (x : ℕ) → Held m x → (Held m' x) × (m'.mem x ≡ m.mem x)
  pub outside : (x : ℕ) → heap_end ≤ x → m'.mem x ≡ m.mem x
  pub bitmap : IsBitmap m'.page_bitmap
  pub bytes : (x : ℕ) → m'.mem x < 256

abbrev pub copied : Proc → ℕ → Mm → Mm
copied p shadow mm = record mm {
  mem = kmemcpy mm.mem shadow p.image (p.image_pages * page_size % word);
}

-- A page in use lies in no free run.
pub apart :
    (m : Mm) (n r x : ℕ)
    → IsRun m.page_bitmap page_count r n
    → Held m x
    → (shadow : ℕ) → shadow ≡ kernel_heap_start + r * page_size
    → (x < shadow) ⊎ (shadow + n * page_size ≤ x)
apart m n r x run held shadow at =
    let q = (x - kernel_heap_start) / page_size in
    elim (Bool-cases (inside r n q)) [
      | inl hit ↦
          let e : r + (q - r) ≡ q = ground arith in
          let free = rw e at (run.free (q - r) (ground arith)) in
          absurd (ground (arith, free, held.taken))
      | inr miss ↦ elim (Bool-cases (leb r q)) [
        | inl after ↦ inr (ground (arith, at, held.above))
        | inr before ↦ inl (ground (arith, at, held.above))
      ]
    ]

pub mem-mm_alloc_pages : (n : ℕ) (m : Mm) → (mm_alloc_pages n m).1.mem ≡ m.mem
unfolding mm_alloc_pages alloc_at
mem-mm_alloc_pages n m = elim (Bool-cases (n == 0)) [
  | inl z ↦ rw z refl
  | inr nz ↦ elim (Option-cases (find_run m.page_bitmap n page_count 0)) [
    | inl miss ↦ rw (nz, miss) refl
    | inr (i, hit) ↦ rw (nz, hit) refl
  ]
]

pub kmemcpy_bytes :
    (n : ℕ) (m : Mem) (d s : ℕ) → ((x : ℕ) → m x < 256) → (x : ℕ) → kmemcpy m d s n x < 256
unfolding kmemcpy
kmemcpy_bytes zero m d s ok x = ok x
kmemcpy_bytes (suc n) m d s ok x =
    kmemcpy_bytes n (store m d (load m s)) (d + 1) (s + 1) (λ y. ground (arith, ok y)) x

copied-Evicted :
    (p : Proc) (m mm : Mm) (shadow : ℕ)
    → IsBitmap m.page_bitmap
    → CanMove p m.mem
    → 0 < p.image_pages
    → mm.mem ≡ m.mem
    → mm_alloc_pages p.image_pages m ≡ (some shadow, mm)
    → Evicted p m (copied p shadow mm) shadow
copied-Evicted p m mm shadow h c some_page same e =
    let (r, at, run, low, marks, bitmap) = allocated m mm p.image_pages shadow h some_page e in
    let n : p.image_pages * page_size % word ≡ p.image_pages * page_size =
      omega (arith, c.within) in
    let top : shadow + p.image_pages * page_size ≤ heap_end = omega (arith, at, run.within) in
    record {
      copy = λ t lt.
          rw (n, same)
            (kmemcpy_lem m.mem shadow p.image (p.image_pages * page_size) t c.bytes (omega arith)
              (omega (arith, c.within)) (inl (omega (arith, c.high))) lt);
      fresh = λ t lt. record {
        above = omega (arith, at);
        below = omega arith;
        taken = ground (arith, marks ((shadow + t - kernel_heap_start) / page_size), at);
      };
      kept = λ x held. (
        record {
          above = held.above;
          below = held.below;
          taken = ground (arith, marks ((x - kernel_heap_start) / page_size), held.taken);
        },
        rw (n, same)
            (kmemcpy_outside m.mem shadow p.image (p.image_pages * page_size) x (omega arith)
              (apart m p.image_pages r x run held shadow at)),
      );
      outside = λ x far.
          rw (n, same)
            (kmemcpy_outside m.mem shadow p.image (p.image_pages * page_size) x (omega arith)
              (inr (omega arith)));
      bitmap = bitmap;
      bytes =
          kmemcpy_bytes (p.image_pages * page_size % word) mm.mem shadow p.image (rw same c.bytes);
    }

-- The outcome of `evict`: no room, or the image is saved.
pub evict_lem :
    (i : ℕ) (s : Sys)
    → IsBitmap s.mm.page_bitmap
    → CanMove (proc_at s.procs i) s.mm.mem
    → 0 < (proc_at s.procs i).image_pages
    → (evict i s ≡ none)
      ⊎ ((shadow : ℕ) × (s' : Sys) × (evict i s ≡ some s')
          × (s'.procs
              ≡ set s.procs i
                  (record (proc_at s.procs i) { image_shadow = shadow; image_evicted = true }))
          × Evicted (proc_at s.procs i) s.mm s'.mm shadow)
unfolding evict
evict_lem i s h c some_page =
    let p = proc_at s.procs i in
    let mm = (mm_alloc_pages p.image_pages s.mm).1 in
    elim (Option-cases (mm_alloc_pages p.image_pages s.mm).0) [
      | inl null ↦ inl (rw (evict, null) refl)
      | inr (shadow, some_a) ↦ inr (
        shadow,
        record s {
          procs = set s.procs i (record p { image_shadow = shadow; image_evicted = true });
          mm = copied p shadow mm;
        },
        rw (evict, some_a) refl,
        refl,
        copied-Evicted p s.mm mm shadow h c some_page (mem-mm_alloc_pages p.image_pages s.mm)
            (ap (λ o. (o, mm)) some_a),
      )
    ]
