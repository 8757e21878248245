-- ===== src/Mm/Count.antt =====
-- `mm_phys_used` against the allocator: a request raises it by what it hands out.
use zeros_i.Base.{
  ℕ, zero, suc, ◌+◌, ◌*◌, ◌≤◌, ◌<◌, ◌≡◌, refl, true, false, Option, none, some, List, ◌==◌,
  if◌then◌else◌, arith, Bool-cases, inl, inr,
}
use zeros_i.Mm.{
  Mm, page_size, page_count, bitmap_get, bitmap_set, mark_run, mm_alloc_pages, alloc_at, find_run,
  count_used, mm_phys_used,
}
use zeros_i.Mm.Bitmap.{bitmap_get-set}
use zeros_i.Mm.Runs.{IsBitmap, IsRun, inside, find_run-Finds, bitmap_set-IsBitmap, Finds}

count_used_suc : (bm : List ℕ) (k i c : ℕ) → count_used bm k i (c + 1) ≡ count_used bm k i c + 1
unfolding count_used
count_used_suc bm zero i c = refl
count_used_suc bm (suc k) i c =
    ground (arith, count_used_suc bm k (i + 1) c, count_used_suc bm k (i + 1) (c + 1))

count_used-le : (bm : List ℕ) (k i c : ℕ) → count_used bm k i c ≤ c + k
unfolding count_used
count_used-le bm zero i c = omega arith
count_used-le bm (suc k) i c =
    ground (arith, count_used-le bm k (i + 1) c, count_used-le bm k (i + 1) (c + 1))

-- Setting one clear bit raises the count of a range that holds it by one.
count_used-bitmap_set :
    (bm : List ℕ) (x k i c : ℕ)
    → IsBitmap bm
    → x < page_count
    → bitmap_get bm x ≡ false
    → count_used (bitmap_set bm x true) k i c
      ≡ (if inside i k x then count_used bm k i c + 1 else count_used bm k i c)
unfolding count_used
count_used-bitmap_set bm x zero i c h lt unused = ground arith
count_used-bitmap_set bm x (suc k) i c h lt unused = ground (
  arith,
  bitmap_get-set bm x i true h.bytes,
  h.size,
  count_used-bitmap_set bm x k (i + 1) c h lt unused,
  count_used-bitmap_set bm x k (i + 1) (c + 1) h lt unused,
  count_used_suc bm k (i + 1) c,
)

count_used-mark_run :
    (n : ℕ) (bm : List ℕ) (r : ℕ)
    → IsBitmap bm
    → IsRun bm page_count r n
    → count_used (mark_run bm r n) page_count 0 0 ≡ count_used bm page_count 0 0 + n
unfolding mark_run
count_used-mark_run zero bm r h run = omega arith
count_used-mark_run (suc n) bm r h run =
    let first : bitmap_get bm r ≡ false = ground (arith, run.free 0) in
    let others : IsRun (bitmap_set bm r true) page_count (r + 1) n = record {
      within = omega (arith, run.within);
      free = λ t lt. ground (
        arith,
        run.within,
        h.size,
        bitmap_get-set bm r (r + 1 + t) true h.bytes,
        run.free (suc t),
      );
    } in
    ground (
      arith,
      run.within,
      count_used-mark_run n (bitmap_set bm r true) (r + 1) (bitmap_set-IsBitmap bm r true h) others,
      count_used-bitmap_set bm r page_count 0 0 h,
    )

phys_used-alloc_at :
    (m m' : Mm) (n p : ℕ) (o : Option ℕ)
    → IsBitmap m.page_bitmap
    → Finds m.page_bitmap n page_count 0 o
    → alloc_at n m o ≡ (some p, m')
    → mm_phys_used m' ≡ mm_phys_used m + n * page_size
unfolding alloc_at mm_phys_used
phys_used-alloc_at m m' n p none h f e = absurd (ground arith)
phys_used-alloc_at m m' n p (some r) h f e = ground (
  arith,
  count_used-mark_run n m.page_bitmap r h f.1,
  count_used-le (mark_run m.page_bitmap r n) page_count 0 0,
)

-- With a bitmap of the declared size, a successful request for `n` pages, at least one, raises the
-- number of bytes in use by exactly `n` pages.
pub mm_phys_used-mm_alloc_pages :
    (m m' : Mm) (n p : ℕ)
    → IsBitmap m.page_bitmap
    → 0 < n
    → mm_alloc_pages n m ≡ (some p, m')
    → mm_phys_used m' ≡ mm_phys_used m + n * page_size
unfolding mm_alloc_pages
mm_phys_used-mm_alloc_pages m m' n p h pos e = elim (Bool-cases (n == 0)) [
  | inl z ↦ absurd (ground arith)
  | inr nz ↦
      phys_used-alloc_at m m' n p (find_run m.page_bitmap n page_count 0) h
        (find_run-Finds m.page_bitmap n page_count 0 page_count pos (omega arith)) (rw nz at e)
]
