-- ===== src/Tests/Kernel.antt =====
-- Runs of the parts of kernel/: memory, strings, pages, processes.
use zeros_i.Base.{
  ℕ, ◌+◌, ◌-◌, ◌*◌, ◌≤◌, ◌<◌, ◌≡◌, ◌≢◌, ◌↔◌, ◌⊎◌, refl, true, false, some, List, [], ◌∷◌, ◌++◌, ltb,
  if◌then◌else◌, length, inl, arith, replicate,
}
use zeros_i.Base.Int.{pos}
use zeros_i.Memory.{word, Mem, kmemcpy}
use zeros_i.Memory.Blocks.{kmemcpy_lem}
use zeros_i.Str.{IsCString, kstrcmp, kstrncpy, cstr}
use zeros_i.Str.Compare.{kstrcmp-zero_iff, kstrncmp-eq-kstrcmp}
use zeros_i.Str.Copy.{cstr-kstrncpy}
use zeros_i.Str.{kstrncmp}
use zeros_i.Mm.{
  Mm, page_size, kernel_heap_start, heap_end, bitmap_get, bitmap_set, mm_init, run_from, find_run,
  mark_run, alloc_at, mm_alloc_pages, mm_free_pages, kmalloc, mm_phys_used,
}
use zeros_i.Mm.Alloc.{
  used, AllocSpec, mm_init-IsBitmap, mm_alloc_pages_first_fit, FreeSpec, mm_free_pages_lem,
  mm_free_pages-mm_alloc_pages, mm_alloc_pages_disjoint,
}
use zeros_i.Mm.Runs.{mark_run-IsBitmap}
use zeros_i.Mm.Count.{mm_phys_used-mm_alloc_pages}
use zeros_i.Mm.Kmalloc.{KmallocSpec, mm_init-IsHeap, kmalloc_lem, kmalloc_wraps}
use zeros_i.Proc.{get_from, proc_get, Proc, cleared, proc_at}
use zeros_i.Proc.Cons.{put_key, proc_cons_getc, queue_from, cons_write_from}
use zeros_i.Proc.Cons.Input.{
  IsQueue, pending, put_key_lem, GetcSpec, proc_cons_getc_lem, queue_from_lem,
}
use zeros_i.Proc.Cons.Output.{IsSink, cons_write_from_lem}

-- Memory that counts up.
abbrev ramp : Mem
ramp x = elim (ltb x 100) [ true ↦ x | false ↦ 0 ]

ramp_bytes : (x : ℕ) → ramp x < 256
ramp_bytes x = ground arith

kmemcpy_lem_example : kmemcpy ramp 10 40 8 13 ≡ 43
kmemcpy_lem_example =
    kmemcpy_lem ramp 10 40 8 3 ramp_bytes (omega arith) (omega arith) (inl (omega arith))
      (omega arith)

abbrev abc : List ℕ
abc = 97 ∷ 98 ∷ 99 ∷ []

abbrev abd : List ℕ
abd = 97 ∷ 98 ∷ 100 ∷ []

abc-IsCString : IsCString abc
abc-IsCString = ground arith

abd-IsCString : IsCString abd
abd-IsCString = ground arith

kstrcmp-zero_iff_example : (kstrcmp abc abd ≡ pos 0) ↔ (abc ≡ abd)
kstrcmp-zero_iff_example = kstrcmp-zero_iff abc abd abc-IsCString abd-IsCString

kstrncmp-eq-kstrcmp_example : kstrncmp abc abd 2 ≡ kstrcmp (97 ∷ 98 ∷ []) (97 ∷ 98 ∷ [])
kstrncmp-eq-kstrcmp_example = kstrncmp-eq-kstrcmp abc abd 2

cstr-kstrncpy_example :
    (cstr (kstrncpy (replicate 4 0) abd 3) ≡ 97 ∷ 98 ∷ [])
    × (length (kstrncpy (replicate 4 0) abd 3) ≡ 4)
cstr-kstrncpy_example =
    cstr-kstrncpy (replicate 4 0) abd 3 (omega arith) (omega arith) abd-IsCString

abbrev fresh : Mm
fresh = mm_init ramp

-- The fresh bitmap with its first `n` pages marked.
abbrev after_pages : ℕ → Mm
after_pages n = record fresh { page_bitmap = mark_run fresh.page_bitmap 0 n }

abbrev two_pages : Mm
two_pages = record (after_pages 2) { page_bitmap = mark_run (after_pages 2).page_bitmap 2 3 }

alloc_two : mm_alloc_pages 2 fresh ≡ (some kernel_heap_start, after_pages 2)
unfolding mm_alloc_pages alloc_at find_run run_from bitmap_get mark_run bitmap_set mm_init
alloc_two = refl

mm_alloc_pages_first_fit_example : AllocSpec fresh 2 (mm_alloc_pages 2 fresh)
mm_alloc_pages_first_fit_example =
    mm_alloc_pages_first_fit fresh 2 (mm_init-IsBitmap ramp) (omega arith)

alloc_three :
    mm_alloc_pages 3 (after_pages 2) ≡ (some (kernel_heap_start + 2 * page_size), two_pages)
unfolding mm_alloc_pages alloc_at find_run run_from bitmap_get mark_run bitmap_set mm_init
alloc_three = refl

mm_alloc_pages_disjoint_example :
    ((kernel_heap_start + 2 * page_size ≤ kernel_heap_start + 2 * page_size)
      ⊎ (kernel_heap_start + 2 * page_size + 3 * page_size ≤ kernel_heap_start))
    × (kernel_heap_start ≤ kernel_heap_start)
    × (kernel_heap_start + 2 * page_size ≤ heap_end)
mm_alloc_pages_disjoint_example =
    mm_alloc_pages_disjoint fresh (after_pages 2) two_pages 2 kernel_heap_start 3
      (kernel_heap_start + 2 * page_size) (mm_init-IsBitmap ramp) (omega arith) (omega arith)
      alloc_two alloc_three

mm_free_pages_lem_example :
    ((kernel_heap_start < kernel_heap_start) ⊎ (heap_end ≤ kernel_heap_start))
      × (mm_free_pages kernel_heap_start 2 (after_pages 2) ≡ after_pages 2)
    ⊎ (kernel_heap_start ≤ kernel_heap_start)
      × (kernel_heap_start < heap_end)
      × FreeSpec
          (after_pages 2)
          kernel_heap_start
          2
          (mm_free_pages kernel_heap_start 2 (after_pages 2))
mm_free_pages_lem_example =
    mm_free_pages_lem (after_pages 2) kernel_heap_start 2
      (mark_run-IsBitmap 2 fresh.page_bitmap 0 (mm_init-IsBitmap ramp)) (omega arith)

mm_free_pages-mm_alloc_pages_example :
    used (mm_free_pages kernel_heap_start 2 (after_pages 2)) 1 ≡ used fresh 1
mm_free_pages-mm_alloc_pages_example =
    mm_free_pages-mm_alloc_pages fresh (after_pages 2) 2 kernel_heap_start 1 (mm_init-IsBitmap ramp)
      (omega arith) alloc_two

mm_phys_used-mm_alloc_pages_example :
    mm_phys_used (after_pages 2) ≡ mm_phys_used fresh + 2 * page_size
mm_phys_used-mm_alloc_pages_example =
    mm_phys_used-mm_alloc_pages fresh (after_pages 2) 2 kernel_heap_start (mm_init-IsBitmap ramp)
      (omega arith) alloc_two

kmalloc_lem_example : KmallocSpec fresh 100 (kmalloc 100 fresh)
kmalloc_lem_example = kmalloc_lem fresh 100 (mm_init-IsHeap ramp) (omega arith)

kmalloc_wraps_example : kmalloc (word - 1) fresh ≡ (some fresh.kheap_ptr, fresh)
kmalloc_wraps_example =
    kmalloc_wraps fresh (word - 1) (mm_init-IsHeap ramp) (omega arith) (omega arith)

-- A process with a console of its own, two keys of which one was read, and some output.
abbrev shell : Proc
shell = record cleared {
  used = true;
  pid = 3;
  cons_enable = true;
  cons_sink = 3;
  cons_in_keys = 65 ∷ 66 ∷ [];
  cons_in_pos = 1;
  cons_out = abc;
}

shell-IsQueue : IsQueue shell
shell-IsQueue = record { fits = omega arith; read = omega arith }

put_key_lem_example :
    let (done, t') = put_key 67 shell in
    IsQueue t' × (done ≡ true) × (pending t' ≡ (if done then 66 ∷ 67 ∷ [] else 66 ∷ []))
put_key_lem_example = put_key_lem 67 shell shell-IsQueue

proc_cons_getc_lem_example : GetcSpec shell (proc_cons_getc shell)
proc_cons_getc_lem_example = proc_cons_getc_lem shell shell-IsQueue refl

abbrev idle : Proc
idle = record shell { cons_in_pos = 0 }

queue_from_lem_example :
    let (n, t') = queue_from abc 0 idle in IsQueue t' × (n ≡ 3) × (pending t' ≡ 65 ∷ 66 ∷ abc)
queue_from_lem_example =
    queue_from_lem abc 0 idle (record { fits = omega arith; read = omega arith }) refl

abbrev two_procs : List Proc
two_procs = record cleared { used = true; pid = 1 } ∷ shell ∷ []

two_procs-IsSink : IsSink two_procs 1 1
unfolding proc_get get_from
two_procs-IsSink = record {
  within = omega arith;
  enabled = refl;
  some_sink = omega arith;
  found = refl;
  fits = omega arith;
}

cons_write_from_lem_example :
    let (n, procs') = cons_write_from 1 abd 0 two_procs in
    IsSink procs' 1 1
    × (n ≡ 3)
    × ((proc_at procs' 1).cons_out ≡ abc ++ abd)
    × ((j : ℕ) → 1 ≢ j → proc_at procs' j ≡ proc_at two_procs j)
cons_write_from_lem_example = cons_write_from_lem abd 1 1 0 two_procs two_procs-IsSink
