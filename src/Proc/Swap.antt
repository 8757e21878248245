-- ===== src/Proc/Swap.antt =====
-- kernel/proc/proc.c: programs are linked at the same address, so only one of their images can be
-- in place. `proc_evict_range` saves the others, `proc_ensure_resident` puts one back.
pub mod Held
pub mod Rounds
pub mod Evict
pub mod Apart
pub mod Ids
use zeros_i.Base.{
  ℕ, zero, suc, ◌+◌, ◌-◌, ◌*◌, ◌%◌, Bool, true, false, ◌&&◌, ◌||◌, not, Option, none, some, List,
  [], ◌∷◌, ltb, leb, ◌==◌, if◌then◌else◌, get_or, set,
}
use zeros_i.Memory.{word, kmemcpy}
use zeros_i.Mm.{Mm, page_size, mm_alloc_pages, mm_free_pages}
use zeros_i.Proc.{Proc, proc_max, is_zombie, proc_at}
use zeros_i.Proc.Kill.{Sys}

-- The end of an image.
abbrev pub image_end : Proc → ℕ
image_end p = (p.image + p.image_pages * page_size) % word

-- Does the image of `p` lie in the range, and is it in place?
abbrev pub must_move : ℕ → ℕ → Proc → Bool
must_move lo hi p =
    p.used
    && (not (p.image == 0)
        && (not (p.image_pages == 0)
            && (not p.image_evicted
                && (not (is_zombie p.state) && (ltb lo (image_end p) && ltb p.image hi)))))

-- The copy of an image to fresh pages, and the fields that say so; `none` where there are none.
unfoldable pub evict : ℕ → Sys → Option Sys
evict i s =
    let p = proc_at s.procs i in
    let (a, mm) = mm_alloc_pages p.image_pages s.mm in
    elim a [
      | none ↦ none
      | some shadow ↦ some (record s {
        procs = set s.procs i (record p { image_shadow = shadow; image_evicted = true });
        mm = record mm { mem = kmemcpy mm.mem shadow p.image (p.image_pages * page_size % word) };
      })
    ]

-- A failed allocation leaves a null pointer in the field.
unfoldable pub no_shadow : ℕ → Sys → Sys
no_shadow i s = record s { procs = set s.procs i (record (proc_at s.procs i) { image_shadow = 0 }) }

-- The loop of `proc_evict_range`, `k` rounds before `i` reaches the end of the table. The status is
-- false for -1.
pub evict_from : ℕ → ℕ → ℕ → ℕ → Sys → Bool × Sys
evict_from lo hi zero i s = (true, s)
evict_from lo hi (suc k) i s = elim (must_move lo hi (proc_at s.procs i)) [
  | false ↦ evict_from lo hi k (i + 1) s
  | true ↦ elim (evict i s) [
    | none ↦ (false, no_shadow i s)
    | some s' ↦ evict_from lo hi k (i + 1) s'
  ]
]

pub proc_evict_range : ℕ → ℕ → Sys → Bool × Sys
proc_evict_range lo hi s = evict_from lo hi proc_max 0 s

-- The tests of the loop in `proc_ensure_resident`, for the slot `i` and the process at `p`.
abbrev pub must_yield : ℕ → Sys → ℕ → Bool
must_yield p s i =
    let q = proc_at s.procs i in
    q.used
    && (not (i == p)
        && (not (q.image == 0)
            && (not (q.image_evicted || is_zombie q.state)
                && (ltb (proc_at s.procs p).image (image_end q)
                    && (ltb q.image (image_end (proc_at s.procs p)) && (q.image_shadow == 0))))))

-- That loop; the status is false where it returns early.
unfoldable pub yield_from : ℕ → ℕ → ℕ → Sys → Bool × Sys
yield_from p zero i s = (true, s)
yield_from p (suc k) i s = elim (must_yield p s i) [
  | false ↦ yield_from p k (i + 1) s
  | true ↦ elim (evict i s) [ none ↦ (false, no_shadow i s) | some s' ↦ yield_from p k (i + 1) s' ]
]

-- The image of the process at `p` goes back, and its shadow's pages are given up.
unfoldable pub restore : ℕ → Sys → Sys
restore p s =
    let q = proc_at s.procs p in
    let mm = record s.mm {
      mem = kmemcpy s.mm.mem q.image q.image_shadow (q.image_pages * page_size % word);
    } in
    record s {
      procs = set s.procs p (record q { image_shadow = 0; image_evicted = false });
      mm = mm_free_pages q.image_shadow q.image_pages mm;
    }

unfoldable pub proc_ensure_resident : ℕ → Sys → Sys
proc_ensure_resident p s =
    let q = proc_at s.procs p in
    let (done, s') = yield_from p proc_max 0 s in
    if (q.image == 0) || ((q.image_pages == 0) || (not q.image_evicted || (q.image_shadow == 0)))
    then s
    else if done
    then restore p s'
    else s'
