-- ===== src/Proc/Swap/Apart.antt =====
-- Swapping images in and out leaves the current process and the windows alone.
use zeros_i.Base.{
  ℕ, zero, suc, ◌+◌, ◌≡◌, refl, sym, ◌∙◌, ap, Option, none, some, List, arith, Bool-cases,
  Option-cases, inl, inr,
}
use zeros_i.Gui.Window.{GuiWin}
use zeros_i.Mm.{mm_alloc_pages}
use zeros_i.Proc.{proc_at, proc_max}
use zeros_i.Proc.Kill.{Sys}
use zeros_i.Proc.Swap.{
  must_move, evict_from, proc_evict_range, must_yield, evict, no_shadow, yield_from, restore,
  proc_ensure_resident,
}

abbrev pub apart : Sys → ℕ × List GuiWin
apart s = (s.current, s.gwins)

abbrev apart_or : ℕ × List GuiWin → Option Sys → ℕ × List GuiWin
apart_or c none = c
apart_or c (some s) = apart s

apart_or-evict : (i : ℕ) (s : Sys) → apart_or (apart s) (evict i s) ≡ apart s
unfolding evict
apart_or-evict i s = elim (Option-cases (mm_alloc_pages (proc_at s.procs i).image_pages s.mm).0) [
  | inl null ↦ rw (evict, null) refl
  | inr (shadow, found) ↦ rw (evict, found) refl
]

apart-evict : (i : ℕ) (s s' : Sys) → evict i s ≡ some s' → apart s' ≡ apart s
apart-evict i s s' e = sym (ap (apart_or (apart s)) e) ∙ apart_or-evict i s

apart-yield_from : (p k i : ℕ) (s : Sys) → apart (yield_from p k i s).1 ≡ apart s
unfolding yield_from no_shadow
apart-yield_from p zero i s = refl
apart-yield_from p (suc k) i s = elim (Bool-cases (must_yield p s i)) [
  | inr stays ↦ rw (yield_from, stays) (apart-yield_from p k (i + 1) s)
  | inl moves ↦ elim (Option-cases (evict i s)) [
    | inl null ↦ rw (yield_from, moves, null) refl
    | inr (s', done) ↦
        rw (yield_from, moves, done) (apart-yield_from p k (i + 1) s' ∙ apart-evict i s s' done)
  ]
]

pub apart-proc_ensure_resident : (p : ℕ) (s : Sys) → apart (proc_ensure_resident p s) ≡ apart s
unfolding proc_ensure_resident restore
apart-proc_ensure_resident p s = ground (arith, apart-yield_from p proc_max 0 s)

apart-evict_from : (lo hi k i : ℕ) (s : Sys) → apart (evict_from lo hi k i s).1 ≡ apart s
unfolding evict_from no_shadow
apart-evict_from lo hi zero i s = refl
apart-evict_from lo hi (suc k) i s = elim (Bool-cases (must_move lo hi (proc_at s.procs i))) [
  | inr stays ↦ rw (evict_from, stays) (apart-evict_from lo hi k (i + 1) s)
  | inl moves ↦ elim (Option-cases (evict i s)) [
    | inl null ↦ rw (evict_from, moves, null) refl
    | inr (s', done) ↦
        rw (evict_from, moves, done) (apart-evict_from lo hi k (i + 1) s' ∙ apart-evict i s s' done)
  ]
]

pub apart-proc_evict_range : (lo hi : ℕ) (s : Sys) → apart (proc_evict_range lo hi s).1 ≡ apart s
unfolding proc_evict_range
apart-proc_evict_range lo hi s = apart-evict_from lo hi proc_max 0 s
