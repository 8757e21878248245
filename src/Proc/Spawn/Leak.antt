-- ===== src/Proc/Spawn/Leak.antt =====
-- A spawn that fails after `alloc_proc`.
use zeros_i.Base.{
  ℕ, ◌≡◌, ◌≢◌, refl, ◌∙◌, ap, true, Option, none, some, List, ◌==◌, get_or-set, arith,
}
use zeros_i.Base.Int.{ℤ, pos, negsuc}
use zeros_i.Mm.{Mm, mm_alloc_pages}
use zeros_i.Proc.{cleared, proc_at, alloc_slot, alloc_proc}
use zeros_i.Proc.Elf.{Image}
use zeros_i.Proc.Spawn.{
  Spawner, fill_proc, guarded, with_mm, with_kernel_stack, with_stack, with_slot,
}
use zeros_i.Proc.Spawn.Adds.{alloc_slot_hit, alloc_proc_hit}

-- With an error, the slot `i` is in use without a pid, and `alloc_proc` does not hand it out.
abbrev pub Leaks : {F : Type 0} → ℕ → ℤ × Spawner F → Type 0
Leaks i (pos pid, s) = Unit
Leaks i (negsuc e, s) =
    ((proc_at s.sys.procs i).used ≡ true)
    × ((proc_at s.sys.procs i).pid ≡ 0)
    × (alloc_slot s.sys.procs ≢ some i)

module _ {F : Type 0} (i : ℕ) where
  abbrev Marked : Spawner F → Type 0
  Marked s = proc_at s.sys.procs i ≡ record cleared { used = true }

  Marked-Leaks : (e : ℕ) (s : Spawner F) → Marked s → Leaks i (negsuc e, s)
  Marked-Leaks e s m = (
    ap (λ p. p.used) m,
    ap (λ p. p.pid) m,
    λ hit. absurd (ground (arith, (alloc_slot_hit s.sys.procs i hit).1, ap (λ p. p.used) m)),
  )

  with_kernel_stack-Leaks :
      (path : List ℕ) (image : Image) (stack : ℕ) (s : Spawner F) (r : Option ℕ × Mm)
      → Marked s
      → Leaks i (with_kernel_stack i path image stack s r)
  unfolding with_kernel_stack fill_proc
  with_kernel_stack-Leaks path image stack s (none, mm) m = Marked-Leaks 0 (with_mm mm s) m
  with_kernel_stack-Leaks path image stack s (some ks, mm) m = tt

  with_stack-Leaks :
      (path : List ℕ) (image : Image) (s : Spawner F) (r : Option ℕ × Mm)
      → Marked s
      → Leaks i (with_stack i path image s r)
  unfolding with_stack
  with_stack-Leaks path image s (none, mm) m = Marked-Leaks 0 (with_mm mm s) m
  with_stack-Leaks path image s (some stack, mm) m =
      with_kernel_stack-Leaks path image stack s (mm_alloc_pages 4 (guarded stack mm)) m

same_index : (i : ℕ) → i == i ≡ true
same_index i = ground arith

-- When a slot is free for a spawn and the spawn fails after that, the slot is in use afterwards, with
-- the pid 0, and `alloc_proc` does not find it again.
pub with_slot-Leaks :
    {F : Type 0} (path : List ℕ) (image : Image) (s : Spawner F) (i : ℕ)
    → alloc_slot s.sys.procs ≡ some i
    → Leaks i (with_slot path image s (alloc_proc s.sys.procs))
unfolding with_slot
with_slot-Leaks path image s i hit = rw (alloc_proc_hit s.sys.procs i hit) (
    with_stack-Leaks i path image _ _ (
      get_or-set s.sys.procs i i _ cleared (alloc_slot_hit s.sys.procs i hit).0
      ∙ rw (same_index i) refl))
