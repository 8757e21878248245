-- ===== src/Proc/Spawn/Table.antt =====
-- What a spawn does to the process table.
use zeros_i.Base.{
  ℕ, ◌+◌, ◌<◌, ◌≡◌, ◌≢◌, refl, sym, ◌∙◌, ap, true, false, Option, none, some, List, ◌==◌,
  if◌then◌else◌, get_or-set, set, length, length-set, arith, Bool-cases, Option-cases, inl, inr,
}
use zeros_i.Base.Int.{ℤ, pos, negsuc}
use zeros_i.Mm.{Mm, mm_alloc_pages, mm_free_pages}
use zeros_i.Proc.{Proc, cleared, proc_at, alloc_slot, alloc_proc}
use zeros_i.Proc.Kill.{Sys}
use zeros_i.Proc.Kill.Table.{IsTable}
use zeros_i.Proc.Kill.Spec.{PidsBelow}
use zeros_i.Proc.Swap.Ids.{
  ident, SameIds, SameIds-refl, SameIds-trans, proc_ensure_resident-SameIds,
}
use zeros_i.Memory.{put_bytes}
use zeros_i.Proc.Elf.{Image}
use zeros_i.Vfs.Calls.{Fat, vfs_read_file}
use zeros_i.Proc.Spawn.{
  Spawner, Parts, spawn_caller, new_proc, fill_proc, guarded, with_mm, with_kernel_stack,
  with_stack, with_slot, with_image, with_buffer, with_size, proc_spawn_elf, reads_all,
  buffer_pages,
}
use zeros_i.Proc.Spawn.Adds.{
  Adds, Adds-IsTable, split_if, alloc_slot_hit, alloc_proc_full, alloc_proc_hit, differ,
}
use zeros_i.Proc.Spawn.Loads.{Same, Loads, elf_load-Loads}

-- What a spawn from `s` has done: with a pid, the counter's, the process is in a slot that was free, a
-- child of the caller, and no other changed slot, pid or parent; pids are below the new counter. With
-- an error the counter is as it was, and the slots in use are.
abbrev pub SpawnSpec : {F : Type 0} → Spawner F → ℤ × Spawner F → Type 0
SpawnSpec s (pos pid, s') =
    (pid ≡ s.next_pid)
    × (s'.next_pid ≡ pid + 1)
    × ((i : ℕ) × Adds s.sys.procs s'.sys.procs i pid (spawn_caller s.sys).pid)
    × IsTable s'.sys.procs
    × PidsBelow s'.next_pid s'.sys.procs
SpawnSpec s (negsuc e, s') =
    (s'.next_pid ≡ s.next_pid)
    × ((j : ℕ)
        → (proc_at s.sys.procs j).used ≡ true
        → ident (proc_at s'.sys.procs j) ≡ ident (proc_at s.sys.procs j))

module _ {F : Type 0} (start : Spawner F) (table : IsTable start.sys.procs)
    (below : PidsBelow start.next_pid start.sys.procs)
    (live : (spawn_caller start.sys).used ≡ true) where
  -- A slot is taken for the process, and nothing else changed.
  record Taken (i : ℕ) (s : Spawner F) : Type 0 where
    len : length s.sys.procs ≡ length start.sys.procs
    inside : i < length start.sys.procs
    was_free : (proc_at start.sys.procs i).used ≡ false
    others : (j : ℕ) → i ≢ j → ident (proc_at s.sys.procs j) ≡ ident (proc_at start.sys.procs j)
    current : s.sys.current ≡ start.sys.current
    counter : s.next_pid ≡ start.next_pid

  mm_changes : (mm : Mm) (i : ℕ) (s : Spawner F) → Taken i s → Taken i (with_mm mm s)
  mm_changes mm i s h = record {
    len = h.len;
    inside = h.inside;
    was_free = h.was_free;
    others = h.others;
    current = h.current;
    counter = h.counter;
  }

  refused_late : (i e : ℕ) (s : Spawner F) → Taken i s → SpawnSpec start (negsuc e, s)
  refused_late i e s h = (
    h.counter,
    λ j u. h.others j (λ same.
        absurd (ground (arith, ap (λ k. (proc_at start.sys.procs k).used) same, h.was_free))),
  )

  caller_same :
      (i : ℕ) (s : Spawner F) → Taken i s → (spawn_caller s.sys).pid ≡ (spawn_caller start.sys).pid
  caller_same i s h = rw h.current (
      ap (λ k. k.1)
        (h.others start.sys.current (λ same.
          absurd
            (ground (arith, ap (λ k. (proc_at start.sys.procs k).used) same, h.was_free, live)))))

  module _ (path : List ℕ) (parts : Parts) (i : ℕ) (s : Spawner F) (h : Taken i s) where
    abbrev filled_table : List Proc
    filled_table = set s.sys.procs i (new_proc path parts s)

    abbrev left : Sys
    left = (fill_proc i path parts s).1.sys

    left-SameIds : SameIds filled_table left.procs
    unfolding fill_proc
    left-SameIds = proc_ensure_resident-SameIds s.sys.current _

    filled_at :
        (j : ℕ)
        → ident (proc_at left.procs j) ≡ (
            if i == j
            then (true, s.next_pid, (spawn_caller start.sys).pid)
            else ident (proc_at start.sys.procs j))
    filled_at j =
        left-SameIds.same j
        ∙ (ap ident (get_or-set s.sys.procs i j (new_proc path parts s) cleared (rw h.len h.inside))
            ∙ elim (Bool-cases (i == j)) [
              | inl here ↦ rw (here, caller_same i s h) refl
              | inr there ↦ rw there (h.others j (λ e. absurd (ground (arith, e))))
            ])

    filled_table-Adds : Adds start.sys.procs left.procs i s.next_pid (spawn_caller start.sys).pid
    filled_table-Adds =
        let ids : (j : ℕ) → _ = λ (j : ℕ).
          split_if (i == j) (true, s.next_pid, (spawn_caller start.sys).pid)
            (ident (proc_at start.sys.procs j)) (ident (proc_at left.procs j)) (filled_at j) in
        record {
          len = left-SameIds.len ∙ (length-set s.sys.procs i _ ∙ h.len);
          inside = h.inside;
          was_free = h.was_free;
          used_at = λ j. (ids j).0;
          pid_at = λ j. (ids j).1;
          ppid_at = λ j. (ids j).2;
        }

    filled_lem : SpawnSpec start (fill_proc i path parts s)
    unfolding fill_proc
    filled_lem =
        let below' : PidsBelow s.next_pid start.sys.procs = λ j u. rw h.counter (below j u) in
        let (t, b) =
          Adds-IsTable start.sys.procs left.procs i s.next_pid (spawn_caller start.sys).pid
            filled_table-Adds table below' (below' start.sys.current live) in
        (h.counter, refl, (i, filled_table-Adds), t, b)

  with_kernel_stack_lem :
      (i : ℕ) (path : List ℕ) (image : Image) (stack : ℕ) (s : Spawner F) (r : Option ℕ × Mm)
      → Taken i s
      → SpawnSpec start (with_kernel_stack i path image stack s r)
  unfolding with_kernel_stack
  with_kernel_stack_lem i path image stack s (none, mm) h =
      refused_late i 0 (with_mm mm s) (mm_changes mm i s h)
  with_kernel_stack_lem i path image stack s (some ks, mm) h =
      filled_lem path _ i (with_mm mm s) (mm_changes mm i s h)

  with_stack_lem :
      (i : ℕ) (path : List ℕ) (image : Image) (s : Spawner F) (r : Option ℕ × Mm)
      → Taken i s
      → SpawnSpec start (with_stack i path image s r)
  unfolding with_stack
  with_stack_lem i path image s (none, mm) h = refused_late i 0 (with_mm mm s) (mm_changes mm i s h)
  with_stack_lem i path image s (some stack, mm) h =
      with_kernel_stack_lem i path image stack s (mm_alloc_pages 4 (guarded stack mm)) h

  -- No slot is taken yet.
  record Kept (s : Spawner F) : Type 0 where
    same : Same start.sys s.sys
    counter : s.next_pid ≡ start.next_pid

  refused_early : (e : ℕ) (s : Spawner F) → Kept s → SpawnSpec start (negsuc e, s)
  refused_early e s h = (h.counter, λ j u. h.same.0.same j)

  slot-Taken :
      (i : ℕ) (s : Spawner F)
      → Kept s
      → alloc_slot s.sys.procs ≡ some i
      → Taken i (record s {
        sys = record s.sys { procs = set s.sys.procs i (record cleared { used = true }) };
      })
  slot-Taken i s h hit =
      let (lt, free) = alloc_slot_hit s.sys.procs i hit in
      let same = h.same.0 in
      record {
        len = length-set s.sys.procs i _ ∙ same.len;
        inside = rw same.len at lt;
        was_free = sym (ap (λ k. k.0) (same.same i)) ∙ free;
        others = λ j ne.
            ap ident (get_or-set s.sys.procs i j _ cleared lt) ∙ rw (differ i j ne) (same.same j);
        current = h.same.1;
        counter = h.counter;
      }

  with_slot_lem :
      (path : List ℕ) (image : Image) (s : Spawner F)
      → Kept s
      → SpawnSpec start (with_slot path image s (alloc_proc s.sys.procs))
  unfolding with_slot
  with_slot_lem path image s h = elim (Option-cases (alloc_slot s.sys.procs)) [
    | inl full ↦ rw (alloc_proc_full s.sys.procs full) (refused_early 0 s h)
    | inr (i, hit) ↦
        rw (alloc_proc_hit s.sys.procs i hit)
          (with_stack_lem i path image _ _ (slot-Taken i s h hit))
  ]

  abbrev given_back : ℕ → ℕ → Spawner F → Sys → Spawner F
  given_back buffer npages s sys = record s {
    sys = record sys { mm = mm_free_pages buffer npages sys.mm };
  }

  given_back-Kept :
      (buffer npages : ℕ) (s : Spawner F) (sys : Sys)
      → Kept s
      → Same s.sys sys
      → Kept (given_back buffer npages s sys)
  given_back-Kept buffer npages s sys h l = record {
    same = (SameIds-trans h.same.0 l.0, l.1 ∙ h.same.1);
    counter = h.counter;
  }

  with_image_lem :
      (path : List ℕ) (buffer npages : ℕ) (s : Spawner F) (r : ℤ × Option Image × Sys)
      → Kept s
      → Loads s.sys r
      → SpawnSpec start (with_image path buffer npages s r)
  unfolding with_image
  with_image_lem path buffer npages s (pos n, none, sys) h l = elim l [ ]
  with_image_lem path buffer npages s (negsuc e, none, sys) h l =
      refused_early e (given_back buffer npages s sys) (given_back-Kept buffer npages s sys h l)
  with_image_lem path buffer npages s (code, some image, sys) h l =
      with_slot_lem path image (given_back buffer npages s sys)
        (given_back-Kept buffer npages s sys h l)

  Kept-start : Kept start
  Kept-start = record { same = (SameIds-refl start.sys.procs, refl); counter = refl }

  -- The memory, the file systems and nothing else differ.
  Kept-with : (mm : Mm) (drive : F) → Kept (with_mm mm (record start { drive = drive }))
  Kept-with mm drive = record { same = (SameIds-refl start.sys.procs, refl); counter = refl }

  with_buffer_lem :
      (fat : Fat F) (path : List ℕ) (sz npages : ℕ) (r : Option ℕ × Mm)
      → SpawnSpec start (with_buffer fat path sz npages start r)
  unfolding with_buffer
  with_buffer_lem fat path sz npages (none, mm) =
      refused_early 0 (with_mm mm start) (Kept-with mm start.drive)
  with_buffer_lem fat path sz npages (some buffer, mm) =
      let (r, drive, file) =
        vfs_read_file fat path sz (record start.vfs { pages = mm }) start.drive in
      elim (Bool-cases (reads_all r sz)) [
        | inl whole ↦ rw whole (
            with_image_lem path buffer npages _ _ (Kept-with _ drive)
              (elf_load-Loads buffer file _))
        | inr short ↦ rw short (
            refused_early 0
              (with_mm
                (mm_free_pages buffer npages (record mm { mem = put_bytes mm.mem buffer file }))
                (record start { drive = drive }))
              (Kept-with _ drive))
      ]

  with_size_lem :
      (fat : Fat F) (path : List ℕ) (r : ℤ) → SpawnSpec start (with_size fat path start r)
  unfolding with_size
  with_size_lem fat path (negsuc e) = refused_early 0 start Kept-start
  with_size_lem fat path (pos sz) = with_buffer_lem fat path sz (buffer_pages sz) _

-- A spawn by a process in use, in a table whose pids are below the next one, either returns that pid,
-- and has put a child of the caller with it in a slot that was free and changed no slot's use, pid or
-- parent besides, in a table that is well-formed again with its pids below the new counter; or returns a negative code, with the counter as it was and every process in use in its
-- slot with its pid and parent.
pub proc_spawn_elf_lem :
    {F : Type 0} (fat : Fat F) (path : List ℕ) (s : Spawner F)
    → IsTable s.sys.procs
    → PidsBelow s.next_pid s.sys.procs
    → (spawn_caller s.sys).used ≡ true
    → SpawnSpec s (proc_spawn_elf fat path s)
unfolding proc_spawn_elf
proc_spawn_elf_lem fat path s table below live = with_size_lem s table below live fat path _
