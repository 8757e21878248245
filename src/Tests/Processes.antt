-- ===== src/Tests/Processes.antt =====
-- Runs of kernel/proc/: a table with three processes, each the child of the one before.
use zeros_i.Base.{
  ℕ, zero, suc, ◌*◌, ◌+◌, ◌≤◌, false, some, ◌<◌, ◌≡◌, refl, sym, ap, ◌∙◌, ◌==◌, if◌then◌else◌, true,
  List, [], ◌∷◌, ◌++◌, replicate, get_or, arith,
}
use zeros_i.Base.Int.{pos}
use zeros_i.Memory.{word}
use zeros_i.Mm.{mm_init, heap_end, page_size}
use zeros_i.Mm.Alloc.{mm_init-IsBitmap}
use zeros_i.Proc.Elf.{elf_load, is_elf}
use zeros_i.Proc.Elf.Place.{LoadSpec, elf_load_lem}
use zeros_i.Proc.Swap.{must_move, proc_evict_range, proc_ensure_resident, yield_from}
use zeros_i.Proc.Swap.Evict.{EvictSpec, proc_evict_range_lem}
use zeros_i.Proc.Slices.{
  Slices, entered, enter_resident, proc_run_blocking, proc_return_to_kernel, exit_state, proc_exit,
}
use zeros_i.Proc.Slices.Nesting.{idle, wait_exit, Same, Runs-Same}
use zeros_i.Proc.{running, zombie}
use zeros_i.Proc.{ready, Proc, cleared, proc_at}
use zeros_i.Proc.Kill.{Sys}
use zeros_i.Proc.Kill.Table.{IsTable}
use zeros_i.Proc.Kill.Spec.{PidsBelow}

abbrev process : ℕ → ℕ → Proc
process pid ppid = record cleared { used = true; pid = pid; ppid = ppid; state = ready }

abbrev table : List Proc
table = process 1 0 ∷ process 3 1 ∷ process 4 3 ∷ replicate 13 cleared

rest_unused : (n i : ℕ) → ¬ (get_or (replicate n cleared) i cleared).used ≡ true
rest_unused zero i u = absurd (ground arith)
rest_unused (suc n) zero u = absurd (ground arith)
rest_unused (suc n) (suc i) u = rest_unused n i u

table_older :
    (i : ℕ) → (proc_at table i).used ≡ true → (proc_at table i).ppid < (proc_at table i).pid
table_older zero u = omega arith
table_older (suc zero) u = omega arith
table_older (suc (suc zero)) u = omega arith
table_older (suc (suc (suc i))) u = absurd (rest_unused 13 i u)

-- The pid tells the slot.
abbrev place : ℕ → ℕ
place pid = if pid == 1 then 0 else if pid == 3 then 1 else 2

slot : (i : ℕ) → (proc_at table i).used ≡ true → i ≡ place (proc_at table i).pid
slot zero u = refl
slot (suc zero) u = refl
slot (suc (suc zero)) u = refl
slot (suc (suc (suc i))) u = absurd (rest_unused 13 i u)

pub table-IsTable : IsTable table
table-IsTable = record {
  len = refl;
  older = table_older;
  distinct = λ i j u w e. slot i u ∙ ap place e ∙ sym (slot j w);
}

pub table_below : PidsBelow 5 table
table_below zero u = omega arith
table_below (suc zero) u = omega arith
table_below (suc (suc zero)) u = omega arith
table_below (suc (suc (suc i))) u = absurd (rest_unused 13 i u)

abbrev pub machine : Sys
machine = record { procs = table; current = 0; gwins = []; mm = mm_init (λ x. 0) }

-- A program in place at 0x02000000, of one page.
abbrev loaded : Proc
loaded = record (process 3 1) { image = 0x02000000; image_pages = 1; kstack_top = 0x500000 }

abbrev one_image : Sys
one_image = record machine { procs = process 1 0 ∷ loaded ∷ replicate 14 cleared }

one_image_moves :
    (j : ℕ)
    → must_move 0x02000000 0x02001000 (proc_at one_image.procs j) ≡ true
    → (heap_end ≤ (proc_at one_image.procs j).image)
      × ((proc_at one_image.procs j).image + (proc_at one_image.procs j).image_pages * page_size
          < word)
one_image_moves zero m = absurd (ground (arith, m))
one_image_moves (suc zero) m = (omega arith, omega arith)
one_image_moves (suc (suc j)) m = absurd (none_moves 14 j m)
  where
    none_moves :
        (n j : ℕ)
        → ¬ must_move 0x02000000 0x02001000 (get_or (replicate n cleared) j cleared) ≡ true
    none_moves zero j m = absurd (ground (arith, m))
    none_moves (suc n) zero m = absurd (ground (arith, m))
    none_moves (suc n) (suc j) m = none_moves n j m

zero_bytes : (x : ℕ) → one_image.mm.mem x < 256
unfolding mm_init
zero_bytes x = omega arith

proc_evict_range_lem_example :
    EvictSpec 0x02000000 0x02001000 one_image (proc_evict_range 0x02000000 0x02001000 one_image)
proc_evict_range_lem_example = proc_evict_range_lem 0x02000000 0x02001000 one_image (record {
  len = refl;
  bitmap = mm_init-IsBitmap (λ x. 0);
  bytes = zero_bytes;
  images = one_image_moves;
})

-- The first process, which waits for the second.
abbrev waiting : Slices
waiting = record { sys = one_image; block_stack = []; fg_pid = 1; resume_yielded = false }

abbrev in_child : Slices
in_child = record {
  sys = record one_image {
    procs = process 1 0 ∷ record loaded { state = running; started = true } ∷ replicate 14 cleared;
    current = 1;
  };
  block_stack = 0 ∷ [];
  fg_pid = 3;
  resume_yielded = false;
}

abbrev back : Slices
back = record {
  sys = record one_image {
    procs =
        record (process 1 0) { state = running }
        ∷ record loaded { state = zombie; started = true; exit_code = 5 }
        ∷ replicate 14 cleared;
  };
  block_stack = [];
  fg_pid = 1;
  resume_yielded = false;
}

child_entered : proc_run_blocking 1 waiting ≡ entered in_child
unfolding proc_run_blocking enter_resident proc_ensure_resident yield_from
child_entered = refl

child_exits : proc_exit 5 in_child ≡ some (pos 5, back)
unfolding proc_exit exit_state proc_return_to_kernel proc_ensure_resident yield_from
child_exits = refl

Runs-Same_example : Same waiting back
Runs-Same_example = Runs-Same waiting back (
    wait_exit 1 5 (pos 5) waiting in_child in_child back back child_entered (idle in_child)
      child_exits (idle back))

-- A file with one segment of eight bytes, the first four of which come from the file.
abbrev pub program : List ℕ
program =
    0x7F
    ∷ 69
    ∷ 76
    ∷ 70
    ∷ (replicate 12 0
        ++ (2
            ∷ 0
            ∷ 3
            ∷ 0
            ∷ (replicate 4 0
                ++ (0
                    ∷ 0
                    ∷ 0
                    ∷ 2
                    ∷ 52
                    ∷ 0
                    ∷ 0
                    ∷ 0
                    ∷ (replicate 12 0
                        ++ (1
                            ∷ 0
                            ∷ (replicate 6 0
                                ++ (1
                                    ∷ 0
                                    ∷ 0
                                    ∷ 0
                                    ∷ 0
                                    ∷ 0
                                    ∷ 0
                                    ∷ 0
                                    ∷ 0
                                    ∷ 0
                                    ∷ 0
                                    ∷ 2
                                    ∷ (replicate 4 0
                                        ++ (4 ∷ 0 ∷ 0 ∷ 0 ∷ 8 ∷ 0 ∷ 0 ∷ 0 ∷ replicate 8 0))))))))))

elf_load_lem_example : LoadSpec 0x00500000 program machine (elf_load 0x00500000 program machine)
elf_load_lem_example =
    elf_load_lem 0x00500000 program machine (omega arith) (omega arith)
      ((λ load. (omega arith, omega arith)), tt)

is_elf-program : is_elf program ≡ true
is_elf-program = refl
