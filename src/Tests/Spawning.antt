-- ===== src/Tests/Spawning.antt =====
-- Runs of kernel/proc/: a spawn of a program on the FAT drive, by the first of three processes.
use zeros_i.Base.{ℕ, ◌+◌, ◌/◌, ◌≡◌, refl, true, false, some, List, [], ◌∷◌, length, replicate}
use zeros_i.Base.Int.{pos}
use zeros_i.Mm.{page_count}
use zeros_i.Vfs.Calls.{Fat}
use zeros_i.Proc.{free_from, alloc_slot, alloc_proc}
use zeros_i.Proc.Elf.{Image}
use zeros_i.Proc.Spawn.{Spawner, no_fd, with_slot, proc_spawn_elf}
use zeros_i.Proc.Spawn.Table.{SpawnSpec, proc_spawn_elf_lem}
use zeros_i.Proc.Spawn.Leak.{Leaks, with_slot-Leaks}
use zeros_i.Tests.Processes.{machine, program, table-IsTable, table_below}

-- A drive on which each path is the program.
abbrev pub one_program : Fat Unit
one_program = record {
  fat_is_path = λ d path. true;
  fat_open = λ path flags d. (pos 100, d);
  fat_close = λ fd d. (pos 0, d);
  fat_read = λ fd n d. (pos (length program), d, program);
  fat_write = λ fd bytes d. (pos 0, d);
  fat_listdir = λ path n d. (pos 0, []);
  fat_mkdir = λ path d. (pos 0, d);
  fat_exists = λ d path. true;
  fat_isdir = λ d path. false;
  fat_unlink = λ path d. (pos 0, d);
  fat_file_size = λ d path. length program;
}

abbrev spawner : Spawner Unit
spawner = record {
  sys = machine;
  vfs = record { nodes = []; opens = []; root = 0; pages = machine.mm };
  drive = tt;
  next_pid = 5;
  spawn_cons_next = true;
  spawn_redir_in = no_fd;
  spawn_redir_out = no_fd;
}

abbrev path : List ℕ
path = b'/' ∷ b'd' ∷ b'/' ∷ b'm' ∷ []

proc_spawn_elf_lem_example : SpawnSpec spawner (proc_spawn_elf one_program path spawner)
proc_spawn_elf_lem_example =
    proc_spawn_elf_lem one_program path spawner table-IsTable table_below refl

-- No page is free.
abbrev no_memory : Spawner Unit
no_memory = record spawner {
  sys = record machine {
    mm = record machine.mm { page_bitmap = replicate (page_count / 8 + 1) 0xFF };
  };
}

abbrev image : Image
image = record { entry = 0x02000000; start = 0x02000000; page_count_of = 1; break = 0x02000008 }

free_slot : alloc_slot machine.procs ≡ some 3
unfolding alloc_slot free_from
free_slot = refl

with_slot-Leaks_example : Leaks 3 (with_slot path image no_memory (alloc_proc machine.procs))
with_slot-Leaks_example = with_slot-Leaks path image no_memory 3 free_slot
