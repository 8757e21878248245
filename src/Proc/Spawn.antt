-- ===== src/Proc/Spawn.antt =====
-- kernel/proc/proc.c: `proc_spawn_elf`, and what the next spawn is to get.
pub mod Adds
pub mod Loads
pub mod Table
pub mod Leak
use zeros_i.Base.{
  ℕ, zero, suc, ◌+◌, ◌-◌, ◌*◌, ◌/◌, ◌%◌, Bool, true, false, ◌&&◌, ◌||◌, not, Option, none, some,
  List, [], ◌∷◌, leb, ◌==◌, if◌then◌else◌, set, replicate, length,
}
use zeros_i.Base.Int.{ℤ, pos, negsuc}
use zeros_i.Memory.{word, kmemset, put_bytes}
use zeros_i.Mm.{Mm, page_size, mm_alloc_pages, mm_free_pages}
use zeros_i.Str.{kstrncpy, cstr}
use zeros_i.Vfs.{Vfs}
use zeros_i.Vfs.Calls.{Fat, vfs_size, vfs_read_file}
use zeros_i.Proc.{ready, Proc, cleared, proc_at, alloc_proc}
use zeros_i.Proc.Kill.{Sys}
use zeros_i.Proc.Swap.{proc_ensure_resident}
use zeros_i.Proc.Elf.{Image, elf_load}

-- The globals of the spawns, with the rest of the kernel and the file systems. The pages of `vfs` are
-- those of `sys`. A descriptor is the pattern of an `int`. `next_pid` is an `int` that only grows; its
-- overflow, after 2 ^ 31 - 1 spawns, is undefined in C, and there is no behaviour to model then.
pub record Spawner (F : Type 0) : Type 0 where
  pub sys : Sys
  pub vfs : Vfs
  pub drive : F
  pub next_pid : ℕ
  pub spawn_cons_next : Bool
  pub spawn_redir_in : ℕ
  pub spawn_redir_out : ℕ

abbrev pub user_stack_size : ℕ
user_stack_size = 0x20000

abbrev pub user_stack_pages : ℕ
user_stack_pages = user_stack_size / page_size

abbrev pub no_fd : ℕ
no_fd = 0xFFFFFFFF

abbrev pub spawn_caller : Sys → Proc
spawn_caller s = proc_at s.procs s.current

-- A buffer of zeros that a string is copied to.
abbrev copied_to : ℕ → List ℕ → List ℕ
copied_to n s = cstr (kstrncpy (replicate n 0) s n)

-- The path's end after its last slash; `slash` is what there is so far.
unfoldable pub base_name : List ℕ → List ℕ → List ℕ
base_name slash [] = slash
base_name slash (c ∷ s) = base_name (if c == b'/' then s else slash) s

abbrev start_cwd : List ℕ
start_cwd = b'/' ∷ b's' ∷ b'y' ∷ b's' ∷ []

abbrev inherited_cwd : List ℕ → List ℕ
inherited_cwd [] = copied_to 128 start_cwd
inherited_cwd (c ∷ cwd) = copied_to 128 (c ∷ cwd)

-- Whose console the new process writes to; 0 is none.
abbrev sink_of : Bool → Proc → ℕ → ℕ
sink_of attach c pid =
    if attach
    then pid
    else if c.cons_enable
    then (if c.cons_sink == 0 then c.pid else c.cons_sink)
    else pid

abbrev gets_cons : Bool → Proc → Bool
gets_cons attach c = attach || (c.cons_enable || c.cons_host)

-- The addresses that a spawn has collected.
pub record Parts : Type 0 where
  pub image_of : Image
  pub stack_of : ℕ
  pub kernel_stack : ℕ

-- `*(uint32_t *)ustack = 0xDEADC0DEu;`
abbrev pub guarded : ℕ → Mm → Mm
guarded stack mm = record mm { mem = put_bytes mm.mem stack (0xDE ∷ 0xC0 ∷ 0xAD ∷ 0xDE ∷ []) }

abbrev pub reads_all : ℤ → ℕ → Bool
reads_all (pos r) sz = r == sz
reads_all (negsuc r) sz = false

-- At least one page.
abbrev pub buffer_pages : ℕ → ℕ
buffer_pages sz = if sz == 0 then 1 else (sz + page_size - 1) / page_size

module _ {F : Type 0} where
  -- Also marks the caller as a console host.
  unfoldable pub proc_set_spawn_cons : Bool → Spawner F → Spawner F
  proc_set_spawn_cons on s = record s {
    spawn_cons_next = on;
    sys = record s.sys {
      procs = set s.sys.procs s.sys.current (record (spawn_caller s.sys) { cons_host = on });
    };
  }

  unfoldable pub proc_set_spawn_redir : ℕ → ℕ → Spawner F → Spawner F
  proc_set_spawn_redir in_fd out_fd s = record s {
    spawn_redir_in = in_fd;
    spawn_redir_out = out_fd;
  }

  -- The fields of the new process.
  abbrev pub new_proc : List ℕ → Parts → Spawner F → Proc
  new_proc path parts s =
      let c = spawn_caller s.sys in
      let cons = gets_cons s.spawn_cons_next c in
      record cleared {
        used = true;
        pid = s.next_pid;
        ppid = c.pid;
        state = ready;
        name = copied_to 32 (base_name path path);
        cwd = inherited_cwd c.cwd;
        entry = parts.image_of.entry;
        user_esp = parts.stack_of + user_stack_size - 32;
        user_eip = parts.image_of.entry;
        kstack_top = parts.kernel_stack + 4 * page_size;
        image = parts.image_of.start;
        image_pages = parts.image_of.page_count_of;
        ustack = parts.stack_of;
        ustack_pages = user_stack_pages;
        brk = parts.image_of.break;
        cons_enable = cons;
        cons_sink = if cons then sink_of s.spawn_cons_next c s.next_pid else 0;
        redir_in = s.spawn_redir_in;
        redir_out = s.spawn_redir_out;
      }

  -- From `p->pid = next_pid++` on, for the slot `i`.
  unfoldable pub fill_proc : ℕ → List ℕ → Parts → Spawner F → ℤ × Spawner F
  fill_proc i path parts s =
      let sys = record s.sys {
        procs = set s.sys.procs i (new_proc path parts s);
        mm = record s.sys.mm {
          mem = kmemset s.sys.mm.mem (parts.stack_of + user_stack_size - 32) 0 32;
        };
      } in
      (
        pos s.next_pid,
        record s {
          sys = proc_ensure_resident sys.current sys;
          next_pid = s.next_pid + 1;
          spawn_cons_next = false;
          spawn_redir_in = no_fd;
          spawn_redir_out = no_fd;
        },
      )

  abbrev pub with_mm : Mm → Spawner F → Spawner F
  with_mm mm s = record s { sys = record s.sys { mm = mm } }

  unfoldable pub with_kernel_stack :
      ℕ → List ℕ → Image → ℕ → Spawner F → Option ℕ × Mm → ℤ × Spawner F
  with_kernel_stack i path image stack s (none, mm) = (negsuc 0, with_mm mm s)
  with_kernel_stack i path image stack s (some ks, mm) =
      fill_proc i path (record { image_of = image; stack_of = stack; kernel_stack = ks })
        (with_mm mm s)

  unfoldable pub with_stack : ℕ → List ℕ → Image → Spawner F → Option ℕ × Mm → ℤ × Spawner F
  with_stack i path image s (none, mm) = (negsuc 0, with_mm mm s)
  with_stack i path image s (some stack, mm) =
      with_kernel_stack i path image stack s (mm_alloc_pages 4 (guarded stack mm))

  -- From the call of `alloc_proc` on, with what that returned.
  unfoldable pub with_slot : List ℕ → Image → Spawner F → Option ℕ × List Proc → ℤ × Spawner F
  with_slot path image s (none, procs) = (negsuc 0, s)
  with_slot path image s (some i, procs) =
      with_stack i path image (record s { sys = record s.sys { procs = procs } })
        (mm_alloc_pages user_stack_pages s.sys.mm)

  -- The buffer of the file is given back, whatever `elf_load` returned.
  unfoldable pub with_image : List ℕ → ℕ → ℕ → Spawner F → ℤ × Option Image × Sys → ℤ × Spawner F
  with_image path buffer npages s (code, none, sys) =
      (code, record s { sys = record sys { mm = mm_free_pages buffer npages sys.mm } })
  with_image path buffer npages s (code, some image, sys) =
      let s' = record s { sys = record sys { mm = mm_free_pages buffer npages sys.mm } } in
      with_slot path image s' (alloc_proc s'.sys.procs)

  -- With the file's size, and the buffer for it.
  unfoldable pub with_buffer : Fat F → List ℕ → ℕ → ℕ → Spawner F → Option ℕ × Mm → ℤ × Spawner F
  with_buffer fat path sz npages s (none, mm) = (negsuc 0, with_mm mm s)
  with_buffer fat path sz npages s (some buffer, mm) =
      let (r, drive, file) = vfs_read_file fat path sz (record s.vfs { pages = mm }) s.drive in
      let s' =
        with_mm (record mm { mem = put_bytes mm.mem buffer file }) (record s { drive = drive }) in
      if reads_all r sz
      then with_image path buffer npages s' (elf_load buffer file s'.sys)
      else (negsuc 0, with_mm (mm_free_pages buffer npages s'.sys.mm) s')

  unfoldable pub with_size : Fat F → List ℕ → Spawner F → ℤ → ℤ × Spawner F
  with_size fat path s (negsuc e) = (negsuc 0, s)
  with_size fat path s (pos sz) =
      with_buffer fat path sz (buffer_pages sz) s (mm_alloc_pages (buffer_pages sz) s.sys.mm)

  -- The arguments are not used by the function.
  pub proc_spawn_elf : Fat F → List ℕ → Spawner F → ℤ × Spawner F
  proc_spawn_elf fat path s =
      with_size fat path s (vfs_size fat path (record s.vfs { pages = s.sys.mm }) s.drive)
