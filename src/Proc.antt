-- ===== src/Proc.antt =====
-- kernel/proc/proc.h and kernel/proc/proc.c: the process table, and the parts that look into it.
-- `Proc.Cons` is the console of a process, `Proc.Swap` the images that share an address,
-- `Proc.Kill` its end, `Proc.Slices` the waiting parents.
pub mod Cons
pub mod Kill
pub mod Swap
pub mod Slices
pub mod Elf
pub mod Spawn
use zeros_i.Base.{
  ℕ, zero, suc, ◌+◌, ◌-◌, ◌*◌, ◌%◌, ◌^◌, Bool, true, false, ◌&&◌, ◌||◌, not, Option, none, some,
  List, [], ◌∷◌, ◌++◌, ltb, leb, ◌==◌, if◌then◌else◌, get_or, set, length, replicate,
}
use zeros_i.Mm.{Mm}

pub data State : Type 0 where
  free ready running blocked zombie : State

-- `cons_out` holds the first `cons_out_len` cells of its array, and `cons_in_keys` those up to
-- `cons_in_len`; a pointer is 0 when it is null, and a process pointer is an index of the table.
pub record Proc : Type 0 where
  pub used : Bool
  pub pid : ℕ
  pub ppid : ℕ
  pub state : State
  pub exit_code : ℕ
  pub started : Bool
  pub name : List ℕ
  pub cwd : List ℕ
  pub entry : ℕ
  pub user_esp : ℕ
  pub user_eip : ℕ
  pub kstack_top : ℕ
  pub image : ℕ
  pub image_pages : ℕ
  pub image_shadow : ℕ
  pub image_evicted : Bool
  pub ustack : ℕ
  pub ustack_pages : ℕ
  pub brk : ℕ
  pub user_eax : ℕ
  pub saved_kframe : ℕ
  pub cons_enable : Bool
  pub cons_host : Bool
  pub cons_sink : ℕ
  pub cons_forbid : Bool
  pub cons_out : List ℕ
  pub cons_in_keys : List ℕ
  pub cons_in_pos : ℕ
  pub redir_in : ℕ
  pub redir_out : ℕ
  pub need_preempt : Bool

abbrev pub proc_max : ℕ
proc_max = 16

-- `kmemset(&procs[i], 0, sizeof(procs[i]))`
abbrev pub cleared : Proc
cleared = record {
  used = false;
  pid = 0;
  ppid = 0;
  state = free;
  exit_code = 0;
  started = false;
  name = [];
  cwd = [];
  entry = 0;
  user_esp = 0;
  user_eip = 0;
  kstack_top = 0;
  image = 0;
  image_pages = 0;
  image_shadow = 0;
  image_evicted = false;
  ustack = 0;
  ustack_pages = 0;
  brk = 0;
  user_eax = 0;
  saved_kframe = 0;
  cons_enable = false;
  cons_host = false;
  cons_sink = 0;
  cons_forbid = false;
  cons_out = [];
  cons_in_keys = [];
  cons_in_pos = 0;
  redir_in = 0;
  redir_out = 0;
  need_preempt = false;
}

abbrev pub is_zombie : State → Bool
is_zombie zombie = true
is_zombie _ = false

abbrev pub proc_at : List Proc → ℕ → Proc
proc_at procs i = get_or procs i cleared

-- The loop of `proc_get`, from index `i` on; `none` is a null pointer.
unfoldable pub get_from : List Proc → ℕ → ℕ → Option ℕ
get_from [] pid i = none
get_from (p ∷ procs) pid i =
    let rest = get_from procs pid (i + 1) in if p.used && (p.pid == pid) then some i else rest

unfoldable pub proc_get : List Proc → ℕ → Option ℕ
proc_get procs pid = get_from procs pid 0

-- A negative index is a pattern above `PROC_MAX`.
pub proc_get_by_index : List Proc → ℕ → Option ℕ
proc_get_by_index procs i = if leb proc_max i || not (proc_at procs i).used then none else some i

-- The loop of `alloc_proc`, from index `i` on.
unfoldable pub free_from : List Proc → ℕ → Option ℕ
free_from [] i = none
free_from (p ∷ procs) i = let rest = free_from procs (i + 1) in if p.used then rest else some i

-- Slot 0 is never handed out.
unfoldable pub alloc_slot : List Proc → Option ℕ
alloc_slot [] = none
alloc_slot (p ∷ procs) = free_from procs 1

pub alloc_proc : List Proc → Option ℕ × List Proc
alloc_proc procs = elim (alloc_slot procs) [
  | none ↦ (none, procs)
  | some i ↦ (some i, set procs i (record cleared { used = true }))
]

-- What `proc_psinfo` reports of the `n`-th process in use.
pub record PsInfo : Type 0 where
  pub info_pid : ℕ
  pub info_ppid : ℕ
  pub info_state : State
  pub info_name : List ℕ

-- The loop of `proc_psinfo`, with `seen` processes passed; `none` is -1.
pub psinfo_from : List Proc → ℕ → ℕ → Option PsInfo
psinfo_from [] n seen = none
psinfo_from (p ∷ procs) n seen =
    let found : PsInfo = record {
      info_pid = p.pid;
      info_ppid = p.ppid;
      info_state = p.state;
      info_name = p.name;
    } in
    let rest = psinfo_from procs n (if p.used then seen + 1 else seen) in
    if p.used && (seen == n) then some found else rest

pub proc_psinfo : List Proc → ℕ → Option PsInfo
proc_psinfo procs n = psinfo_from procs n 0
