-- ===== src/Proc/Slices.antt =====
-- kernel/proc/proc.c: the stack of waiting parents. `proc_run_blocking` pushes the caller and makes the
-- child current, `proc_return_to_kernel` takes the parent back, `proc_exit` and `proc_yield_to_parent`
-- end in it, and `proc_wait` reaps. The jumps, the stack pointers and the trap frames are not
-- modelled: what runs between entering a child and its return is a parameter.
pub mod Nesting
pub mod Windows
use zeros_i.Base.{
  ℕ, ◌+◌, ◌-◌, Bool, true, false, ◌&&◌, ◌||◌, not, Option, none, some, List, [], ◌∷◌, ltb, leb,
  ◌==◌, if◌then◌else◌, get_or, set, length, replicate,
}
use zeros_i.Base.Int.{ℤ, pos, negsuc}
use zeros_i.Mm.{Mm}
use zeros_i.Proc.{
  State, free, ready, running, blocked, zombie, Proc, cleared, proc_max, is_zombie, proc_at,
  proc_get,
}
use zeros_i.Gui.Window.{GuiWin}
use zeros_i.Proc.Kill.{Sys, proc_reap}
use zeros_i.Proc.Swap.{proc_ensure_resident}

-- The globals that these functions use. `block_stack` holds the indices of the waiting parents, the
-- last one first; `fg_pid` is also what `tty_set_fg` was told.
pub record Slices : Type 0 where
  pub sys : Sys
  pub block_stack : List ℕ
  pub fg_pid : ℕ
  pub resume_yielded : Bool

abbrev pub block_stack_max : ℕ
block_stack_max = 8

abbrev pub current_of : Slices → ℕ
current_of s = s.sys.current

abbrev pub process_at : Slices → ℕ → Proc
process_at s i = proc_at s.sys.procs i

abbrev pub update : ℕ → Proc → Slices → Slices
update i p s = record s { sys = record s.sys { procs = set s.sys.procs i p } }

abbrev pub set_state : ℕ → State → Slices → Slices
set_state i st s = update i (record (process_at s i) { state = st }) s

-- What `proc_init` sets: the first process, of pid 1. The name and directory are "zerosd" and "/sys".
pub proc_init : List GuiWin → Mm → Slices
proc_init gwins mm = record {
  sys = record {
    procs = set (replicate proc_max cleared) 0 (record cleared {
      used = true;
      pid = 1;
      state = running;
      name = b'z' ∷ b'e' ∷ b'r' ∷ b'o' ∷ b's' ∷ b'd' ∷ [];
      cwd = b'/' ∷ b's' ∷ b'y' ∷ b's' ∷ [];
    });
    current = 0;
    gwins = gwins;
    mm = mm;
  };
  block_stack = [];
  fg_pid = 1;
  resume_yielded = false;
}

-- `proc_run_blocking` up to its jump: refused with a code, or in the child.
pub data Entry : Type 0 where
  refused : ℤ → Slices → Entry
  entered : Slices → Entry

-- From the swap to the jump; `prev` is the caller. A failed swap leaves `fg_pid` as it is.
unfoldable pub enter_resident : ℕ → ℕ → Slices → Entry
enter_resident p prev s =
    let s' = record s { sys = proc_ensure_resident p s.sys } in
    if (process_at s' p).image_evicted
    then refused (negsuc 1) (
        set_state p ready
          (set_state prev running (record s' { sys = record s'.sys { current = prev } })))
    else entered (
        update p (record (process_at s' p) { saved_kframe = 0 })
          (record s' { block_stack = prev ∷ s'.block_stack }))

unfoldable pub proc_run_blocking : ℕ → Slices → Entry
proc_run_blocking p s =
    let prev = s.sys.current in
    let s1 = set_state prev ready s in
    let s2 = update p (record (process_at s1 p) { state = running; started = true }) s1 in
    let s3 = record s2 {
      sys = record s2.sys { current = p };
      fg_pid = (process_at s2 p).pid;
      resume_yielded = false;
    } in
    if leb block_stack_max (length s.block_stack)
    then refused (negsuc 0) s
    else enter_resident p prev s3

-- The code that the parent's call gets, and the state in which it goes on; `none` where no parent
-- waits and the function just returns.
unfoldable pub proc_return_to_kernel : Slices → Option (ℤ × Slices)
proc_return_to_kernel s =
    let code = if s.resume_yielded then negsuc 1 else pos (process_at s s.sys.current).exit_code in
    elim s.block_stack [
      | [] ↦ none
      | parent ∷ waiting ↦
          let s1 = set_state parent running (record s {
            sys = record s.sys { current = parent };
            block_stack = waiting;
            fg_pid = (process_at s parent).pid;
            resume_yielded = false;
          }) in
          some (code, record s1 { sys = proc_ensure_resident parent s1.sys })
    ]

-- The first process cannot exit: then, and where no parent waits, the function returns (`none`).
unfoldable pub exit_state : ℕ → Slices → Slices
exit_state code s =
    let i = s.sys.current in
    record (update i
      (record (process_at s i) { exit_code = code; state = zombie; saved_kframe = 0 }) s) {
        resume_yielded = false;
      }

unfoldable pub proc_exit : ℕ → Slices → Option (ℤ × Slices)
proc_exit code s =
    if (process_at s s.sys.current).pid == 1
    then none
    else proc_return_to_kernel (exit_state code s)

-- The registers of a trap frame, and its address.
pub record Frame : Type 0 where
  pub frame_eip : ℕ
  pub frame_esp : ℕ
  pub frame_eax : ℕ
  pub address : ℕ

pub yield_state : Frame → Slices → Slices
yield_state frame s =
    let i = s.sys.current in
    record (update i
      (record (process_at s i) {
        user_eip = frame.frame_eip;
        user_esp = frame.frame_esp;
        user_eax = frame.frame_eax;
        saved_kframe = frame.address;
        state = ready;
      })
      s) { resume_yielded = true }

pub proc_yield_to_parent : Frame → Slices → Option (ℤ × Slices)
proc_yield_to_parent frame s =
    if length s.block_stack == 0 then none else proc_return_to_kernel (yield_state frame s)

abbrev pub is_running : State → Bool
is_running running = true
is_running _ = false

pub sched_on_timer : Slices → Slices
sched_on_timer s =
    let i = s.sys.current in
    if is_running (process_at s i).state
    then update i (record (process_at s i) { need_preempt = true }) s
    else s

pub proc_set_fg : ℕ → Slices → Slices
proc_set_fg pid s = record s { fg_pid = pid }

abbrev pub can_wait_for : State → Bool
can_wait_for ready = true
can_wait_for running = true
can_wait_for zombie = true
can_wait_for _ = false

-- The search of `proc_wait` for any child of the process `ppid`, from index `i` on.
pub any_child : List Proc → ℕ → ℕ → Option ℕ
any_child [] ppid i = none
any_child (p ∷ procs) ppid i =
    let rest = any_child procs ppid (i + 1) in
    if p.used && ((p.ppid == ppid) && can_wait_for p.state) then some i else rest

-- A pid of 0 stands for every pid that is not positive.
pub wait_child : ℕ → Slices → Option ℕ
wait_child pid s =
    if ltb 0 pid
    then proc_get s.sys.procs pid
    else any_child s.sys.procs (process_at s s.sys.current).pid 0

-- The end of `proc_wait`: the pid, the status, and the child reaped.
pub collect : ℕ → Slices → ℤ × ℤ × Slices
collect child s =
    let p = process_at s child in
    (pos p.pid, pos p.exit_code, record s { sys = (proc_reap p.pid s.sys).1 })

-- The state in which `proc_wait` goes on after `proc_run_blocking`: `run` goes from the state in the
-- child to the one in which the parent is back.
abbrev pub after_entry : (Slices → Slices) → Entry → Slices
after_entry run (refused code s) = s
after_entry run (entered s) = run s

pub wait_for : (Slices → Slices) → ℕ → Slices → ℤ × ℤ × Slices
wait_for run child s =
    let s' = after_entry run (proc_run_blocking child s) in
    if is_zombie (process_at s child).state
    then collect child s
    else if is_zombie (process_at s' child).state
    then collect child s'
    else (negsuc 1, negsuc 1, s')

-- What it returns, and the status where it stores one.
pub proc_wait : (Slices → Slices) → ℕ → Slices → Option (ℤ × ℤ × Slices)
proc_wait run pid s = elim (wait_child pid s) [
  | none ↦ none
  | some child ↦ some (wait_for run child s)
]
