-- ===== src/Proc/Kill.antt =====
-- kernel/proc/proc.c, `proc_reap`, `proc_kill_one` and `proc_kill`, and `display_destroy_pid` of
-- kernel/gui/display.c, which they call.
pub mod Table
pub mod Tree
pub mod Rounds
pub mod Spec
use zeros_i.Base.{
  ℕ, zero, suc, ◌+◌, ◌-◌, ◌*◌, Bool, true, false, ◌&&◌, ◌||◌, not, Option, none, some, List, [],
  ◌∷◌, ltb, leb, ◌==◌, if◌then◌else◌, set,
}
use zeros_i.Gui.Window.{GuiWin, cleared_win}
use zeros_i.Mm.{Mm, page_size, mm_free_pages}
use zeros_i.Proc.{State, zombie, Proc, proc_max, is_zombie, proc_at, proc_get}

pub record Sys : Type 0 where
  pub procs : List Proc
  pub current : ℕ
  pub gwins : List GuiWin
  pub mm : Mm

-- The loop of `display_destroy_pid`, with the pages that it gives back.
unfoldable pub destroy_wins : ℕ → List GuiWin → Mm → List GuiWin × Mm
destroy_wins pid [] mm = ([], mm)
destroy_wins pid (w ∷ gwins) mm =
    let hit = w.win_used && (w.client_pid == pid) in
    let mm' = if hit && not (w.pixels == 0) then mm_free_pages w.pixels w.pages mm else mm in
    let (rest, mm'') = destroy_wins pid gwins mm' in ((if hit then cleared_win else w) ∷ rest, mm'')

-- A pid is an `int` above 0 here.
unfoldable pub display_destroy_pid : ℕ → Sys → Sys
display_destroy_pid pid s =
    let (gwins', mm') = destroy_wins pid s.gwins s.mm in
    if pid == 0 then s else record s { gwins = gwins'; mm = mm' }

abbrev free_unless_null : ℕ → ℕ → ℕ → Mm → Mm
free_unless_null test p n mm = if test == 0 then mm else mm_free_pages p n mm

-- The memory of a process that is reaped: shadow, user stack, kernel stack.
pub free_memory : Proc → Mm → Mm
free_memory p mm = free_unless_null p.kstack_top (p.kstack_top - 4 * page_size) 4 (
    free_unless_null p.ustack p.ustack p.ustack_pages
      (free_unless_null p.image_shadow p.image_shadow p.image_pages mm))

pub reap_at : ℕ → Sys → Sys
reap_at i s = record s {
  procs = set s.procs i (record (proc_at s.procs i) { used = false });
  mm = free_memory (proc_at s.procs i) s.mm;
}

-- The status is false for -1.
pub proc_reap : ℕ → Sys → Bool × Sys
proc_reap pid s = elim (proc_get s.procs pid) [
  | none ↦ (false, s)
  | some i ↦ if is_zombie (proc_at s.procs i).state then (true, reap_at i s) else (false, s)
]

-- The end of `proc_kill_one`.
pub bury : ℕ → Sys → Sys
bury p s =
    let s' = display_destroy_pid (proc_at s.procs p).pid s in
    record s' {
      procs = set s'.procs p (record (proc_at s'.procs p) {
        exit_code = 137;
        state = zombie;
        saved_kframe = 0;
        cons_enable = false;
        cons_out = [];
        cons_in_keys = [];
        cons_in_pos = 0;
      });
    }

abbrev pub is_child : Sys → ℕ → ℕ → Bool
is_child s p i = (proc_at s.procs i).used && ((proc_at s.procs i).ppid == (proc_at s.procs p).pid)

-- The second half of the loop's body: the killed child `i`, of pid `cpid`, is reaped.
pub reap_child : ℕ → ℕ → Sys → Sys
reap_child i cpid s =
    if (proc_at s.procs i).used && is_zombie (proc_at s.procs i).state
    then (proc_reap cpid s).1
    else s

-- The loop of `proc_kill_one` over the table, `k` rounds before `i` reaches its end; `kill` is the
-- recursive call.
pub kill_children : (ℕ → Sys → Option Sys) → ℕ → ℕ → ℕ → Sys → Option Sys
kill_children kill p zero i s = some s
kill_children kill p (suc k) i s = elim (is_child s p i) [
  | false ↦ kill_children kill p k (i + 1) s
  | true ↦ elim (kill i s) [
    | none ↦ none
    | some s' ↦ kill_children kill p k (i + 1) (reap_child i (proc_at s.procs i).pid s')
  ]
]

abbrev pub bury_if : ℕ → Option Sys → Option Sys
bury_if p none = none
bury_if p (some s) = some (bury p s)

-- `fuel` bounds the depth of the recursion; `none` says that it was not enough.
pub kill_one : ℕ → ℕ → Sys → Option Sys
kill_one zero p s = none
kill_one (suc fuel) p s =
    let rest = bury_if p (kill_children (kill_one fuel) p proc_max 0 s) in
    if not (proc_at s.procs p).used || leb (proc_at s.procs p).pid 1
    then some s
    else if is_zombie (proc_at s.procs p).state
    then some s
    else rest

-- `proc_kill` once the process is found, at `p`. The status is false for -1.
pub kill_at : ℕ → ℕ → ℕ → Sys → Option (Bool × Sys)
kill_at fuel pid p s =
    if leb pid 1 || (pid == (proc_at s.procs s.current).pid)
    then some (false, s)
    else if is_zombie (proc_at s.procs p).state
    then some (true, s)
    else elim (kill_one fuel p s) [ none ↦ none | some s' ↦ some (true, s') ]

-- A null `current` is not modelled: `proc_init` sets it for good.
pub proc_kill : ℕ → ℕ → Sys → Option (Bool × Sys)
proc_kill fuel pid s = elim (proc_get s.procs pid) [
  | none ↦ some (false, s)
  | some p ↦ kill_at fuel pid p s
]
