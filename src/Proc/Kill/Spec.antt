-- ===== src/Proc/Kill/Spec.antt =====
-- What `proc_kill` does, on each of its branches, and that it ends.
use zeros_i.Base.{ℕ, ◌≤◌, ◌<◌, ◌≡◌, ◌≢◌, Bool, true, false, ◌⊎◌, Option, none, some, List, []}
use zeros_i.Proc.{zombie, Proc, is_zombie, proc_at, proc_get}
use zeros_i.Proc.Kill.{Sys}
use zeros_i.Proc.Kill.Table.{IsTable}
use zeros_i.Proc.Kill.Tree.{Under}

-- The process table after `bury`.
abbrev buried : List Proc → ℕ → Proc
buried procs p = record (proc_at procs p) {
  exit_code = 137;
  state = zombie;
  saved_kframe = 0;
  cons_enable = false;
  cons_out = [];
  cons_in_keys = [];
  cons_in_pos = 0;
}

-- Every pid is below the counter from which the next one comes.
abbrev pub PidsBelow : ℕ → List Proc → Type 0
PidsBelow next_pid procs =
    (j : ℕ) → (proc_at procs j).used ≡ true → (proc_at procs j).pid < next_pid

-- The process at `i` has ended, with every process below it, and no other process was touched.
pub record KillsTree (a b : List Proc) (i : ℕ) : Type 0 where
  pub zombie_left : ((proc_at b i).used ≡ true) × (is_zombie (proc_at b i).state ≡ true)
  pub tree_gone : (j : ℕ) → Under a (proc_at a i).pid j → (proc_at b j).used ≡ false
  pub others : (j : ℕ) → j ≢ i → ¬ Under a (proc_at a i).pid j → proc_at b j ≡ proc_at a j

-- The outcome of `proc_kill` on each of its branches.
abbrev pub KillSpec : Sys → ℕ → Option (Bool × Sys) → Type 0
KillSpec s pid none = ⊥
KillSpec s pid (some (false, s')) =
    (s' ≡ s)
    × ((proc_get s.procs pid ≡ none) ⊎ ((pid ≤ 1) ⊎ (pid ≡ (proc_at s.procs s.current).pid)))
KillSpec s pid (some (true, s')) =
    (i : ℕ) × (proc_get s.procs pid ≡ some i)
    × (1 < pid)
    × (pid ≢ (proc_at s.procs s.current).pid)
    × (((is_zombie (proc_at s.procs i).state ≡ true) × (s' ≡ s))
        ⊎ (KillsTree s.procs s'.procs i × IsTable s'.procs))
