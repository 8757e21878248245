-- ===== src/Proc/Kill/Tree.antt =====
-- `proc_kill_one` ends the process and its descendants, and touches no other process.
use zeros_i.Base.{ℕ, ◌<◌, ◌≡◌, ◌≢◌, refl, true, false, List, arith}
use zeros_i.Proc.{Proc, is_zombie, proc_at}
use zeros_i.Proc.Kill.Table.{IsTable, Shrinks, Shrinks-refl}

-- The processes below the one of pid `root`, by way of processes that are not zombies.
pub data Under (procs : List Proc) (root : ℕ) : ℕ → Type 0 where
  child :
      (i : ℕ) → (proc_at procs i).used ≡ true → (proc_at procs i).ppid ≡ root → Under procs root i
  deeper :
      (i j : ℕ)
      → Under procs root i
      → is_zombie (proc_at procs i).state ≡ false
      → (proc_at procs j).used ≡ true
      → (proc_at procs j).ppid ≡ (proc_at procs i).pid
      → Under procs root j

-- A process that is below another in a table that has shrunk was below it before.
pub Under-Shrinks : {a b : List Proc} (root j : ℕ) → Shrinks a b → Under b root j → Under a root j
Under-Shrinks root j s (child _ u e) = child j (s.stays j u) (ground (arith, s.same_ppid j))
Under-Shrinks root j s (deeper i _ below live u e) =
    deeper i j (Under-Shrinks root i s below) (ground (arith, s.stays_dead i)) (s.stays j u)
      (ground (arith, s.same_ppid j, s.same_pid i))

pub Under-used : {a : List Proc} (root j : ℕ) → Under a root j → (proc_at a j).used ≡ true
Under-used root j (child _ u e) = u
Under-used root j (deeper i _ below live u e) = u

-- What lies below a child that is not a zombie lies below its parent.
pub Under-child :
    {a : List Proc} (root i j : ℕ)
    → (proc_at a i).used ≡ true
    → (proc_at a i).ppid ≡ root
    → is_zombie (proc_at a i).state ≡ false
    → Under a (proc_at a i).pid j
    → Under a root j
Under-child root i j u e live (child _ u' e') = deeper i j (child i u e) live u' e'
Under-child root i j u e live (deeper k _ below live' u' e') =
    deeper k j (Under-child root i k u e live below) live' u' e'

pub not_own_child :
    (a : List Proc) (p : ℕ) → IsTable a → (proc_at a p).used ≡ true → ¬ Under a (proc_at a p).pid p
not_own_child a p t u below = omega (arith, above p below)
  where
    above : (j : ℕ) → Under a (proc_at a p).pid j → (proc_at a p).pid < (proc_at a j).pid
    above j (child _ u' e) = omega (arith, t.older j u', e)
    above j (deeper i _ below live u' e) = omega (arith, above i below, t.older j u', e)

-- A process that ends between the two tables, by leaving or as a zombie, has no children in the
-- second.
abbrev pub NoOrphans : List Proc → List Proc → Type 0
NoOrphans a b =
    (i j : ℕ)
    → (proc_at a i).used ≡ true
    → is_zombie (proc_at a i).state ≡ false
    → (proc_at b j).used ≡ true
    → (proc_at b j).ppid ≡ (proc_at a i).pid
    → ((proc_at b i).used ≡ true) × (is_zombie (proc_at b i).state ≡ false)

pub NoOrphans-trans :
    {a b c : List Proc} → Shrinks a b → Shrinks b c → NoOrphans a b → NoOrphans b c → NoOrphans a c
NoOrphans-trans s s' n n' i j u live u' e =
    let (u1, live1) = n i j u live (s'.stays j u') (ground (arith, s'.same_ppid j)) in
    n' i j u1 live1 u' (ground (arith, s.same_pid i))

-- What killing the process at `p` does to the table.
pub record Killed (a b : List Proc) (p : ℕ) : Type 0 where
  pub shrinks : Shrinks a b
  pub dead : is_zombie (proc_at b p).state ≡ true
  pub kept : (proc_at b p).used ≡ true
  pub no_orphans : NoOrphans a b
  pub frame :
      (j : ℕ)
      → j ≢ p
      → ((is_zombie (proc_at a p).state ≡ false) → ¬ Under a (proc_at a p).pid j)
      → proc_at b j ≡ proc_at a j

-- What the loop over the children has done before round `i`.
pub record Reaping (a b : List Proc) (p i : ℕ) : Type 0 where
  pub shrinks : Shrinks a b
  pub no_orphans : NoOrphans a b
  pub gone : (j : ℕ) → j < i → (proc_at b j).used ≡ true → (proc_at b j).ppid ≢ (proc_at a p).pid
  pub frame : (j : ℕ) → ¬ Under a (proc_at a p).pid j → proc_at b j ≡ proc_at a j

pub zombie-Killed :
    (a : List Proc) (p : ℕ)
    → (proc_at a p).used ≡ true
    → is_zombie (proc_at a p).state ≡ true
    → Killed a a p
zombie-Killed a p u z = record {
  shrinks = Shrinks-refl a;
  dead = z;
  kept = u;
  no_orphans = λ i j u live u' e. (u, live);
  frame = λ j ne free. refl;
}
