-- ===== src/Proc/Kill/Table.antt =====
-- The process table under a kill: pids stay, processes only leave, and `proc_get` finds the one
-- process of a pid.
use zeros_i.Base.{
  ℕ, zero, suc, ◌+◌, ◌<◌, ◌≡◌, ◌≢◌, refl, ◌∙◌, ap, true, ◌&&◌, none, some, List, [], ◌∷◌, ltb, ◌==◌,
  get_or-set, get_or_past, set, length, length-set, arith, Bool-cases, Option-cases, inl, inr,
  ltb→lt,
}
use zeros_i.Proc.{is_zombie, Proc, proc_max, cleared, proc_at, get_from, proc_get}
use zeros_i.Proc.Kill.{Sys, display_destroy_pid}

-- A process descends from an older one, and no two processes share a pid.
pub record IsTable (procs : List Proc) : Type 0 where
  pub len : length procs ≡ proc_max
  pub older :
      (i : ℕ) → (proc_at procs i).used ≡ true → (proc_at procs i).ppid < (proc_at procs i).pid
  pub distinct :
      (i j : ℕ)
      → (proc_at procs i).used ≡ true
      → (proc_at procs j).used ≡ true
      → (proc_at procs i).pid ≡ (proc_at procs j).pid
      → i ≡ j

-- What a kill does to the table at most.
pub record Shrinks (a b : List Proc) : Type 0 where
  pub same_len : length b ≡ length a
  pub stays : (i : ℕ) → (proc_at b i).used ≡ true → (proc_at a i).used ≡ true
  pub stays_dead :
      (i : ℕ) → is_zombie (proc_at a i).state ≡ true → is_zombie (proc_at b i).state ≡ true
  pub same_pid : (i : ℕ) → (proc_at b i).pid ≡ (proc_at a i).pid
  pub same_ppid : (i : ℕ) → (proc_at b i).ppid ≡ (proc_at a i).ppid

pub Shrinks-refl : (a : List Proc) → Shrinks a a
Shrinks-refl a = record {
  same_len = refl;
  stays = λ i u. u;
  stays_dead = λ i z. z;
  same_pid = λ i. refl;
  same_ppid = λ i. refl;
}

pub Shrinks-trans : {a b c : List Proc} → Shrinks a b → Shrinks b c → Shrinks a c
Shrinks-trans p q = record {
  same_len = q.same_len ∙ p.same_len;
  stays = λ i u. p.stays i (q.stays i u);
  stays_dead = λ i z. q.stays_dead i (p.stays_dead i z);
  same_pid = λ i. q.same_pid i ∙ p.same_pid i;
  same_ppid = λ i. q.same_ppid i ∙ p.same_ppid i;
}

pub Shrinks-IsTable : {a b : List Proc} → Shrinks a b → IsTable a → IsTable b
Shrinks-IsTable s t = record {
  len = s.same_len ∙ t.len;
  older = λ i u. ground (arith, s.same_pid i, s.same_ppid i, t.older i (s.stays i u));
  distinct = λ i j u w e.
      t.distinct i j (s.stays i u) (s.stays j w) (ground (arith, s.same_pid i, s.same_pid j));
}

-- Rewriting a slot in place, with its pid and parent kept.
pub set-Shrinks :
    (a : List Proc) (i : ℕ) (p : Proc)
    → i < length a
    → (p.used ≡ true → (proc_at a i).used ≡ true)
    → (is_zombie (proc_at a i).state ≡ true → is_zombie p.state ≡ true)
    → p.pid ≡ (proc_at a i).pid
    → p.ppid ≡ (proc_at a i).ppid
    → Shrinks a (set a i p)
set-Shrinks a i p lt u z e e' = record {
  same_len = length-set a i p;
  stays = λ j. ground (arith, get_or-set a i j p cleared lt);
  stays_dead = λ j. ground (arith, get_or-set a i j p cleared lt);
  same_pid = λ j. ground (arith, get_or-set a i j p cleared lt);
  same_ppid = λ j. ground (arith, get_or-set a i j p cleared lt);
}

get_from_hit :
    (procs : List Proc) (pid i k : ℕ)
    → get_from procs pid i ≡ some k
    → (t : ℕ) × (k ≡ i + t) × ((proc_at procs t).used ≡ true) × ((proc_at procs t).pid ≡ pid)
unfolding get_from
get_from_hit [] pid i k e = absurd (ground arith)
get_from_hit (p ∷ procs) pid i k e = elim (Bool-cases (p.used && (p.pid == pid))) [
  | inl this ↦ (0, ground arith, ground arith, ground arith)
  | inr other ↦
      let (t, at, u, same) = get_from_hit procs pid (i + 1) k (ground arith) in
      (suc t, omega arith, u, same)
]

get_from_miss :
    (procs : List Proc) (pid i : ℕ)
    → get_from procs pid i ≡ none
    → (t : ℕ) → (proc_at procs t).used ≡ true
    → (proc_at procs t).pid ≢ pid
unfolding get_from
get_from_miss [] pid i e t u = absurd (ground arith)
get_from_miss (p ∷ procs) pid i e zero u = ground arith
get_from_miss (p ∷ procs) pid i e (suc t) u = get_from_miss procs pid (i + 1) (ground arith) t u

-- What `proc_get` returns is in use and has the pid; and it returns null only if no process has it.
pub proc_get_hit :
    (procs : List Proc) (pid k : ℕ)
    → proc_get procs pid ≡ some k
    → ((proc_at procs k).used ≡ true) × ((proc_at procs k).pid ≡ pid)
unfolding proc_get
proc_get_hit procs pid k e =
    let (t, at, u, same) = get_from_hit procs pid 0 k e in
    let e' : k ≡ t = omega arith in rw e' (u, same)

-- In a table, looking up the pid of a process in use finds that process.
pub proc_get_self :
    (procs : List Proc) (i : ℕ)
    → IsTable procs
    → (proc_at procs i).used ≡ true
    → proc_get procs (proc_at procs i).pid ≡ some i
proc_get_self procs i t u = elim (Option-cases (proc_get procs (proc_at procs i).pid)) [
  | inl miss ↦ absurd (unfold proc_get in get_from_miss procs (proc_at procs i).pid 0 miss i u refl)
  | inr (k, hit) ↦
      let (u', same) = proc_get_hit procs (proc_at procs i).pid k hit in
      hit ∙ ap some (t.distinct k i u' u same)
]

pub used_within : (procs : List Proc) (i : ℕ) → (proc_at procs i).used ≡ true → i < length procs
used_within procs i u = elim (Bool-cases (ltb i (length procs))) [
  | inl lt ↦ ltb→lt _ _ lt
  | inr ge ↦ absurd (ground (arith, get_or_past procs i cleared))
]

pub procs-display_destroy_pid : (pid : ℕ) (s : Sys) → (display_destroy_pid pid s).procs ≡ s.procs
unfolding display_destroy_pid
procs-display_destroy_pid pid s = ground arith
