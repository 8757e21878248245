-- ===== src/Proc/Spawn/Adds.antt =====
-- A table with one process more, and the slot that `alloc_proc` finds.
use zeros_i.Base.{
  ℕ, suc, ◌+◌, ◌<◌, ◌≡◌, ◌≢◌, refl, ◌∙◌, ap, Bool, true, false, none, some, List, [], ◌∷◌, ◌==◌,
  if◌then◌else◌, set, length, arith, Bool-cases, inl, inr,
}
use zeros_i.Proc.{Proc, cleared, proc_at, free_from, alloc_slot, alloc_proc}
use zeros_i.Proc.Kill.Table.{IsTable}
use zeros_i.Proc.Kill.Spec.{PidsBelow}

-- The table `b` is `a` with a process in the slot `i`.
pub record Adds (a b : List Proc) (i pid ppid : ℕ) : Type 0 where
  pub len : length b ≡ length a
  pub inside : i < length a
  pub was_free : (proc_at a i).used ≡ false
  pub used_at : (j : ℕ) → (proc_at b j).used ≡ (if i == j then true else (proc_at a j).used)
  pub pid_at : (j : ℕ) → (proc_at b j).pid ≡ (if i == j then pid else (proc_at a j).pid)
  pub ppid_at : (j : ℕ) → (proc_at b j).ppid ≡ (if i == j then ppid else (proc_at a j).ppid)

pub Adds-IsTable :
    (a b : List Proc) (i pid ppid : ℕ)
    → Adds a b i pid ppid
    → IsTable a
    → PidsBelow pid a
    → ppid < pid
    → IsTable b × PidsBelow (pid + 1) b
Adds-IsTable a b i pid ppid h t below older = (
  record {
    len = h.len ∙ t.len;
    older = λ j u. ground (arith, h.used_at j, h.pid_at j, h.ppid_at j, t.older j);
    distinct = λ j k u u' e.
        ground (
          arith,
          h.used_at j,
          h.pid_at j,
          h.used_at k,
          h.pid_at k,
          t.distinct j k,
          below j,
          below k,
        );
  },
  λ j u. ground (arith, h.used_at j, h.pid_at j, below j),
)

pub split_if :
    (c : Bool) (x y z : Bool × ℕ × ℕ)
    → z ≡ (if c then x else y)
    → (z.0 ≡ (if c then x.0 else y.0))
      × (z.1 ≡ (if c then x.1 else y.1))
      × (z.2 ≡ (if c then x.2 else y.2))
split_if true x y z e = (ap (λ k. k.0) e, ap (λ k. k.1) e, ap (λ k. k.2) e)
split_if false x y z e = (ap (λ k. k.0) e, ap (λ k. k.1) e, ap (λ k. k.2) e)

pub alloc_proc_full :
    (procs : List Proc) → alloc_slot procs ≡ none → alloc_proc procs ≡ (none, procs)
unfolding alloc_proc
alloc_proc_full procs e = rw (alloc_proc, e) refl

pub alloc_proc_hit :
    (procs : List Proc) (i : ℕ)
    → alloc_slot procs ≡ some i
    → alloc_proc procs ≡ (some i, set procs i (record cleared { used = true }))
unfolding alloc_proc
alloc_proc_hit procs i e = rw (alloc_proc, e) refl

pub differ : (i j : ℕ) → i ≢ j → i == j ≡ false
differ i j ne = ground (arith, ne)

free_from_hit :
    (procs : List Proc) (i k : ℕ)
    → free_from procs i ≡ some k
    → (t : ℕ) × (k ≡ i + t) × (t < length procs) × ((proc_at procs t).used ≡ false)
unfolding free_from
free_from_hit [] i k e = absurd (ground arith)
free_from_hit (p ∷ procs) i k e = elim (Bool-cases p.used) [
  | inr this ↦ (0, ground arith, omega arith, ground arith)
  | inl other ↦
      let (t, at, lt, u) = free_from_hit procs (i + 1) k (ground arith) in
      (suc t, omega arith, omega (arith, lt), u)
]

pub alloc_slot_hit :
    (procs : List Proc) (i : ℕ)
    → alloc_slot procs ≡ some i
    → (i < length procs) × ((proc_at procs i).used ≡ false)
unfolding alloc_slot
alloc_slot_hit [] i e = absurd (ground arith)
alloc_slot_hit (p ∷ procs) i e =
    let (t, at, lt, u) = free_from_hit procs 1 i e in
    let e' : i ≡ suc t = omega arith in rw e' (omega (arith, lt), u)
