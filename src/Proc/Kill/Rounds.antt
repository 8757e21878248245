-- ===== src/Proc/Kill/Rounds.antt =====
-- The loop of `proc_kill_one` over the children.
use zeros_i.Base.{
  ℕ, zero, suc, ◌+◌, ◌<◌, ◌≡◌, ◌≢◌, refl, sym, subst, ◌∙◌, ap, Bool, true, false, ◌&&◌, Option,
  some, List, ◌==◌, if◌then◌else◌, get_or-set, set, length, arith, Bool-cases, inl, inr,
}
use zeros_i.Proc.{Proc, cleared, is_zombie, proc_at}
use zeros_i.Proc.Kill.{Sys, reap_at, proc_reap, is_child, reap_child, kill_children}
use zeros_i.Proc.Kill.Table.{
  IsTable, Shrinks, Shrinks-trans, Shrinks-IsTable, set-Shrinks, proc_get_self, used_within,
}
use zeros_i.Proc.Kill.Tree.{
  child, Under-Shrinks, Under-child, NoOrphans, NoOrphans-trans, Killed, Reaping,
}

-- The slot of a zombie is given up.
abbrev vacated : List Proc → ℕ → List Proc
vacated a i = set a i (record (proc_at a i) { used = false })

reap_child_procs :
    (i : ℕ) (s : Sys)
    → IsTable s.procs
    → (proc_at s.procs i).used ≡ true
    → is_zombie (proc_at s.procs i).state ≡ true
    → (reap_child i (proc_at s.procs i).pid s).procs ≡ vacated s.procs i
unfolding reap_child proc_reap reap_at
reap_child_procs i s t u z =
    let reaped : proc_reap (proc_at s.procs i).pid s ≡ (true, reap_at i s) =
      rw (proc_reap, proc_get_self s.procs i t u) (test_true _ _ _ z) in
    let reaches : reap_child i (proc_at s.procs i).pid s ≡ (proc_reap (proc_at s.procs i).pid s).1 =
      test_true _ _ ((proc_at s.procs i).used && is_zombie (proc_at s.procs i).state)
        (ground (arith, u, z)) in
    ap (λ s'. s'.procs) reaches ∙ ap (λ r. r.1.procs) reaped
  where
    test_true : {A : Type 0} (x y : A) (b : Bool) → b ≡ true → (if b then x else y) ≡ x
    test_true x y true e = refl
    test_true x y false e = absurd (ground arith)

vacated-Shrinks : (a : List Proc) (i : ℕ) → i < length a → Shrinks a (vacated a i)
vacated-Shrinks a i lt = set-Shrinks a i _ lt (λ e. absurd (ground arith)) (λ z. z) refl refl

vacated-NoOrphans :
    (a : List Proc) (i : ℕ)
    → i < length a
    → is_zombie (proc_at a i).state ≡ true
    → NoOrphans a (vacated a i)
vacated-NoOrphans a i lt z k j u live u' e =
    let at = get_or-set a i k (record (proc_at a i) { used = false }) cleared lt in
    ground (arith, at)

-- One round on a child: it is killed, and its slot given up.
child_round :
    (a b c : List Proc) (p i : ℕ)
    → IsTable a
    → Reaping a b p i
    → (proc_at b i).used ≡ true
    → (proc_at b i).ppid ≡ (proc_at a p).pid
    → Killed b c i
    → Reaping a (vacated c i) p (i + 1)
child_round a b c p i t r u e killed =
    let lt : i < length c = used_within c i killed.kept in
    let s1 = Shrinks-trans r.shrinks killed.shrinks in
    let s2 = Shrinks-trans s1 (vacated-Shrinks c i lt) in
    let n1 = NoOrphans-trans r.shrinks killed.shrinks r.no_orphans killed.no_orphans in
    let at : (j : ℕ)
        → proc_at (vacated c i) j
          ≡ (if i == j then record (proc_at c i) { used = false } else proc_at c j) =
      λ j. get_or-set c i j (record (proc_at c i) { used = false }) cleared lt in
    record {
      shrinks = s2;
      no_orphans =
          NoOrphans-trans s1 (vacated-Shrinks c i lt) n1 (vacated-NoOrphans c i lt killed.dead);
      gone = λ j le u' e'. elim (Bool-cases (i == j)) [
        | inl same ↦ ground (arith, at j)
        | inr other ↦
            let u'' : (proc_at c j).used ≡ true = ground (arith, at j) in
            r.gone j (ground arith) (killed.shrinks.stays j u'')
              (ground (arith, at j, killed.shrinks.same_ppid j))
      ];
      frame = λ j free. elim (Bool-cases (i == j)) [
        | inl same ↦
            let e' : i ≡ j = ground arith in
            absurd (free (Under-Shrinks (proc_at a p).pid j r.shrinks (rw e' at (child i u e))))
        | inr other ↦
            let same : proc_at (vacated c i) j ≡ proc_at c j = ground (arith, at j) in
            let untouched : proc_at c j ≡ proc_at b j = killed.frame j (ground arith) (λ live below.
              free (
                Under-Shrinks (proc_at a p).pid j r.shrinks
                  (Under-child (proc_at a p).pid i j u e live below))) in
            same ∙ untouched ∙ r.frame j free
      ];
    }

module _ (a : List Proc) (p : ℕ) (t : IsTable a) (u : (proc_at a p).used ≡ true)
    (kill : ℕ → Sys → Option Sys) where
  -- The recursive call does its work for the children of `p`, whatever the table has become.
  abbrev pub KillsChildren : Type 0
  KillsChildren =
      (i : ℕ) (s : Sys)
      → Shrinks a s.procs
      → (proc_at s.procs i).used ≡ true
      → (proc_at s.procs i).ppid ≡ (proc_at a p).pid
      → (s' : Sys) × (kill i s ≡ some s') × Killed s.procs s'.procs i

  abbrev pub Reaps : ℕ → ℕ → Sys → Type 0
  Reaps k i s = (s' : Sys) × (kill_children kill p k i s ≡ some s') × Reaping a s'.procs p (i + k)

  skip_round :
      (b : List Proc) (i : ℕ)
      → Reaping a b p i
      → ((proc_at b i).used ≡ true → (proc_at b i).ppid ≢ (proc_at a p).pid)
      → Reaping a b p (i + 1)
  skip_round b i r no_child = record {
    shrinks = r.shrinks;
    no_orphans = r.no_orphans;
    gone = λ j le u' e'. elim (Bool-cases (i == j)) [
      | inl same ↦ let e : i ≡ j = ground arith in no_child (rw e u') (rw e e')
      | inr other ↦ r.gone j (ground arith) u' e'
    ];
    frame = r.frame;
  }

  child_step :
      (s s1 : Sys) (i : ℕ)
      → Reaping a s.procs p i
      → (proc_at s.procs i).used ≡ true
      → (proc_at s.procs i).ppid ≡ (proc_at a p).pid
      → Killed s.procs s1.procs i
      → Reaping a (reap_child i (proc_at s.procs i).pid s1).procs p (i + 1)
  child_step s s1 i r u' e' killed =
      let t1 = Shrinks-IsTable (Shrinks-trans r.shrinks killed.shrinks) t in
      let same : (reap_child i (proc_at s.procs i).pid s1).procs ≡ vacated s1.procs i =
        ap (λ pid. (reap_child i pid s1).procs) (sym (killed.shrinks.same_pid i))
        ∙ reap_child_procs i s1 t1 killed.kept killed.dead in
      subst (λ b. Reaping a b p (i + 1)) (sym same)
        (child_round a s.procs s1.procs p i t r u' e' killed)

  round_skip :
      (k i : ℕ) (s : Sys)
      → is_child s p i ≡ false
      → kill_children kill p (suc k) i s ≡ kill_children kill p k (i + 1) s
  unfolding kill_children
  round_skip k i s other = rw (kill_children, other) refl

  round_kill :
      (k i : ℕ) (s s1 : Sys)
      → is_child s p i ≡ true
      → kill i s ≡ some s1
      → kill_children kill p (suc k) i s
        ≡ kill_children kill p k (i + 1) (reap_child i (proc_at s.procs i).pid s1)
  unfolding kill_children
  round_kill k i s s1 here done = rw (kill_children, here, done) refl

  pub kill_children_lem : KillsChildren → (k i : ℕ) (s : Sys) → Reaping a s.procs p i → Reaps k i s
  unfolding kill_children
  kill_children_lem kills zero i s r = (s, refl, (let e : i + 0 ≡ i = omega arith in rw e r))
  kill_children_lem kills (suc k) i s r =
      let e : i + suc k ≡ i + 1 + k = omega arith in
      elim (Bool-cases (is_child s p i)) [
        | inr other ↦
            let (s', done, r') =
              kill_children_lem kills k (i + 1) s
                (skip_round s.procs i r (λ u' e'. absurd (ground (arith, r.shrinks.same_pid p)))) in
            (s', round_skip k i s other ∙ done, rw e r')
        | inl here ↦
            let u' : (proc_at s.procs i).used ≡ true = ground arith in
            let e' : (proc_at s.procs i).ppid ≡ (proc_at a p).pid =
              ground (arith, r.shrinks.same_pid p) in
            let (s1, done, killed) = kills i s r.shrinks u' e' in
            let s2 = reap_child i (proc_at s.procs i).pid s1 in
            let (s', done', r') =
              kill_children_lem kills k (i + 1) s2 (child_step s s1 i r u' e' killed) in
            (s', round_kill k i s s1 here done ∙ done', rw e r')
      ]
