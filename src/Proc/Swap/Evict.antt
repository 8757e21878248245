-- ===== src/Proc/Swap/Evict.antt =====
-- `proc_evict_range` clears the range and loses nothing.
use zeros_i.Base.{
  ℕ, zero, suc, ◌+◌, ◌≤◌, ◌<◌, ◌≡◌, refl, Bool, true, false, none, some, set, inl, inr, arith,
  Bool-cases, sym, subst,
}
use zeros_i.Mm.{Mm, heap_end}
use zeros_i.Proc.{Proc, proc_at, proc_max}
use zeros_i.Proc.Kill.{Sys}
use zeros_i.Proc.Swap.{must_move, evict, no_shadow, evict_from, proc_evict_range}
use zeros_i.Proc.Swap.Held.{Held, Evicted, evict_lem}
use zeros_i.Proc.Swap.Rounds.{IsReady, Outcome, Evicts, skip-Evicts, at1, ready1, go-Evicts}

-- The loop's result where it reaches the end of the table.
abbrev LoopSpec : ℕ → ℕ → ℕ → ℕ → Sys → Bool × Sys → Type 0
LoopSpec lo hi i k s (true, s') = Evicts lo hi i k s s'
LoopSpec lo hi i k s (false, s') = (j : ℕ) × (i ≤ j) × (must_move lo hi (proc_at s.procs j) ≡ true)

done-Evicts : (lo hi i : ℕ) (s : Sys) → Evicts lo hi i 0 s s
done-Evicts lo hi i s = record {
  each = λ j le lt. absurd (omega arith);
  rest = λ j lt. refl;
  kept = λ x held. (held, refl);
  outside = λ x far. refl;
}

module _ (lo hi : ℕ) where
  round_stays :
      (k i : ℕ) (s : Sys)
      → must_move lo hi (proc_at s.procs i) ≡ false
      → evict_from lo hi (suc k) i s ≡ evict_from lo hi k (i + 1) s
  unfolding evict_from
  round_stays k i s stays = rw (evict_from, stays) refl

  round_null :
      (k i : ℕ) (s : Sys)
      → must_move lo hi (proc_at s.procs i) ≡ true
      → evict i s ≡ none
      → evict_from lo hi (suc k) i s ≡ (false, no_shadow i s)
  unfolding evict_from
  round_null k i s moves null = rw (evict_from, moves, null) refl

  round_moves :
      (k i : ℕ) (s s1 : Sys)
      → must_move lo hi (proc_at s.procs i) ≡ true
      → evict i s ≡ some s1
      → evict_from lo hi (suc k) i s ≡ evict_from lo hi k (i + 1) s1
  unfolding evict_from
  round_moves k i s s1 moves done = rw (evict_from, moves, done) refl

  map_skip :
      (k i : ℕ) (s : Sys) (o : Bool × Sys)
      → must_move lo hi (proc_at s.procs i) ≡ false
      → LoopSpec lo hi (i + 1) k s o
      → LoopSpec lo hi i (suc k) s o
  map_skip k i s (true, s') stays h = skip-Evicts lo hi i k s s' stays h
  map_skip k i s (false, s') stays (j, le, moves) = (j, omega arith, moves)

  map_go :
      (k i : ℕ) (s s1 : Sys) (shadow : ℕ)
      → IsReady lo hi s
      → i < proc_max
      → must_move lo hi (proc_at s.procs i) ≡ true
      → s1.procs
        ≡ set s.procs i (record (proc_at s.procs i) { image_shadow = shadow; image_evicted = true })
      → Evicted (proc_at s.procs i) s.mm s1.mm shadow
      → (o : Bool × Sys) → LoopSpec lo hi (i + 1) k s1 o
      → LoopSpec lo hi i (suc k) s o
  map_go k i s s1 shadow r lt moves procs1 moved (true, s') h =
      go-Evicts lo hi i s s1 shadow r lt moves procs1 moved k s' h
  map_go k i s s1 shadow r lt moves procs1 moved (false, s') (j, le, moves') =
      let e1 : proc_at s1.procs j ≡ proc_at s.procs j =
        ground (arith, at1 lo hi i s s1 shadow r lt moves procs1 moved j) in
      (j, omega arith, rw e1 at moves')

  evict_from-Spec :
      (k i : ℕ) (s : Sys)
      → i + k ≡ proc_max
      → IsReady lo hi s
      → LoopSpec lo hi i k s (evict_from lo hi k i s)
  unfolding evict_from
  evict_from-Spec zero i s e r = done-Evicts lo hi i s
  evict_from-Spec (suc k) i s e r = elim (Bool-cases (must_move lo hi (proc_at s.procs i))) [
    | inr stays ↦
        subst (λ o. LoopSpec lo hi i (suc k) s o) (sym (round_stays k i s stays))
          (map_skip k i s (evict_from lo hi k (i + 1) s) stays
            (evict_from-Spec k (i + 1) s (omega arith) r))
    | inl moves ↦
        let (high, within) = r.images i moves in
        elim (evict_lem i s r.bitmap (record { high = high; within = within; bytes = r.bytes })
          (ground (arith, moves))) [
            | inl null ↦
                subst (λ o. LoopSpec lo hi i (suc k) s o) (sym (round_null k i s moves null))
                  (i, omega arith, moves)
            | inr (shadow, s1, done, procs1, moved) ↦
                subst (λ o. LoopSpec lo hi i (suc k) s o) (sym (round_moves k i s s1 moves done))
                  (map_go k i s s1 shadow r (omega arith) moves procs1 moved
                    (evict_from lo hi k (i + 1) s1)
                    (evict_from-Spec k (i + 1) s1 (omega arith)
                      (ready1 lo hi i s s1 shadow r (omega arith) moves procs1 moved)))
          ]
  ]

-- The outcome of `proc_evict_range`.
abbrev pub EvictSpec : ℕ → ℕ → Sys → Bool × Sys → Type 0
EvictSpec lo hi s (false, s') = (j : ℕ) × (must_move lo hi (proc_at s.procs j) ≡ true)
EvictSpec lo hi s (true, s') =
    ((j : ℕ) → j < proc_max → Outcome lo hi (proc_at s.procs j) (proc_at s'.procs j) s.mm s'.mm)
    × ((j : ℕ) → j < proc_max → must_move lo hi (proc_at s'.procs j) ≡ false)
    × ((x : ℕ) → Held s.mm x → s'.mm.mem x ≡ s.mm.mem x)
    × ((x : ℕ) → heap_end ≤ x → s'.mm.mem x ≡ s.mm.mem x)

settled :
    (lo hi : ℕ) (p p' : Proc) (m m' : Mm) → Outcome lo hi p p' m m' → must_move lo hi p' ≡ false
settled lo hi p p' m m' (inl (stays, e)) = rw e stays
settled lo hi p p' m m' (inr (shadow, moves, e, saved)) = rw e (ground (arith, moves))

whole-Spec :
    (lo hi : ℕ) (s : Sys) (o : Bool × Sys) → LoopSpec lo hi 0 proc_max s o → EvictSpec lo hi s o
whole-Spec lo hi s (false, s') (j, le, moves) = (j, moves)
whole-Spec lo hi s (true, s') e = (
  λ j lt. e.each j (omega arith) (omega arith),
  λ j lt.
      settled lo hi (proc_at s.procs j) (proc_at s'.procs j) s.mm s'.mm
        (e.each j (omega arith) (omega arith)),
  λ x held. (e.kept x held).1,
  e.outside,
)

-- Take a process table and bitmap of the declared sizes and a memory of bytes, in which the images
-- that have to move lie above the heap and end below 2 ^ 32. A call that succeeds leaves none in
-- the range. Each process that had nothing to move is as it was; the image of each other one is
-- kept in its shadow, byte for byte and in pages that are in use, and nothing else of it has
-- changed. What was in pages in use, and all of memory above the heap, is as it was. A call fails
-- only if some image had to move.
pub proc_evict_range_lem :
    (lo hi : ℕ) (s : Sys) → IsReady lo hi s → EvictSpec lo hi s (proc_evict_range lo hi s)
unfolding proc_evict_range
proc_evict_range_lem lo hi s r =
    whole-Spec lo hi s (evict_from lo hi proc_max 0 s)
      (evict_from-Spec lo hi proc_max 0 s (omega arith) r)
