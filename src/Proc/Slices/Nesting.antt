-- ===== src/Proc/Slices/Nesting.antt =====
-- Waits nest: when a child comes back, the parent is current again.
use zeros_i.Base.{
  ℕ, ◌<◌, ◌≡◌, refl, sym, ap, subst, drop, get_or, ◌∙◌, Option, none, some, List, [], ◌∷◌, length,
  leb, ◌==◌, inl, inr, arith, Bool-cases,
}
use zeros_i.Base.Int.{ℤ}
use zeros_i.Proc.Kill.{Sys}
use zeros_i.Proc.Swap.{proc_ensure_resident}
use zeros_i.Proc.Swap.Apart.{apart-proc_ensure_resident}
use zeros_i.Proc.Slices.{
  Slices, Entry, refused, entered, Frame, process_at, enter_resident, proc_run_blocking,
  proc_return_to_kernel, exit_state, proc_exit, yield_state, proc_yield_to_parent, sched_on_timer,
  is_running, proc_set_fg, block_stack_max,
}

-- What the current process can do until it stops being current: clock ticks, changes of the
-- foreground, and waits, in which a child runs in the same way and then comes back.
pub data Runs : Slices → Slices → Type 0 where
  idle : (s : Slices) → Runs s s
  tick : (s s' : Slices) → Runs (sched_on_timer s) s' → Runs s s'
  foreground : (pid : ℕ) (s s' : Slices) → Runs (proc_set_fg pid s) s' → Runs s s'
  wait_exit :
      (child code : ℕ) (answer : ℤ) (s s1 s2 s3 s4 : Slices)
      → proc_run_blocking child s ≡ entered s1
      → Runs s1 s2
      → proc_exit code s2 ≡ some (answer, s3)
      → Runs s3 s4
      → Runs s s4
  wait_yield :
      (child : ℕ) (frame : Frame) (answer : ℤ) (s s1 s2 s3 s4 : Slices)
      → proc_run_blocking child s ≡ entered s1
      → Runs s1 s2
      → proc_yield_to_parent frame s2 ≡ some (answer, s3)
      → Runs s3 s4
      → Runs s s4

current-proc_ensure_resident : (p : ℕ) (s : Sys) → (proc_ensure_resident p s).current ≡ s.current
current-proc_ensure_resident p s = ap (λ k. k.0) (apart-proc_ensure_resident p s)

-- Entering a child pushes the caller, on a stack that had room.
abbrev Pushes : ℕ → Slices → Entry → Type 0
Pushes p s (refused code s1) = Unit
Pushes p s (entered s1) =
    (s1.block_stack ≡ s.sys.current ∷ s.block_stack)
    × (s1.sys.current ≡ p)
    × (length s.block_stack < block_stack_max)

enter_resident-Pushes :
    (p : ℕ) (s s3 : Slices)
    → s3.block_stack ≡ s.block_stack
    → s3.sys.current ≡ p
    → length s.block_stack < block_stack_max
    → Pushes p s (enter_resident p s.sys.current s3)
unfolding enter_resident
enter_resident-Pushes p s s3 stack here room =
    elim (Bool-cases
      (process_at (record s3 { sys = proc_ensure_resident p s3.sys }) p).image_evicted) [
        | inl out ↦ rw (enter_resident, out) tt
        | inr in_place ↦
            rw (enter_resident, in_place)
              (
                ap (λ w. s.sys.current ∷ w) stack,
                current-proc_ensure_resident p s3.sys ∙ here,
                room,
              )
      ]

run_blocking-Pushes : (p : ℕ) (s : Slices) → Pushes p s (proc_run_blocking p s)
unfolding proc_run_blocking
run_blocking-Pushes p s = elim (Bool-cases (leb block_stack_max (length s.block_stack))) [
  | inl full ↦ rw (proc_run_blocking, full) tt
  | inr room ↦ rw (proc_run_blocking, room) (enter_resident-Pushes p s _ refl refl (ground arith))
]

-- Coming back takes the last caller off.
abbrev Pops : List ℕ → Option (ℤ × Slices) → Type 0
Pops stack none = Unit
Pops stack (some (answer, s')) = stack ≡ s'.sys.current ∷ s'.block_stack

return-Pops : (s : Slices) → Pops s.block_stack (proc_return_to_kernel s)
unfolding proc_return_to_kernel
return-Pops s = pops s.block_stack refl
  where
    pops : (w : List ℕ) → s.block_stack ≡ w → Pops s.block_stack (proc_return_to_kernel s)
    pops [] e = rw (proc_return_to_kernel, e) tt
    pops (q ∷ w) e = rw (proc_return_to_kernel, e, current-proc_ensure_resident) refl

exit-Pops : (code : ℕ) (s : Slices) → Pops s.block_stack (proc_exit code s)
unfolding proc_exit exit_state
exit-Pops code s = elim (Bool-cases ((process_at s s.sys.current).pid == 1)) [
  | inl first ↦ rw (proc_exit, first) tt
  | inr other ↦ rw (proc_exit, other) (return-Pops (exit_state code s))
]

yield-Pops : (frame : Frame) (s : Slices) → Pops s.block_stack (proc_yield_to_parent frame s)
unfolding proc_yield_to_parent yield_state
yield-Pops frame s = elim (Bool-cases (length s.block_stack == 0)) [
  | inl alone ↦ rw (proc_yield_to_parent, alone) tt
  | inr waited ↦ rw (proc_yield_to_parent, waited) (return-Pops (yield_state frame s))
]

-- The same process is current, with the same parents waiting.
abbrev pub Same : Slices → Slices → Type 0
Same s s' = (s'.block_stack ≡ s.block_stack) × (s'.sys.current ≡ s.sys.current)

Same-trans : (s s1 s2 : Slices) → Same s s1 → Same s1 s2 → Same s s2
Same-trans s s1 s2 a b = (b.0 ∙ a.0, b.1 ∙ a.1)

-- A push, a run that keeps the stack, and a pop.
round_trip :
    (p : ℕ) (answer : ℤ) (s s1 s2 s3 : Slices)
    → Pushes p s (entered s1)
    → Same s1 s2
    → Pops s2.block_stack (some (answer, s3))
    → Same s s3
round_trip p answer s s1 s2 s3 pushed same popped =
    let e : s3.sys.current ∷ s3.block_stack ≡ s.sys.current ∷ s.block_stack =
      sym popped ∙ same.0 ∙ pushed.0 in
    (ap (λ w. drop 1 w) e, ap (λ w. get_or w 0 0) e)

tick-Same : (s : Slices) → Same s (sched_on_timer s)
unfolding sched_on_timer
tick-Same s = elim (Bool-cases (is_running (process_at s s.sys.current).state)) [
  | inl on ↦ rw (sched_on_timer, on) (refl, refl)
  | inr off ↦ rw (sched_on_timer, off) (refl, refl)
]

foreground-Same : (pid : ℕ) (s : Slices) → Same s (proc_set_fg pid s)
unfolding proc_set_fg
foreground-Same pid s = (refl, refl)

-- Whatever a process does while it is current, clock ticks, changes of the foreground and waits for
-- children, which exit or yield, to any depth: afterwards it is current again, and the same parents
-- are waiting in the same order.
pub Runs-Same : (s s' : Slices) → Runs s s' → Same s s'
Runs-Same s s' (idle _) = (refl, refl)
Runs-Same s s' (tick _ _ after) =
    Same-trans s (sched_on_timer s) s' (tick-Same s) (Runs-Same (sched_on_timer s) s' after)
Runs-Same s s' (foreground pid _ _ after) =
    Same-trans s (proc_set_fg pid s) s' (foreground-Same pid s)
      (Runs-Same (proc_set_fg pid s) s' after)
Runs-Same s s' (wait_exit child code answer _ s1 s2 s3 _ enter inside back after) =
    Same-trans s s3 s'
      (round_trip child answer s s1 s2 s3
        (subst (Pushes child s) enter (run_blocking-Pushes child s)) (Runs-Same s1 s2 inside)
        (subst (Pops s2.block_stack) back (exit-Pops code s2)))
      (Runs-Same s3 s' after)
Runs-Same s s' (wait_yield child frame answer _ s1 s2 s3 _ enter inside back after) =
    Same-trans s s3 s'
      (round_trip child answer s s1 s2 s3
        (subst (Pushes child s) enter (run_blocking-Pushes child s)) (Runs-Same s1 s2 inside)
        (subst (Pops s2.block_stack) back (yield-Pops frame s2)))
      (Runs-Same s3 s' after)
