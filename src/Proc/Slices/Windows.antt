-- ===== src/Proc/Slices/Windows.antt =====
-- A yield leaves the windows alone.
use zeros_i.Base.{
  ℕ, ◌≡◌, refl, ap, Option, none, some, List, [], ◌∷◌, length, ◌==◌, Bool-cases, inl, inr,
}
use zeros_i.Base.Int.{ℤ}
use zeros_i.Gui.Window.{GuiWin}
use zeros_i.Proc.Swap.Apart.{apart-proc_ensure_resident}
use zeros_i.Proc.Swap.{proc_ensure_resident}
use zeros_i.Proc.Kill.{Sys}
use zeros_i.Proc.Slices.{Slices, Frame, proc_return_to_kernel, proc_yield_to_parent, yield_state}

abbrev pub KeepsWins : List GuiWin → Option (ℤ × Slices) → Type 0
KeepsWins gwins none = Unit
KeepsWins gwins (some (answer, s')) = s'.sys.gwins ≡ gwins

gwins-proc_ensure_resident : (p : ℕ) (s : Sys) → (proc_ensure_resident p s).gwins ≡ s.gwins
gwins-proc_ensure_resident p s = ap (λ k. k.1) (apart-proc_ensure_resident p s)

return-KeepsWins : (s : Slices) → KeepsWins s.sys.gwins (proc_return_to_kernel s)
unfolding proc_return_to_kernel
return-KeepsWins s = keeps s.block_stack refl
  where
    keeps : (w : List ℕ) → s.block_stack ≡ w → KeepsWins s.sys.gwins (proc_return_to_kernel s)
    keeps [] e = rw (proc_return_to_kernel, e) tt
    keeps (q ∷ w) e = rw (proc_return_to_kernel, e, gwins-proc_ensure_resident) refl

pub yield-KeepsWins :
    (frame : Frame) (s : Slices) → KeepsWins s.sys.gwins (proc_yield_to_parent frame s)
unfolding proc_yield_to_parent yield_state
yield-KeepsWins frame s = elim (Bool-cases (length s.block_stack == 0)) [
  | inl alone ↦ rw (proc_yield_to_parent, alone) tt
  | inr waited ↦ rw (proc_yield_to_parent, waited) (return-KeepsWins (yield_state frame s))
]
