-- ===== src/Proc/Elf/Bounds.antt =====
-- The bounds that `elf_load` finds for the segments.
use zeros_i.Base.{
  ℕ, ◌+◌, ◌%◌, ◌≤◌, ◌<◌, ◌≡◌, true, false, ◌||◌, Option, none, some, List, [], ◌∷◌, ltb, leb,
  if◌then◌else◌, ◌⊎◌, inl, inr, arith, Bool-cases,
}
use zeros_i.Memory.{word}
use zeros_i.Proc.Elf.{Elf32Phdr, is_load, bounds_from}

-- A segment's part of the file fits the segment, and the segment ends in the range for programs.
abbrev pub AllFit : List Elf32Phdr → Type 0
AllFit [] = Unit
AllFit (ph ∷ phs) =
    (is_load ph ≡ true → (ph.p_filesz ≤ ph.p_memsz) × (ph.p_vaddr + ph.p_memsz ≤ 0x08000000))
    × AllFit phs

-- The segments to load lie in the range.
abbrev pub AllWithin : ℕ → ℕ → List Elf32Phdr → Type 0
AllWithin lo hi [] = Unit
AllWithin lo hi (ph ∷ phs) =
    (is_load ph ≡ true → (lo ≤ ph.p_vaddr) × (ph.p_vaddr + ph.p_memsz ≤ hi)) × AllWithin lo hi phs

abbrev pub Outside : ℕ → ℕ → ℕ → Type 0
Outside lo hi x = (x < lo) ⊎ (hi ≤ x)

unfoldable pub Bounded : List Elf32Phdr → ℕ → ℕ → Option (ℕ × ℕ) → Type 0
Bounded phs lo hi none = Unit
Bounded phs lo hi (some (l, h)) =
    (l ≤ lo)
    × (hi ≤ h)
    × AllWithin l h phs
    × (hi ≤ 0x08000000 → h ≤ 0x08000000)
    × (0x02000000 ≤ lo → 0x02000000 ≤ l)

skip-Bounded :
    (ph : Elf32Phdr) (phs : List Elf32Phdr) (lo hi : ℕ) (o : Option (ℕ × ℕ))
    → is_load ph ≡ false
    → Bounded phs lo hi o
    → Bounded (ph ∷ phs) lo hi o
unfolding Bounded
skip-Bounded ph phs lo hi none other h = tt
skip-Bounded ph phs lo hi (some (l, u)) other h =
    (h.0, h.1, ((λ load. absurd (ground arith)), h.2), h.3, h.4)

more-Bounded :
    (ph : Elf32Phdr) (phs : List Elf32Phdr) (lo hi : ℕ) (o : Option (ℕ × ℕ))
    → (is_load ph ≡ true → (ph.p_filesz ≤ ph.p_memsz) × (ph.p_vaddr + ph.p_memsz ≤ 0x08000000))
    → is_load ph ≡ true
    → 0x02000000 ≤ ph.p_vaddr
    → Bounded phs
        (if ltb ph.p_vaddr lo then ph.p_vaddr else lo)
        (if ltb hi ((ph.p_vaddr + ph.p_memsz) % word) then (ph.p_vaddr + ph.p_memsz) % word else hi)
        o
    → Bounded (ph ∷ phs) lo hi o
unfolding Bounded
more-Bounded ph phs lo hi none fit load above h = tt
more-Bounded ph phs lo hi (some (l, u)) fit load above h =
    let (part, no_wrap) = fit load in
    let end : (ph.p_vaddr + ph.p_memsz) % word ≡ ph.p_vaddr + ph.p_memsz = omega arith in
    (
      ground (arith, h.0),
      ground (arith, h.1, end),
      ((λ again. (ground (arith, h.0), ground (arith, h.1, end))), h.2),
      λ small. h.3 (ground (arith, end, small)),
      λ low. h.4 (ground (arith, above, low)),
    )

pub bounds_from-Bounded :
    (phs : List Elf32Phdr) (lo hi : ℕ) → AllFit phs → Bounded phs lo hi (bounds_from phs lo hi)
unfolding bounds_from Bounded
bounds_from-Bounded [] lo hi fit = (omega arith, omega arith, tt, λ small. small, λ low. low)
bounds_from-Bounded (ph ∷ phs) lo hi fit = elim (Bool-cases (is_load ph)) [
  | inr other ↦
      rw (bounds_from, other)
        (skip-Bounded ph phs lo hi (bounds_from phs lo hi) other
          (bounds_from-Bounded phs lo hi fit.1))
  | inl load ↦ elim (Bool-cases (ltb ph.p_vaddr 0x02000000 || leb 0x08000000 ph.p_vaddr)) [
    | inl bad ↦ rw (bounds_from, load, bad) tt
    | inr good ↦
        let end = (ph.p_vaddr + ph.p_memsz) % word in
        rw (bounds_from, load, good)
          (more-Bounded ph phs lo hi _ fit.0 load (ground arith) (
            bounds_from-Bounded phs (if ltb ph.p_vaddr lo then ph.p_vaddr else lo)
              (if ltb hi end then end else hi) fit.1))
  ]
]
