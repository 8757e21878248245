-- ===== src/Proc/Spawn/Loads.antt =====
-- What `elf_load` leaves as it was.
use zeros_i.Base.{
  ℕ, ◌+◌, ◌*◌, ◌-◌, ◌/◌, ◌%◌, ◌≡◌, refl, ap, not, Option, none, some, List, Bool-cases,
  Option-cases, inl, inr,
}
use zeros_i.Base.Int.{ℤ, pos, negsuc}
use zeros_i.Mm.{page_size}
use zeros_i.Proc.Kill.{Sys}
use zeros_i.Proc.Swap.{proc_evict_range}
use zeros_i.Proc.Swap.Apart.{apart-proc_evict_range}
use zeros_i.Proc.Swap.Ids.{SameIds, SameIds-refl, proc_evict_range-SameIds}
use zeros_i.Memory.{word, kmemset}
use zeros_i.Proc.Elf.{
  Image, elf_load, place_image, file_header, program_headers, is_elf, nonempty, bounds_from,
  load_from,
}

-- The same processes in the same slots, and the same one current.
abbrev pub Same : Sys → Sys → Type 0
Same s s' = SameIds s.procs s'.procs × (s'.current ≡ s.current)

-- A code without an image is negative.
abbrev pub Loads : Sys → ℤ × Option Image × Sys → Type 0
Loads s (pos n, none, s') = ⊥
Loads s (negsuc e, none, s') = Same s s'
Loads s (code, some image, s') = Same s s'

place_image-Loads :
    (buffer : ℕ) (file : List ℕ) (lo hi : ℕ) (s : Sys) → Loads s (place_image buffer file lo hi s)
unfolding place_image
place_image-Loads buffer file lo hi s =
    let eh = file_header file in
    let r = proc_evict_range lo hi s in
    let pages = (hi - lo + page_size - 1) % word / page_size in
    let l =
      load_from buffer file eh.e_phnum eh.e_phoff (kmemset r.1.mm.mem lo 0 (pages * page_size)) in
    let same : Same s r.1 =
      (proc_evict_range-SameIds lo hi s, ap (λ k. k.0) (apart-proc_evict_range lo hi s)) in
    elim (Bool-cases (not r.0)) [
      | inl busy ↦ rw (place_image, busy) same
      | inr cleared' ↦ elim (Bool-cases (not l.0)) [
        | inl bad ↦ rw (place_image, cleared', bad) same
        | inr loaded ↦ rw (place_image, cleared', loaded) same
      ]
    ]

pub elf_load-Loads : (buffer : ℕ) (file : List ℕ) (s : Sys) → Loads s (elf_load buffer file s)
unfolding elf_load
elf_load-Loads buffer file s =
    let eh = file_header file in
    let phs = program_headers buffer file s.mm.mem eh.e_phoff eh.e_phnum in
    elim (Bool-cases (is_elf file)) [
      | inr bad ↦ rw (elf_load, bad) (SameIds-refl s.procs, refl)
      | inl good ↦ elim (Option-cases (nonempty (bounds_from phs 0xFFFFFFFF 0))) [
        | inl empty ↦ rw (elf_load, good, empty) (SameIds-refl s.procs, refl)
        | inr (b, bounds) ↦ rw (elf_load, good, bounds) (place_image-Loads buffer file b.0 b.1 s)
      ]
    ]
