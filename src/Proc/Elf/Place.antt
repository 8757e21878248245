-- ===== src/Proc/Elf/Place.antt =====
-- What `elf_load` promises.
use zeros_i.Base.{
  ℕ, ◌+◌, ◌-◌, ◌*◌, ◌/◌, ◌%◌, ◌≤◌, ◌<◌, ◌≡◌, refl, ◌∙◌, ◌&&◌, ◌||◌, Option, none, some, List, ltb,
  leb, ◌==◌, if◌then◌else◌, length, ◌⊎◌, inl, inr, arith, Bool-cases,
}
use zeros_i.Base.Int.{ℤ, pos, negsuc}
use zeros_i.Memory.{word, Mem, kmemset}
use zeros_i.Memory.Blocks.{kmemset_lem}
use zeros_i.Mm.{page_size}
use zeros_i.Proc.Kill.{Sys}
use zeros_i.Proc.Swap.{proc_evict_range}
use zeros_i.Proc.Elf.{
  Elf32Phdr, Image, bounds_from, load_from, place_image, nonempty, is_elf, elf_load, file_header,
  program_headers,
}
use zeros_i.Proc.Elf.Bounds.{AllFit, AllWithin, Outside, Bounded, bounds_from-Bounded}
use zeros_i.Proc.Elf.Writes.{load_from-Outside}

-- The outcome of `elf_load`.
abbrev pub LoadSpec : ℕ → List ℕ → Sys → ℤ × Option Image × Sys → Type 0
LoadSpec buffer file s (r, none, s') = (r ≡ negsuc 0) ⊎ (r ≡ negsuc 1)
LoadSpec buffer file s (r, some img, s') =
    (r ≡ pos 0)
    × AllWithin img.start img.break
        (program_headers buffer file s.mm.mem (file_header file).e_phoff (file_header file).e_phnum)
    × (0x02000000 ≤ img.start)
    × (img.break ≤ 0x08000000)
    × (img.break ≤ img.start + img.page_count_of * page_size)
    × (s'.procs ≡ (proc_evict_range img.start img.break s).1.procs)
    × ((x : ℕ)
        → Outside img.start (img.start + img.page_count_of * page_size) x
        → s'.mm.mem x ≡ (proc_evict_range img.start img.break s).1.mm.mem x)

module _ (buffer : ℕ) (file : List ℕ) (s : Sys) (small_file : length file < word)
    (inside : (file_header file).e_phoff + (file_header file).e_phnum * 32 ≤ length file)
    (fit : AllFit (
      program_headers buffer file s.mm.mem
        (file_header file).e_phoff
        (file_header file).e_phnum)) where
  abbrev phs : List Elf32Phdr
  phs = program_headers buffer file s.mm.mem (file_header file).e_phoff (file_header file).e_phnum

  place_image-Spec :
      (lo hi : ℕ)
      → AllWithin lo hi phs
      → lo < hi
      → hi ≤ 0x08000000
      → 0x02000000 ≤ lo
      → LoadSpec buffer file s (place_image buffer file lo hi s)
  unfolding place_image
  place_image-Spec lo hi within some_byte small above =
      let eh = file_header file in
      let s1 = (proc_evict_range lo hi s).1 in
      let pages = (hi - lo + page_size - 1) % word / page_size in
      let zeroed = kmemset s1.mm.mem lo 0 (pages * page_size) in
      let covers : hi ≤ lo + pages * page_size = omega arith in
      elim (Bool-cases (proc_evict_range lo hi s).0) [
        | inr stuck ↦ rw (place_image, stuck) (inr refl)
        | inl moved ↦ elim (Bool-cases (load_from buffer file eh.e_phnum eh.e_phoff zeroed).0) [
          | inr short ↦ rw (place_image, moved, short) (inl refl)
          | inl done ↦
              rw (place_image, moved, done)
                (
                  refl,
                  within,
                  above,
                  small,
                  covers,
                  refl,
                  λ x out.
                      load_from-Outside buffer file lo hi eh.e_phnum eh.e_phoff s.mm.mem zeroed x
                        inside small_file fit within
                        (elim out [ inl lt ↦ inl lt | inr ge ↦ inr (omega arith) ])
                      ∙ kmemset_lem s1.mm.mem lo 0 (pages * page_size) x (omega arith)
                      ∙ missed s1.mm.mem lo (pages * page_size) x out,
                )
        ]
      ]
    where
      missed :
          (m : Mem) (lo n x : ℕ)
          → Outside lo (lo + n) x
          → (if leb lo x && ltb x (lo + n) then 0 % 256 else m x) ≡ m x
      missed m lo n x (inl lt) = ground (arith, lt)
      missed m lo n x (inr ge) = ground (arith, ge)

  bounds-Spec :
      (o : Option (ℕ × ℕ))
      → Bounded phs 0xFFFFFFFF 0 o
      → LoadSpec buffer file s (elim (nonempty o) [
        | none ↦ (negsuc 0, none, s)
        | some b ↦ place_image buffer file b.0 b.1 s
      ])
  unfolding Bounded
  bounds-Spec none b = inl refl
  bounds-Spec (some (lo, hi)) b = elim (Bool-cases ((lo == 0xFFFFFFFF) || leb hi lo)) [
    | inl empty ↦ rw empty (inl refl)
    | inr full ↦
        rw full (place_image-Spec lo hi b.2 (ground arith) (b.3 (omega arith)) (b.4 (omega arith)))
  ]

  -- For a file of less than 2 ^ 32 bytes that has all its program headers inside, and in which each segment
  -- holds its part of the file and ends in the range for programs, `elf_load` fails with -1 or -2, or
  -- gives an image. The image covers each segment to load and lies in the range for programs, from
  -- 0x02000000 to 0x08000000. Apart from what `proc_evict_range` does for its range, the process
  -- table and memory outside the image's pages are as they were.
  pub elf_load_lem : LoadSpec buffer file s (elf_load buffer file s)
  unfolding elf_load
  elf_load_lem = elim (Bool-cases (is_elf file)) [
    | inr other ↦ rw (elf_load, other) (inl refl)
    | inl elf ↦
        rw (elf_load, elf)
          (bounds-Spec (bounds_from phs 0xFFFFFFFF 0) (bounds_from-Bounded phs 0xFFFFFFFF 0 fit))
  ]
