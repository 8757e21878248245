-- ===== src/Proc/Elf/Writes.antt =====
-- Where the second loop of `elf_load` writes.
use zeros_i.Base.{
  ℕ, zero, suc, ◌+◌, ◌-◌, ◌*◌, ◌%◌, ◌≤◌, ◌<◌, ◌≡◌, refl, sym, subst, ◌∙◌, not, true, false, ◌&&◌,
  List, ltb, leb, if◌then◌else◌, length, inl, inr, arith, Bool-cases,
}
use zeros_i.Memory.{word, Mem, store}
use zeros_i.Memory.Blocks.{kmemset_lem}
use zeros_i.Proc.Elf.{
  byte_at, word_from, program_header, copy_part, Elf32Phdr, is_load, load_segment, load_from,
  program_headers,
}
use zeros_i.Proc.Elf.Bounds.{AllFit, AllWithin, Outside}

copy_part-Outside :
    (buffer : ℕ) (file : List ℕ) (n off dst : ℕ) (m : Mem) (x : ℕ)
    → dst + n ≤ word
    → Outside dst (dst + n) x
    → copy_part buffer file n off dst m x ≡ m x
unfolding copy_part
copy_part-Outside buffer file zero off dst m x fits out = refl
copy_part-Outside buffer file (suc n) off dst m x fits out =
    let b = byte_at buffer file m off in
    copy_part-Outside buffer file n (off + 1) (dst + 1) (store m dst b) x (omega arith) (later out)
    ∙ first b out
  where
    later : Outside dst (dst + suc n) x → Outside (dst + 1) (dst + 1 + n) x
    later (inl lt) = inl (omega arith)
    later (inr ge) = inr (omega arith)

    first : (b : ℕ) → Outside dst (dst + suc n) x → store m dst b x ≡ m x
    first b (inl lt) = ground (arith, lt)
    first b (inr ge) = ground (arith, ge)

load_segment-Outside :
    (buffer : ℕ) (file : List ℕ) (ph : Elf32Phdr) (m : Mem) (x : ℕ)
    → ph.p_filesz ≤ ph.p_memsz
    → ph.p_vaddr + ph.p_memsz ≤ 0x08000000
    → Outside ph.p_vaddr (ph.p_vaddr + ph.p_memsz) x
    → load_segment buffer file ph m x ≡ m x
unfolding load_segment
load_segment-Outside buffer file ph m x part no_wrap out =
    let copied' = copy_part buffer file ph.p_filesz ph.p_offset ph.p_vaddr m in
    let far : Outside ph.p_vaddr (ph.p_vaddr + ph.p_filesz) x = elim out [
      | inl lt ↦ inl lt
      | inr ge ↦ inr (omega arith)
    ] in
    let copied =
      copy_part-Outside buffer file ph.p_filesz ph.p_offset ph.p_vaddr m x (omega arith) far in
    let at : (ph.p_vaddr + ph.p_filesz) % word ≡ ph.p_vaddr + ph.p_filesz = omega arith in
    let rest = ph.p_memsz - ph.p_filesz in
    elim (Bool-cases (ltb ph.p_filesz ph.p_memsz)) [
      | inr whole ↦ rw (load_segment, whole) copied
      | inl more ↦
          let zeroed = kmemset_lem copied' (ph.p_vaddr + ph.p_filesz) 0 rest x (omega arith) in
          let missed : (leb (ph.p_vaddr + ph.p_filesz) x && ltb x (ph.p_vaddr + ph.p_filesz + rest))
              ≡ false =
            elim out [ inl lt ↦ ground (arith, lt) | inr ge ↦ ground (arith, ge) ] in
          rw (load_segment, more, at) (zeroed ∙ rw missed copied)
    ]

-- A byte of the file is the same in every memory.
byte_inside :
    (buffer : ℕ) (file : List ℕ) (m m' : Mem) (i : ℕ)
    → i < length file
    → length file < word
    → byte_at buffer file m i ≡ byte_at buffer file m' i
byte_inside buffer file m m' i inside small =
    let at : i % word ≡ i = omega (arith, inside, small) in
    let here : ltb i (length file) ≡ true = ground (arith, inside) in rw (at, here) refl

word_inside :
    (buffer : ℕ) (file : List ℕ) (m m' : Mem) (i : ℕ)
    → i + 4 ≤ length file
    → length file < word
    → word_from buffer file m i ≡ word_from buffer file m' i
word_inside buffer file m m' i inside small = omega (
  arith,
  byte_inside buffer file m m' i (omega (arith, inside)) small,
  byte_inside buffer file m m' (i + 1) (omega (arith, inside)) small,
  byte_inside buffer file m m' (i + 2) (omega (arith, inside)) small,
  byte_inside buffer file m m' (i + 3) (omega (arith, inside)) small,
)

abbrev header_of : ℕ → ℕ → ℕ → ℕ → ℕ → Elf32Phdr
header_of a b c d e = record { p_type = a; p_offset = b; p_vaddr = c; p_filesz = d; p_memsz = e }

header_of_same :
    (a b c d e a' b' c' d' e' : ℕ)
    → a ≡ a'
    → b ≡ b'
    → c ≡ c'
    → d ≡ d'
    → e ≡ e'
    → header_of a b c d e ≡ header_of a' b' c' d' e'
header_of_same a b c d e a' b' c' d' e' p q r s t = rw (p, q, r, s, t) refl

header_inside :
    (buffer : ℕ) (file : List ℕ) (m m' : Mem) (at : ℕ)
    → at + 32 ≤ length file
    → length file < word
    → program_header buffer file m at ≡ program_header buffer file m' at
header_inside buffer file m m' at inside small =
    header_of_same _ _ _ _ _ _ _ _ _ _
      (word_inside buffer file m m' at (omega (arith, inside)) small)
      (word_inside buffer file m m' (at + 4) (omega (arith, inside)) small)
      (word_inside buffer file m m' (at + 8) (omega (arith, inside)) small)
      (word_inside buffer file m m' (at + 16) (omega (arith, inside)) small)
      (word_inside buffer file m m' (at + 20) (omega (arith, inside)) small)

pub load_from-Outside :
    (buffer : ℕ) (file : List ℕ) (lo hi k at : ℕ) (m0 m : Mem) (x : ℕ)
    → at + k * 32 ≤ length file
    → length file < word
    → AllFit (program_headers buffer file m0 at k)
    → AllWithin lo hi (program_headers buffer file m0 at k)
    → Outside lo hi x
    → (load_from buffer file k at m).1 x ≡ m x
unfolding load_from
load_from-Outside buffer file lo hi zero at m0 m x inside small fit within out = refl
load_from-Outside buffer file lo hi (suc k) at m0 m x inside small fit within out =
    let ph = program_header buffer file m0 at in
    let same : program_header buffer file m at ≡ ph =
      header_inside buffer file m m0 at (omega (arith, inside)) small in
    let next : at + 32 + k * 32 ≤ length file = omega (arith, inside) in
    let later = λ (n : Mem).
      load_from-Outside buffer file lo hi k (at + 32) m0 n x next small fit.1 within.1 out in
    subst
      (λ (q : Elf32Phdr).
        (if not (is_load q)
            then load_from buffer file k (at + 32) m
            else if ltb (length file) ((q.p_offset + q.p_filesz) % word)
            then (false, m)
            else load_from buffer file k (at + 32) (load_segment buffer file q m)).1
          x
        ≡ m x)
      (sym same)
      (elim (Bool-cases (is_load ph)) [
        | inr other ↦ rw other (later m)
        | inl load ↦ elim (Bool-cases (ltb (length file) ((ph.p_offset + ph.p_filesz) % word))) [
          | inl bad ↦ rw (load, bad) refl
          | inr good ↦
              let (part, no_wrap) = fit.0 load in
              let (low, high) = within.0 load in
              let far : Outside ph.p_vaddr (ph.p_vaddr + ph.p_memsz) x = elim out [
                | inl lt ↦ inl (omega arith)
                | inr ge ↦ inr (omega arith)
              ] in
              rw (load, good)
                (later (load_segment buffer file ph m)
                  ∙ load_segment-Outside buffer file ph m x part no_wrap far)
        ]
      ])
