-- ===== src/Proc/Elf.antt =====
-- kernel/proc/elf.c: loading a program. A file is the list of its bytes, and a read past it gives 0
-- here; the 32-bit sums wrap.
pub mod Bounds
pub mod Writes
pub mod Place
use zeros_i.Base.{
  ℕ, zero, suc, ◌+◌, ◌-◌, ◌*◌, ◌/◌, ◌%◌, Bool, true, false, ◌&&◌, ◌||◌, not, Option, none, some,
  List, [], ◌∷◌, ltb, leb, ◌==◌, if◌then◌else◌, get_or, length, take,
}
use zeros_i.Base.Int.{ℤ, pos, negsuc}
use zeros_i.Memory.{word, Mem, store, kmemset}
use zeros_i.Mm.{Mm, page_size}
use zeros_i.Proc.Kill.{Sys}
use zeros_i.Proc.Swap.{proc_evict_range}

abbrev pub half_at : List ℕ → ℕ → ℕ
half_at file i = get_or file i 0 + get_or file (i + 1) 0 * 256

abbrev pub word_at : List ℕ → ℕ → ℕ
word_at file i = half_at file i + half_at file (i + 2) * 65536

-- The fields of the file header that are used, at their offsets; 52 is its size.
pub record Elf32Ehdr : Type 0 where
  pub e_ident : List ℕ
  pub e_type : ℕ
  pub e_machine : ℕ
  pub e_entry : ℕ
  pub e_phoff : ℕ
  pub e_phnum : ℕ

abbrev pub file_header : List ℕ → Elf32Ehdr
file_header file = record {
  e_ident = take 4 file;
  e_type = half_at file 16;
  e_machine = half_at file 18;
  e_entry = word_at file 24;
  e_phoff = word_at file 28;
  e_phnum = half_at file 44;
}

-- The fields of a program header that are used; 32 is its size.
pub record Elf32Phdr : Type 0 where
  pub p_type : ℕ
  pub p_offset : ℕ
  pub p_vaddr : ℕ
  pub p_filesz : ℕ
  pub p_memsz : ℕ

-- The byte `i` after the start of the file, which is in memory at `buffer`: one of the file's, which
-- nothing writes to, or what memory has there.
abbrev pub byte_at : ℕ → List ℕ → Mem → ℕ → ℕ
byte_at buffer file mem i =
    if ltb (i % word) (length file) then get_or file (i % word) 0 else mem ((buffer + i) % word)

abbrev pub word_from : ℕ → List ℕ → Mem → ℕ → ℕ
word_from buffer file mem i =
    byte_at buffer file mem i
    + byte_at buffer file mem (i + 1) * 256
    + byte_at buffer file mem (i + 2) * 65536
    + byte_at buffer file mem (i + 3) * 16777216

abbrev pub program_header : ℕ → List ℕ → Mem → ℕ → Elf32Phdr
program_header buffer file mem at = record {
  p_type = word_from buffer file mem at;
  p_offset = word_from buffer file mem (at + 4);
  p_vaddr = word_from buffer file mem (at + 8);
  p_filesz = word_from buffer file mem (at + 16);
  p_memsz = word_from buffer file mem (at + 20);
}

-- The program headers, `k` of them from the offset `at` on.
abbrev pub program_headers : ℕ → List ℕ → Mem → ℕ → ℕ → List Elf32Phdr
program_headers buffer file mem at zero = []
program_headers buffer file mem at (suc k) =
    program_header buffer file mem at ∷ program_headers buffer file mem (at + 32) k

abbrev pub is_load : Elf32Phdr → Bool
is_load ph = ph.p_type == 1

-- The first loop: the lowest and the highest address of the segments; `none` for one that starts
-- outside the range for programs.
pub bounds_from : List Elf32Phdr → ℕ → ℕ → Option (ℕ × ℕ)
bounds_from [] lo hi = some (lo, hi)
bounds_from (ph ∷ phs) lo hi =
    let end = (ph.p_vaddr + ph.p_memsz) % word in
    let rest =
      bounds_from phs (if ltb ph.p_vaddr lo then ph.p_vaddr else lo)
        (if ltb hi end then end else hi) in
    let skip = bounds_from phs lo hi in
    if not (is_load ph)
    then skip
    else if ltb ph.p_vaddr 0x02000000 || leb 0x08000000 ph.p_vaddr
    then none
    else rest

-- `kmemcpy` of `n` bytes from the offset `off` on, a byte at a time.
pub copy_part : ℕ → List ℕ → ℕ → ℕ → ℕ → Mem → Mem
copy_part buffer file zero off dst mem = mem
copy_part buffer file (suc n) off dst mem =
    copy_part buffer file n (off + 1) (dst + 1) (store mem dst (byte_at buffer file mem off))

-- The copy of the file's part and `kmemset` of the rest of the segment.
pub load_segment : ℕ → List ℕ → Elf32Phdr → Mem → Mem
load_segment buffer file ph mem =
    let copied = copy_part buffer file ph.p_filesz ph.p_offset ph.p_vaddr mem in
    if ltb ph.p_filesz ph.p_memsz
    then kmemset copied ((ph.p_vaddr + ph.p_filesz) % word) 0 (ph.p_memsz - ph.p_filesz)
    else copied

-- The second loop, over `k` headers from the offset `at` on; a header is read at the start of its
-- round. The status is false where a segment lies outside the file.
pub load_from : ℕ → List ℕ → ℕ → ℕ → Mem → Bool × Mem
load_from buffer file zero at mem = (true, mem)
load_from buffer file (suc k) at mem =
    let ph = program_header buffer file mem at in
    let skip = load_from buffer file k (at + 32) mem in
    let rest = load_from buffer file k (at + 32) (load_segment buffer file ph mem) in
    if not (is_load ph)
    then skip
    else if ltb (length file) ((ph.p_offset + ph.p_filesz) % word)
    then (false, mem)
    else rest

-- The four results that a load gives its caller.
pub record Image : Type 0 where
  pub entry : ℕ
  pub start : ℕ
  pub page_count_of : ℕ
  pub break : ℕ

-- `elf_load` from the call of `proc_evict_range` on.
unfoldable pub place_image : ℕ → List ℕ → ℕ → ℕ → Sys → ℤ × Option Image × Sys
place_image buffer file lo hi s =
    let eh = file_header file in
    let (cleared, s') = proc_evict_range lo hi s in
    let pages = (hi - lo + page_size - 1) % word / page_size in
    let (done, mem) =
      load_from buffer file eh.e_phnum eh.e_phoff (kmemset s'.mm.mem lo 0 (pages * page_size)) in
    let loaded = record s' { mm = record s'.mm { mem = mem } } in
    if not cleared then (negsuc 1, none, s') else if not done then (negsuc 0, none, loaded) else (
      pos 0,
      some (record { entry = eh.e_entry; start = lo; page_count_of = pages; break = hi }),
      loaded,
    )

abbrev pub is_magic : List ℕ → Bool
is_magic (a ∷ b ∷ c ∷ d ∷ rest) = (a == 0x7F) && ((b == b'E') && ((c == b'L') && (d == b'F')))
is_magic _ = false

-- The checks of the header.
abbrev pub is_elf : List ℕ → Bool
is_elf file =
    let eh = file_header file in
    leb 52 (length file)
    && (is_magic eh.e_ident
        && ((eh.e_type == 2)
            && ((eh.e_machine == 3) && leb ((eh.e_phoff + eh.e_phnum * 32) % word) (length file))))

-- `none` for the bounds is the test of `min_va` and `max_va` too.
abbrev pub nonempty : Option (ℕ × ℕ) → Option (ℕ × ℕ)
nonempty none = none
nonempty (some (lo, hi)) = if (lo == 0xFFFFFFFF) || leb hi lo then none else some (lo, hi)

-- For a file in memory at `buffer`.
unfoldable pub elf_load : ℕ → List ℕ → Sys → ℤ × Option Image × Sys
elf_load buffer file s =
    let eh = file_header file in
    let phs = program_headers buffer file s.mm.mem eh.e_phoff eh.e_phnum in
    if is_elf file
    then elim (nonempty (bounds_from phs 0xFFFFFFFF 0)) [
      | none ↦ (negsuc 0, none, s)
      | some b ↦ place_image buffer file b.0 b.1 s
    ]
    else (negsuc 0, none, s)
