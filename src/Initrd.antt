-- ===== src/Initrd.antt =====
-- kernel/fs/initrd.c, and the archive that scripts/pack_initrd.py writes.
pub mod Reading
pub mod Place
pub mod RoundTrip
pub mod Stall
use zeros_i.Base.{
  ℕ, zero, suc, ◌+◌, ◌-◌, ◌*◌, ◌/◌, ◌%◌, Bool, true, false, ◌&&◌, ◌||◌, not, Option, none, some,
  List, [], ◌∷◌, ◌++◌, ltb, leb, ◌==◌, if◌then◌else◌, length, take, drop, replicate,
}
use zeros_i.Memory.{word}
use zeros_i.Str.{kstrncpy, cstr}
use zeros_i.Vfs.{Vfs, vfs_path_max}
use zeros_i.Vfs.Tree.{last_slash, vfs_write_file}
use zeros_i.Vfs.Calls.{Fat, vfs_mkdir, vfs_exists}
use zeros_i.Proc.Elf.{word_at}

-- A directory has no content.
pub record Entry : Type 0 where
  pub path : List ℕ
  pub content : Option (List ℕ)

abbrev pub no_file : ℕ
no_file = 0xFFFFFFFF

abbrev pub sys_prefix : List ℕ
sys_prefix = b'/' ∷ b's' ∷ b'y' ∷ b's' ∷ []

-- `while (s[i] && j + 1 < n) out[j++] = s[i++];`
unfoldable pub append_from : ℕ → List ℕ → List ℕ → List ℕ
append_from n out [] = out
append_from n out (c ∷ s) =
    let rest = append_from n (out ++ (c ∷ [])) s in if ltb (length out + 1) n then rest else out

-- The string that is left in `out`.
unfoldable pub prefix_sys : ℕ → List ℕ → List ℕ
prefix_sys n [] = append_from n [] sys_prefix
prefix_sys n (c ∷ path) =
    let out = append_from n [] sys_prefix in
    let slash = not (c == b'/') && ltb (length out + 1) n in
    append_from n (if slash then out ++ (b'/' ∷ []) else out) (c ∷ path)

-- The bytes from a place on; those after the end of the archive are 0.
abbrev pub bytes_at : ℕ → List ℕ → List ℕ
bytes_at n xs = take n xs ++ replicate (n - length xs) 0

-- What the loop reads at `off`, with the next `off`; `none` where the loop ends.
unfoldable pub entry_at : List ℕ → ℕ → Option (Entry × ℕ)
entry_at blob off =
    let size = length blob in
    let path_len = word_at (drop off blob) 0 in
    let file_len = word_at (drop (off + 4) blob) 0 in
    let at = (off + 8) % word in
    let body = (at + path_len) % word in
    let is_dir = file_len == no_file in
    if ltb size at
      || (path_len == 0
          || (leb vfs_path_max path_len
              || (ltb size body || (not is_dir && ltb size ((body + file_len) % word)))))
    then none
    else some (
      record {
        path = cstr (take path_len (drop at blob));
        content = if is_dir then none else some (bytes_at file_len (drop body blob));
      },
      if is_dir then body else (body + file_len) % word,
    )

module _ {F : Type 0} (fat : Fat F) where
  -- `if (j > 0 && !vfs_exists(tmp)) vfs_mkdir(tmp);`
  unfoldable pub make_missing : List ℕ → Vfs × F → Vfs × F
  make_missing tmp (v, d) =
      if ltb 0 (length tmp) && not (vfs_exists fat tmp v d)
      then (let (r, v', d') = vfs_mkdir fat tmp v d in (v', d'))
      else (v, d)

  -- The loop over the rest of `full`, with the `tmp` so far.
  unfoldable pub make_parents : List ℕ → List ℕ → Vfs × F → Vfs × F
  make_parents tmp [] s = s
  make_parents tmp (c ∷ full) s =
      let s' = if c == b'/' then make_missing tmp s else s in
      let rest = make_parents (tmp ++ (c ∷ [])) full s' in
      if leb vfs_path_max (length tmp + 2) then s' else rest

  -- The parents of the file `full`, where they are not there.
  unfoldable pub with_parents : List ℕ → Vfs × F → Vfs × F
  with_parents full (v, d) =
      let parent = cstr (kstrncpy (replicate vfs_path_max 0) full vfs_path_max) in
      let slash = last_slash parent 0 0 in
      if ltb 0 slash && not (vfs_exists fat (take slash parent) v d)
      then make_parents [] (drop 1 full) (v, d)
      else (v, d)

  -- The file is written through the tree of nodes.
  unfoldable pub unpack_content : List ℕ → Option (List ℕ) → Vfs × F → Vfs × F
  unpack_content full none (v, d) = let (r, v', d') = vfs_mkdir fat full v d in (v', d')
  unpack_content full (some bytes) s =
      let (v, d) = with_parents full s in ((vfs_write_file full bytes v).1, d)

  unfoldable pub unpack_entry : Entry → Vfs × F → Vfs × F
  unpack_entry e s = unpack_content (prefix_sys vfs_path_max e.path) e.content s

  -- `none` is out of fuel.
  unfoldable pub unpack_from : ℕ → List ℕ → ℕ → Vfs × F → Option (Vfs × F)
  unpack_from zero blob off s = none
  unpack_from (suc k) blob off s = elim (entry_at blob off) [
    | none ↦ some s
    | some r ↦ unpack_from k blob r.1 (unpack_entry r.0 s)
  ]

  abbrev pub initrd_unpack : ℕ → List ℕ → Vfs × F → Option (Vfs × F)
  initrd_unpack fuel blob s = unpack_from fuel blob 0 s

-- `struct.pack('<I', n)`
abbrev pub pack_word : ℕ → List ℕ
pack_word n = n % 256 ∷ n / 256 % 256 ∷ n / 65536 % 256 ∷ n / 16777216 % 256 ∷ []

abbrev pub file_word : Option (List ℕ) → ℕ
file_word none = no_file
file_word (some bytes) = length bytes

abbrev pub content_bytes : Option (List ℕ) → List ℕ
content_bytes none = []
content_bytes (some bytes) = bytes

abbrev pub pack_entry : Entry → List ℕ
pack_entry e =
    pack_word (length e.path)
    ++ (pack_word (file_word e.content) ++ (e.path ++ content_bytes e.content))

unfoldable pub pack : List Entry → List ℕ
pack [] = []
pack (e ∷ entries) = pack_entry e ++ pack entries
