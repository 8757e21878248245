-- ===== src/Initrd/Place.antt =====
-- What unpacking one entry of the archive does to the file systems.
use zeros_i.Base.{
  ℕ, zero, suc, ◌+◌, ◌≤◌, ◌<◌, ◌≡◌, refl, ap, ◌∙◌, true, Option, none, some, List, [], ◌∷◌, ◌++◌,
  ltb, ◌==◌, if◌then◌else◌, length, length-append, length-replicate, take, replicate, arith,
}
use mathlib.Core.List.{append-nil, append_assoc}
use zeros_i.Str.{IsCString, kstrncpy, cstr}
use zeros_i.Str.Copy.{cstr-kstrncpy}
use zeros_i.Vfs.{Vfs, vfs_path_max}
use zeros_i.Vfs.Paths.{NoSlash}
use zeros_i.Vfs.Tree.{last_slash, vfs_write_file}
use zeros_i.Vfs.Calls.{Fat, vfs_mkdir, vfs_exists}
use zeros_i.Initrd.{
  Entry, sys_prefix, append_from, prefix_sys, with_parents, unpack_content, unpack_entry,
}

-- A name as the script writes it, after a slash, that "/sys" fits in front of.
abbrev pub IsInTree : List ℕ → Type 0
IsInTree [] = ⊥
IsInTree (c ∷ s) = (c ≡ b'/') × (length (c ∷ s) + 4 < vfs_path_max)

-- The path is that of something in the directory `dir`.
pub record IsIn (path dir : List ℕ) : Type 0 where
  pub base : List ℕ
  pub split : path ≡ dir ++ (b'/' ∷ base)
  pub last : NoSlash base
  pub some_dir : 0 < length dir

module _ {F : Type 0} (fat : Fat F) where
  -- A directory is made, and a file written by one call, with all its bytes; the results of the calls
  -- are not looked at.
  abbrev pub placed : List ℕ → Option (List ℕ) → Vfs × F → Vfs × F
  placed path none (v, d) = let (r, v', d') = vfs_mkdir fat (sys_prefix ++ path) v d in (v', d')
  placed path (some bytes) (v, d) = ((vfs_write_file (sys_prefix ++ path) bytes v).1, d)

  -- The directory of a file is there.
  abbrev pub IsReady : List ℕ → Option (List ℕ) → Vfs × F → Type 0
  IsReady path none s = Unit
  IsReady path (some bytes) (v, d) =
      (dir : List ℕ) × IsIn (sys_prefix ++ path) dir × (vfs_exists fat dir v d ≡ true)

append_from_all :
    (n : ℕ) (out s : List ℕ) → length out + length s < n → append_from n out s ≡ out ++ s
unfolding append_from
append_from_all n out [] room = rw append-nil
append_from_all n out (c ∷ s) room =
    let fits : ltb (length out + 1) n ≡ true = ground (arith, room) in
    rw fits (
      append_from_all n (out ++ (c ∷ [])) s (omega (arith, room, length-append out (c ∷ [])))
      ∙ append_assoc out (c ∷ []) s)

tree_len : (path : List ℕ) → IsInTree path → length path + 4 < vfs_path_max
tree_len [] h = elim h [ ]
tree_len (c ∷ path) h = h.1

-- In front of a name in the tree comes "/sys".
prefix_sys-IsInTree :
    (path : List ℕ) → IsInTree path → prefix_sys vfs_path_max path ≡ sys_prefix ++ path
unfolding prefix_sys
prefix_sys-IsInTree [] h = elim h [ ]
prefix_sys-IsInTree (c ∷ path) h =
    let slash : c == b'/' ≡ true = ground (arith, h.0) in
    let start = append_from_all vfs_path_max [] sys_prefix (omega arith) in
    rw (slash, start) (append_from_all vfs_path_max sys_prefix (c ∷ path) (omega (arith, h.1)))

take_all : (s : List ℕ) (n : ℕ) → length s ≤ n → take n s ≡ s
take_all [] zero h = refl
take_all [] (suc n) h = refl
take_all (c ∷ s) zero h = absurd (omega arith)
take_all (c ∷ s) (suc n) h = ap (λ t. c ∷ t) (take_all s n (omega arith))

last_slash-NoSlash : (s : List ℕ) (i slash : ℕ) → NoSlash s → last_slash s i slash ≡ slash
unfolding last_slash
last_slash-NoSlash [] i slash h = refl
last_slash-NoSlash (c ∷ s) i slash h = rw h.0 (last_slash-NoSlash s (i + 1) slash h.1)

last_slash_lem :
    (dir base : List ℕ) (i slash : ℕ)
    → NoSlash base
    → last_slash (dir ++ (b'/' ∷ base)) i slash ≡ i + length dir
unfolding last_slash
last_slash_lem [] base i slash h = last_slash-NoSlash base (i + 1) i h ∙ omega arith
last_slash_lem (c ∷ dir) base i slash h =
    last_slash_lem dir base (i + 1) (if c == b'/' then i else slash) h ∙ omega arith

take-append : (xs ys : List ℕ) → take (length xs) (xs ++ ys) ≡ xs
take-append [] ys = refl
take-append (x ∷ xs) ys = ap (λ t. x ∷ t) (take-append xs ys)

module _ {F : Type 0} (fat : Fat F) where
  with_parents-IsIn :
      (full dir : List ℕ) (v : Vfs) (d : F)
      → IsCString full
      → length full < vfs_path_max
      → IsIn full dir
      → vfs_exists fat dir v d ≡ true
      → with_parents fat full (v, d) ≡ (v, d)
  unfolding with_parents
  with_parents-IsIn full dir v d c short h there =
      let copy : cstr (kstrncpy (replicate vfs_path_max 0) full vfs_path_max) ≡ full =
        (cstr-kstrncpy (replicate vfs_path_max 0) full vfs_path_max (omega arith)
          (omega (arith, length-replicate {A = ℕ} vfs_path_max 0)) c).0
        ∙ take_all full 127 (omega (arith, short)) in
      let slash : last_slash full 0 0 ≡ length dir =
        rw h.split (last_slash_lem dir h.base 0 0 h.last ∙ omega arith) in
      let parent : take (length dir) full ≡ dir = rw h.split (take-append dir (b'/' ∷ h.base)) in
      let some_dir : ltb 0 (length dir) ≡ true = ground (arith, h.some_dir) in
      rw (copy, slash, parent, there, some_dir) refl

  pub unpack_entry-placed :
      (e : Entry) (s : Vfs × F)
      → IsCString e.path
      → IsInTree e.path
      → IsReady fat e.path e.content s
      → unpack_entry fat e s ≡ placed fat e.path e.content s
  unfolding unpack_entry unpack_content
  unpack_entry-placed e s c tree ready =
      rw (prefix_sys-IsInTree e.path tree) (content e.path e.content s c tree ready)
    where
      content :
          (path : List ℕ) (o : Option (List ℕ)) (s : Vfs × F)
          → IsCString path
          → IsInTree path
          → IsReady fat path o s
          → unpack_content fat (sys_prefix ++ path) o s ≡ placed fat path o s
      content path none (v, d) c tree ready = refl
      content path (some bytes) (v, d) c tree (dir, in_dir, there) =
          rw
            (with_parents-IsIn (sys_prefix ++ path) dir v d
              (
                omega arith,
                omega arith,
                (
                  omega arith,
                  omega arith,
                  (omega arith, omega arith, (omega arith, omega arith, c)),
                ),
              )
              (omega (arith, tree_len path tree)) in_dir there)
            refl
