-- ===== src/Mpfs/Open.antt =====
-- `mpfs_open` keeps the invariant, on each of its branches.
use zeros_i.Base.{
  ℕ, zero, suc, ◌-◌, ◌≤◌, ◌<◌, ◌≡◌, ◌≢◌, refl, ap, ◌∙◌, true, ◌&&◌, Option, none, some, List, [],
  ◌∷◌, get_or-set, get_or_past, length, take, ltb, ◌==◌, arith, Bool-cases, inl, inr, ltb→lt,
  length-replicate,
}
use zeros_i.Str.{IsCString}
use zeros_i.Mpfs.{
  Mpfs, Result, ok, err, blank, max_files, max_fd, name_max, file_max, file_at, has_flag, o_write,
  o_trunc, o_create, norm_name, name_ok, find_from, find_inode, alloc_inode, alloc_fd, create,
  open_inode, truncate, open_fd, open_rest, mpfs_open,
}
use zeros_i.Mpfs.Table.{
  FreeInode, eq→str_is, alloc_fd_hit, alloc_inode_hit, find_from_hit, find_from_miss,
}
use zeros_i.Mpfs.Valid.{IsValid, set_fd-IsValid, set_file-IsValid, add_file-IsValid}

module _ {s : Mpfs} (v : IsValid s) where
  truncate-IsValid : (flags ino : ℕ) → ino < max_files → IsValid (truncate flags ino s)
  unfolding truncate
  truncate-IsValid flags ino lt =
      elim (Bool-cases (has_flag flags o_trunc && has_flag flags o_write)) [
        | inr keep ↦ rw keep v
        | inl cut ↦
            let h = v.file_ok ino in
            rw cut (
              set_file-IsValid v ino _ lt
                (record {
                  room = h.room;
                  fits = omega arith;
                  string = h.string;
                  short = h.short;
                  named = h.named;
                })
                refl refl)
      ]

  open_fd-IsValid :
      (flags ino : ℕ) (o : Option ℕ)
      → ((fd : ℕ) → o ≡ some fd → fd < max_fd)
      → ino < max_files
      → (file_at s ino).used ≡ true
      → IsValid (open_fd flags ino s o).1
  unfolding open_fd
  open_fd-IsValid flags ino none h lt used = v
  open_fd-IsValid flags ino (some fd) h lt used =
      set_fd-IsValid v fd _ (h fd refl) (λ e. (lt, used, ground (arith, (v.file_ok ino).fits)))

-- Truncating changes no entry's `used` field.
used-truncate :
    (s : Mpfs) (flags ino i : ℕ)
    → ino < length s.files
    → (file_at (truncate flags ino s) i).used ≡ (file_at s i).used
unfolding truncate
used-truncate s flags ino i lt =
    ground (arith, get_or-set s.files ino i (record (file_at s ino) { size = 0 }) blank lt)

-- What the first half of `mpfs_open` hands to the second.
abbrev Opened : Result × Mpfs → Type 0
Opened (err e, s) = IsValid s
Opened (ok ino, s) = IsValid s × (ino < max_files) × ((file_at s ino).used ≡ true)

open_rest-IsValid : (flags : ℕ) (r : Result × Mpfs) → Opened r → IsValid (open_rest flags r).1
unfolding open_rest
open_rest-IsValid flags (err e, s) h = h
open_rest-IsValid flags (ok ino, s) h =
    let v' = truncate-IsValid h.0 flags ino h.1 in
    open_fd-IsValid v' flags ino (alloc_fd (truncate flags ino s).fds 0)
      (λ fd e.
        let (t, at, free) = alloc_fd_hit (truncate flags ino s).fds 0 fd e in
        omega (arith, free.within, v'.fds_len))
      h.1 (used-truncate s flags ino ino (omega (arith, h.1, h.0.files_len)) ∙ h.2)

pub name_ok_string :
    (p : List ℕ)
    → IsCString p
    → name_ok (some p) ≡ true
    → IsCString (norm_name p) × (0 < length (norm_name p)) × (length (norm_name p) < name_max)
unfolding name_ok norm_name
name_ok_string [] c e = absurd (ground arith)
name_ok_string (b ∷ p) c e = elim (Bool-cases (b == b'/')) [
  | inl slash ↦ rw slash (c.2, ground arith, ground arith)
  | inr plain ↦ rw plain (c, ground arith, ground arith)
]

pub take_all : (n : ℕ) (xs : List ℕ) → length xs ≤ n → take n xs ≡ xs
take_all zero [] h = refl
take_all (suc n) [] h = refl
take_all zero (x ∷ xs) h = absurd (omega arith)
take_all (suc n) (x ∷ xs) h = ap (λ ys. x ∷ ys) (take_all n xs (omega arith))

module _ {s : Mpfs} (v : IsValid s) where
  used_within : (j : ℕ) → (file_at s j).used ≡ true → j < length s.files
  used_within j used = elim (Bool-cases (ltb j (length s.files))) [
    | inl lt ↦ ltb→lt _ _ lt
    | inr ge ↦ absurd (ground (arith, get_or_past s.files j blank))
  ]

  -- A name that the search misses is no file's.
  other :
      (name : List ℕ)
      → IsCString name
      → find_from s.files name 0 ≡ none
      → (j : ℕ) → (file_at s j).used ≡ true
      → (file_at s j).name ≢ name
  other name c miss j used e = find_from_miss s.files name 0 miss j (record {
    within = used_within j used;
    used = used;
    same = eq→str_is (file_at s j).name name (v.file_ok j).string c e;
  })

  create-Opened :
      (name : List ℕ) (ino : ℕ)
      → IsCString name
      → 0 < length name
      → length name < name_max
      → FreeInode s.files ino
      → find_from s.files name 0 ≡ none
      → Opened (ok ino, create name ino s)
  unfolding create
  create-Opened name ino c pos short free miss =
      let whole : take (name_max - 1) name ≡ name = take_all (name_max - 1) name (omega arith) in
      let lt : ino < max_files = omega (arith, free.within, v.files_len) in
      rw whole (
        add_file-IsValid v ino (record blank { name = name; used = true }) lt
            (record {
              room = length-replicate {A = ℕ} file_max 0;
              fits = omega arith;
              string = c;
              short = short;
              named = λ e. pos;
            })
            free.free refl (other name c miss),
        lt,
        ground (
          arith,
          get_or-set s.files ino ino (record blank { name = name; used = true }) blank free.within,
        ),
      )

  open_inode-Opened :
      (name : List ℕ) (flags : ℕ)
      → IsCString name
      → 0 < length name
      → length name < name_max
      → (hit fresh : Option ℕ) → find_from s.files name 0 ≡ hit
      → alloc_inode s.files 0 ≡ fresh
      → Opened (open_inode name flags s hit fresh)
  unfolding open_inode
  open_inode-Opened name flags c pos short (some ino) fresh e e' =
      let (t, at, h) = find_from_hit s.files name 0 ino e in
      let same : ino ≡ t = omega arith in rw same (v, omega (arith, h.within, v.files_len), h.used)
  open_inode-Opened name flags c pos short none none e e' =
      elim (Bool-cases (has_flag flags o_create)) [
        | inl make ↦ rw make v
        | inr no_create ↦ rw no_create v
      ]
  open_inode-Opened name flags c pos short none (some ino) e e' =
      elim (Bool-cases (has_flag flags o_create)) [
        | inr no_create ↦ rw no_create v
        | inl make ↦
            let (t, at, free) = alloc_inode_hit s.files 0 ino e' in
            let same : ino ≡ t = omega arith in
            rw (make, same) (create-Opened name t c pos short free e)
      ]

-- `mpfs_open` keeps well-formed tables well formed, for every path that is a C string and every
-- flags, whether it succeeds or not.
pub mpfs_open-IsValid :
    {s : Mpfs}
    → IsValid s
    → (path : List ℕ) (flags : ℕ) → IsCString path
    → IsValid (mpfs_open (some path) flags s).1
unfolding mpfs_open find_inode
mpfs_open-IsValid {s} v path flags c = elim (Bool-cases (name_ok (some path))) [
  | inr bad ↦ rw bad v
  | inl good ↦
      let (c', pos, short) = name_ok_string path c good in
      rw good (
        open_rest-IsValid flags _ (
          open_inode-Opened v (norm_name path) flags c' pos short
            (find_from s.files (norm_name path) 0) (alloc_inode s.files 0) refl refl))
]
