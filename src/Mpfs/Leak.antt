-- ===== src/Mpfs/Leak.antt =====
-- `mpfs_open` with every descriptor in use: it fails, but only after it has made the file.
use zeros_i.Base.{
  ℕ, ◌-◌, ◌<◌, ◌≡◌, refl, true, false, ◌&&◌, none, some, List, get_or, get_or-set, set, length,
  length-set, arith, Bool-cases, Option-cases, inl, inr,
}
use zeros_i.Str.{IsCString}
use zeros_i.Mpfs.{
  Mpfs, MpfsInode, err, nospc, blank, name_max, file_at, has_flag, o_create, o_trunc, o_write,
  norm_name, name_ok, find_inode, alloc_inode, alloc_fd, mpfs_exists, create, open_inode, truncate,
  open_fd, open_rest, mpfs_open,
}
use zeros_i.Mpfs.Table.{Holds, eq→str_is, alloc_inode_hit}
use zeros_i.Mpfs.Valid.{IsValid}
use zeros_i.Mpfs.Open.{name_ok_string, take_all}
use zeros_i.Mpfs.Names.{Exists, Exists→exists}

module _ (s : Mpfs) (v : IsValid s) (p : List ℕ) (c : IsCString p) where
  find_inode_gone :
      name_ok (some p) ≡ true → mpfs_exists s (some p) ≡ false → find_inode s (some p) ≡ none
  unfolding mpfs_exists
  find_inode_gone good gone = elim (Option-cases (find_inode s (some p))) [
    | inl miss ↦ miss
    | inr (i, hit) ↦ absurd (ground (arith, hit))
  ]

  created : ℕ → MpfsInode
  created i = record blank { name = norm_name p; used = true }

  create_files :
      (i : ℕ)
      → name_ok (some p) ≡ true
      → (create (norm_name p) i s).files ≡ set s.files i (created i)
  unfolding create created
  create_files i good =
      let short = (name_ok_string p c good).2 in
      rw (take_all (name_max - 1) (norm_name p) (omega arith))

  truncate-Holds :
      (t : Mpfs) (flags i : ℕ) (name : List ℕ)
      → Holds t.files name i
      → Holds (truncate flags i t).files name i
  unfolding truncate
  truncate-Holds t flags i name h =
      let f = record (file_at t i) { size = 0 } in
      elim (Bool-cases (has_flag flags o_trunc && has_flag flags o_write)) [
        | inr keep ↦ rw keep h
        | inl cut ↦ rw cut (record {
          within = omega (arith, h.within, length-set t.files i f);
          used = ground (arith, h.used, h.within, get_or-set t.files i i f blank);
          same = ground (arith, h.same, h.within, get_or-set t.files i i f blank);
        })
      ]

  create-Holds :
      (i : ℕ)
      → name_ok (some p) ≡ true
      → i < length s.files
      → Holds (create (norm_name p) i s).files (norm_name p) i
  unfolding created
  create-Holds i good lt = rw (create_files i good) (record {
    within = omega (arith, lt, length-set s.files i (created i));
    used = ground (arith, lt, get_or-set s.files i i (created i) blank);
    same =
        let e : (get_or (set s.files i (created i)) i blank).name ≡ norm_name p =
          ground (arith, lt, get_or-set s.files i i (created i) blank) in
        let cs = (name_ok_string p c good).0 in
        rw e (eq→str_is (norm_name p) (norm_name p) cs cs refl);
  })

  fds-truncate : (t : Mpfs) (flags i : ℕ) → (truncate flags i t).fds ≡ t.fds
  unfolding truncate
  fds-truncate t flags i = ground arith

  fds-create : (name : List ℕ) (i : ℕ) → (create name i s).fds ≡ s.fds
  unfolding create
  fds-create name i = refl

  -- In well-formed tables with a free entry for a file and every descriptor in use, opening a
  -- proper name that does not exist with the flag to create it reports that there is no space, and
  -- the file has been made all the same.
  pub mpfs_open_leaks :
      (flags i : ℕ)
      → name_ok (some p) ≡ true
      → mpfs_exists s (some p) ≡ false
      → has_flag flags o_create ≡ true
      → alloc_inode s.files 0 ≡ some i
      → alloc_fd s.fds 0 ≡ none
      → ((mpfs_open (some p) flags s).0 ≡ err nospc)
        × (mpfs_exists (mpfs_open (some p) flags s).1 (some p) ≡ true)
  unfolding mpfs_open open_inode open_rest open_fd
  mpfs_open_leaks flags i good gone make fresh full =
      let (t, at, free) = alloc_inode_hit s.files 0 i fresh in
      let s' = truncate flags i (create (norm_name p) i s) in
      let full' : alloc_fd s'.fds 0 ≡ none = rw (fds-truncate, fds-create) full in
      let result : mpfs_open (some p) flags s ≡ (err nospc, s') =
        ground (arith, find_inode_gone good gone, full') in
      let x : Exists s' p = record {
        slot = i;
        holds =
            truncate-Holds (create (norm_name p) i s) flags i (norm_name p)
              (create-Holds i good (omega (arith, free.within)));
        proper = good;
      } in
      rw result (refl, Exists→exists s' p x)
