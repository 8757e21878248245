-- ===== src/Tests/Minipy.antt =====
-- Runs of the parts of py/: the file system and the lexer.
use zeros_i.Base.{ℕ, ◌≡◌, refl, true, false, none, some, List, [], ◌∷◌, replicate, arith}
use zeros_i.Str.{IsCString, kstrcmp}
use zeros_i.Mpfs.{
  Mpfs, ok, err, nospc, unused, max_fd, fd_at, release_all, mpfs_format, mpfs_unlink, mpfs_exists,
  mpfs_open, norm_name, name_ok, create, truncate, open_inode, open_rest, open_fd, alloc_inode,
  alloc_fd, find_inode, find_from, str_is,
}
use zeros_i.Mpfs.Io.{is_bad, mpfs_seek, mpfs_read, mpfs_write}
use zeros_i.Mpfs.Valid.{IsValid}
use zeros_i.Mpfs.Keeps.{mpfs_format-IsValid}
use zeros_i.Mpfs.Traces.{Op, AllOk, open_file, close, seek, read, write, unlink, run, run-IsValid}
use zeros_i.Mpfs.RoundTrip.{read-seek-write}
use zeros_i.Mpfs.Names.{UnlinkSpec, mpfs_unlink_lem}
use zeros_i.Mpfs.Leak.{mpfs_open_leaks}

abbrev boot : Mpfs
boot = record { magic = 0; version = 0; nfiles = 0; files = []; fds = replicate max_fd unused }

-- "a.py"
abbrev path : List ℕ
path = 97 ∷ 46 ∷ 112 ∷ 121 ∷ []

path-IsCString : IsCString path
path-IsCString = ground arith

abbrev formatted : Mpfs
formatted = mpfs_format boot

formatted-IsValid : IsValid formatted
formatted-IsValid = mpfs_format-IsValid boot refl

mpfs_format-IsValid_example : IsValid (mpfs_format boot)
mpfs_format-IsValid_example = mpfs_format-IsValid boot refl

run-IsValid_example : IsValid (
    run
      (open_file path 7
        ∷ write 0 path
        ∷ seek 0 1
        ∷ read 0 9
        ∷ unlink path
        ∷ close 0
        ∷ unlink path
        ∷ [])
      formatted)
run-IsValid_example =
    run-IsValid
      (open_file path 7
        ∷ write 0 path
        ∷ seek 0 1
        ∷ read 0 9
        ∷ unlink path
        ∷ close 0
        ∷ unlink path
        ∷ [])
      formatted-IsValid (path-IsCString, (tt, (tt, (tt, (tt, (tt, (tt, tt)))))))

-- After opening the path for reading and writing, creating it.
abbrev opened : Mpfs
opened = run (open_file path 19 ∷ []) formatted

opened-IsValid : IsValid opened
opened-IsValid = run-IsValid (open_file path 19 ∷ []) formatted-IsValid (path-IsCString, tt)

opened_fd :
    (is_bad 0 opened ≡ false)
    × (fd_at opened 0 ≡ record { fd_used = true; inode = 0; offset = 0; flags = 19 })
unfolding mpfs_format mpfs_open open_inode open_rest open_fd create truncate find_inode find_from
    alloc_inode alloc_fd release_all name_ok norm_name str_is kstrcmp
opened_fd = (refl, refl)

read-seek-write_example :
    let (r, s1) = mpfs_write 0 path opened in
    let (r', s2) = mpfs_seek 0 (fd_at opened 0).offset s1 in
    let (r'', s3, got) = mpfs_read 0 4 s2 in (r ≡ ok 4) × (r' ≡ ok 0) × (r'' ≡ ok 4) × (got ≡ path)
read-seek-write_example =
    read-seek-write opened 0 path opened-IsValid opened_fd.0 (ground (arith, opened_fd.1))
      (ground (arith, opened_fd.1)) (ground (arith, opened_fd.1)) (ground (arith, opened_fd.1))

-- The path opened as often as there are descriptors.
abbrev eight_opens : List Op
eight_opens = replicate max_fd (open_file path 19)

abbrev full : Mpfs
full = run eight_opens formatted

full-IsValid : IsValid full
full-IsValid = run-IsValid eight_opens formatted-IsValid (replicate_all path-IsCString)
  where
    replicate_all : IsCString path → AllOk eight_opens
    replicate_all c = (c, (c, (c, (c, (c, (c, (c, (c, tt))))))))

-- "b"
abbrev other : List ℕ
other = 98 ∷ []

full_tables :
    (name_ok (some other) ≡ true)
    × (mpfs_exists full (some other) ≡ false)
    × (alloc_inode full.files 0 ≡ some 1)
    × (alloc_fd full.fds 0 ≡ none)
unfolding mpfs_format mpfs_open open_inode open_rest open_fd create truncate find_inode find_from
    alloc_inode alloc_fd mpfs_exists name_ok norm_name release_all str_is kstrcmp
full_tables = (refl, refl, refl, refl)

mpfs_open_leaks_example :
    ((mpfs_open (some other) 19 full).0 ≡ err nospc)
    × (mpfs_exists (mpfs_open (some other) 19 full).1 (some other) ≡ true)
mpfs_open_leaks_example =
    mpfs_open_leaks full full-IsValid other (ground arith) 19 1 full_tables.0 full_tables.1 refl
      full_tables.2 full_tables.3

mpfs_unlink_lem_example : UnlinkSpec opened path (mpfs_unlink (some path) opened)
mpfs_unlink_lem_example = mpfs_unlink_lem opened opened-IsValid path path-IsCString
