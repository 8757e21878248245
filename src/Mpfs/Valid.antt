-- ===== src/Mpfs/Valid.antt =====
-- The invariant of the file system, and the four ways in which the code updates the tables.
use zeros_i.Base.{
  ℕ, zero, suc, ◌+◌, ◌-◌, ◌≤◌, ◌<◌, ◌≡◌, ◌≢◌, true, false, List, [], ◌∷◌, get_or, get_or-set, set,
  length, length-set, if◌then◌else◌, arith, length-replicate,
}
use zeros_i.Str.{IsCString}
use zeros_i.Mpfs.{
  Mpfs, MpfsInode, MpfsFd, blank, unused, max_files, max_fd, name_max, file_max, file_at, fd_at,
}

-- An entry of the file table fits its arrays, and one in use has a proper name.
pub record FileOk (f : MpfsInode) : Type 0 where
  pub room : length f.bytes ≡ file_max
  pub fits : f.size ≤ file_max
  pub string : IsCString f.name
  pub short : length f.name < name_max
  pub named : f.used ≡ true → 0 < length f.name

unfoldable pub count_files : List MpfsInode → ℕ
count_files [] = 0
count_files (f ∷ files) = if f.used then count_files files + 1 else count_files files

-- Both tables keep their sizes, a descriptor in use names a file in use, no two files share a name,
-- and `nfiles` counts the files.
pub record IsValid (s : Mpfs) : Type 0 where
  pub files_len : length s.files ≡ max_files
  pub fds_len : length s.fds ≡ max_fd
  pub file_ok : (i : ℕ) → FileOk (file_at s i)
  pub fd_ok :
      (d : ℕ)
      → (fd_at s d).fd_used ≡ true
      → ((fd_at s d).inode < max_files)
        × ((file_at s (fd_at s d).inode).used ≡ true)
        × ((fd_at s d).offset ≤ file_max)
  pub unique :
      (i j : ℕ)
      → (file_at s i).used ≡ true
      → (file_at s j).used ≡ true
      → (file_at s i).name ≡ (file_at s j).name
      → i ≡ j
  pub counted : s.nfiles ≡ count_files s.files

pub count_files-set :
    (files : List MpfsInode) (i : ℕ) (f : MpfsInode)
    → i < length files
    → count_files (set files i f) + (if (get_or files i blank).used then 1 else 0)
      ≡ count_files files + (if f.used then 1 else 0)
unfolding count_files
count_files-set [] i f h = absurd (omega arith)
count_files-set (g ∷ files) zero f h = ground arith
count_files-set (g ∷ files) (suc i) f h = ground (arith, count_files-set files i f)

pub blank-FileOk : FileOk blank
blank-FileOk = record {
  room = length-replicate {A = ℕ} file_max 0;
  fits = omega arith;
  string = tt;
  short = omega arith;
  named = λ e. ground arith;
}

module _ {s : Mpfs} (v : IsValid s) where
  -- A descriptor is rewritten.
  pub set_fd-IsValid :
      (fd : ℕ) (d : MpfsFd)
      → fd < max_fd
      → (d.fd_used ≡ true
          → (d.inode < max_files) × ((file_at s d.inode).used ≡ true) × (d.offset ≤ file_max))
      → IsValid (record s { fds = set s.fds fd d })
  set_fd-IsValid fd d lt ok = record {
    files_len = v.files_len;
    fds_len = omega (arith, length-set s.fds fd d, v.fds_len);
    file_ok = v.file_ok;
    fd_ok = λ e. ground (arith, get_or-set s.fds fd e d unused, v.fds_len, v.fd_ok e);
    unique = v.unique;
    counted = v.counted;
  }

  -- A file's contents are rewritten.
  pub set_file-IsValid :
      (i : ℕ) (f : MpfsInode)
      → i < max_files
      → FileOk f
      → f.used ≡ (file_at s i).used
      → f.name ≡ (file_at s i).name
      → IsValid (record s { files = set s.files i f })
  set_file-IsValid i f lt ok u n = record {
    files_len = omega (arith, length-set s.files i f, v.files_len);
    fds_len = v.fds_len;
    file_ok = λ j. ground (arith, get_or-set s.files i j f blank, v.files_len, v.file_ok j);
    fd_ok = λ e h.
        ground (arith, get_or-set s.files i (fd_at s e).inode f blank, v.files_len, v.fd_ok e h);
    unique = λ j k. ground (
      arith,
      get_or-set s.files i j f blank,
      get_or-set s.files i k f blank,
      v.files_len,
      v.unique j k,
    );
    counted = ground (arith, count_files-set s.files i f, v.files_len, v.counted);
  }

  -- A free entry becomes a file under a name that no file has.
  pub add_file-IsValid :
      (i : ℕ) (f : MpfsInode)
      → i < max_files
      → FileOk f
      → (file_at s i).used ≡ false
      → f.used ≡ true
      → ((j : ℕ) → (file_at s j).used ≡ true → (file_at s j).name ≢ f.name)
      → IsValid (record s { files = set s.files i f; nfiles = s.nfiles + 1 })
  add_file-IsValid i f lt ok free u other = record {
    files_len = omega (arith, length-set s.files i f, v.files_len);
    fds_len = v.fds_len;
    file_ok = λ j. ground (arith, get_or-set s.files i j f blank, v.files_len, v.file_ok j);
    fd_ok = λ e h.
        ground (arith, get_or-set s.files i (fd_at s e).inode f blank, v.files_len, v.fd_ok e h);
    unique = λ j k uj uk e. ground (
      arith,
      get_or-set s.files i j f blank,
      get_or-set s.files i k f blank,
      v.files_len,
      v.unique j k,
      other j,
      other k,
    );
    counted = ground (arith, count_files-set s.files i f, v.files_len, v.counted);
  }

  -- A file that no descriptor names is cleared.
  pub remove_file-IsValid :
      (i : ℕ)
      → i < max_files
      → (file_at s i).used ≡ true
      → ((e : ℕ) → (fd_at s e).fd_used ≡ true → (fd_at s e).inode ≢ i)
      → IsValid (record s { files = set s.files i blank; nfiles = s.nfiles - 1 })
  remove_file-IsValid i lt u closed = record {
    files_len = omega (arith, length-set s.files i blank, v.files_len);
    fds_len = v.fds_len;
    file_ok = λ j.
        ground (arith, get_or-set s.files i j blank blank, v.files_len, v.file_ok j, blank-FileOk);
    fd_ok = λ e h. ground (
      arith,
      get_or-set s.files i (fd_at s e).inode blank blank,
      v.files_len,
      v.fd_ok e h,
      closed e h,
    );
    unique = λ j k uj uk e. ground (
      arith,
      get_or-set s.files i j blank blank,
      get_or-set s.files i k blank blank,
      v.files_len,
      v.unique j k,
    );
    counted = ground (arith, count_files-set s.files i blank, v.files_len, v.counted);
  }
