-- ===== src/Mpfs/Keeps.antt =====
-- Every operation but `mpfs_open` keeps the invariant, on each of its branches.
use zeros_i.Base.{
  ℕ, zero, suc, ◌+◌, ◌-◌, ◌^◌, ◌≤◌, ◌<◌, ◌≡◌, refl, true, false, not, Option, none, some, List, [],
  ◌∷◌, get_or, set, length, length-set, ltb, leb, arith, Bool-cases, inl, inr, ltb→lt, replicate,
  length-replicate,
}
use zeros_i.Mpfs.{
  Mpfs, MpfsFd, blank, unused, max_files, max_fd, file_max, file_at, fd_at, has_flag, o_read,
  o_write, norm_name, name_ok, find_inode, release_all, mpfs_format, is_open, unlink_at,
  mpfs_unlink,
}
use zeros_i.Mpfs.Io.{
  mpfs_close, is_bad, mpfs_seek, mpfs_read, splice, write_at, write_offset, mpfs_write,
}
use zeros_i.Mpfs.Table.{Holds, find_from_hit, is_open_miss}
use zeros_i.Mpfs.Valid.{
  IsValid, count_files, blank-FileOk, set_fd-IsValid, set_file-IsValid, remove_file-IsValid,
}

pub length-splice : (buf bytes : List ℕ) (off : ℕ) → length (splice bytes off buf) ≡ length bytes
unfolding splice
length-splice [] bytes off = refl
length-splice (b ∷ buf) bytes off =
    ground (arith, length-splice buf (set bytes off b) (off + 1), length-set bytes off b)

get_or-replicate-blank : (n i : ℕ) → get_or (replicate n blank) i blank ≡ blank
get_or-replicate-blank zero i = refl
get_or-replicate-blank (suc n) zero = refl
get_or-replicate-blank (suc n) (suc i) = get_or-replicate-blank n i

length-release_all : (fds : List MpfsFd) → length (release_all fds) ≡ length fds
unfolding release_all
length-release_all [] = refl
length-release_all (f ∷ fds) = omega (arith, length-release_all fds)

released : (fds : List MpfsFd) (d : ℕ) → (get_or (release_all fds) d unused).fd_used ≡ false
unfolding release_all
released [] d = refl
released (f ∷ fds) zero = refl
released (f ∷ fds) (suc d) = released fds d

-- Formatting makes the invariant hold whatever the tables held.
pub mpfs_format-IsValid : (s : Mpfs) → length s.fds ≡ max_fd → IsValid (mpfs_format s)
unfolding mpfs_format count_files
mpfs_format-IsValid s h = record {
  files_len = length-replicate max_files blank;
  fds_len = omega (arith, length-release_all s.fds, h);
  file_ok = λ i. rw (get_or-replicate-blank 8 i) blank-FileOk;
  fd_ok = λ d e. absurd (ground (arith, released s.fds d));
  unique = λ i j u. absurd (ground (arith, get_or-replicate-blank 8 i));
  counted = refl;
}

module _ {s : Mpfs} (v : IsValid s) where
  pub mpfs_close-IsValid : (fd : ℕ) → IsValid (mpfs_close fd s).1
  unfolding mpfs_close
  mpfs_close-IsValid fd = elim (Bool-cases (leb max_fd fd)) [
    | inl bad ↦ rw bad v
    | inr good ↦ rw good (set_fd-IsValid v fd _ (ground arith) (λ e. absurd (ground arith)))
  ]

  pub mpfs_seek-IsValid : (fd off : ℕ) → IsValid (mpfs_seek fd off s).1
  unfolding mpfs_seek
  mpfs_seek-IsValid fd off = elim (Bool-cases (is_bad fd s)) [
    | inl bad ↦ rw bad v
    | inr good ↦ elim (Bool-cases (leb (2 ^ 31) off)) [
      | inl negative ↦ rw (good, negative) v
      | inr positive ↦ elim (Bool-cases (ltb (file_at s (fd_at s fd).inode).size off)) [
        | inl far ↦ rw (good, positive, far) v
        | inr near ↦
            let fits = (v.file_ok (fd_at s fd).inode).fits in
            rw (good, positive, near)
              (set_fd-IsValid v fd _ (ground arith) (λ e. ground (arith, v.fd_ok fd e, fits)))
      ]
    ]
  ]

  pub mpfs_read-IsValid : (fd n : ℕ) → IsValid (mpfs_read fd n s).1
  unfolding mpfs_read
  mpfs_read-IsValid fd n = elim (Bool-cases (is_bad fd s)) [
    | inl bad ↦ rw bad v
    | inr good ↦ elim (Bool-cases (not (has_flag (fd_at s fd).flags o_read))) [
      | inl closed ↦ rw (good, closed) v
      | inr open_ ↦
          elim (Bool-cases (leb (file_at s (fd_at s fd).inode).size (fd_at s fd).offset)) [
            | inl at_end ↦ rw (good, open_, at_end) v
            | inr inside ↦
                let fits = (v.file_ok (fd_at s fd).inode).fits in
                rw (good, open_, inside)
                  (set_fd-IsValid v fd _ (ground arith) (λ e. ground (arith, v.fd_ok fd e, fits)))
          ]
    ]
  ]

  write_at-IsValid :
      (fd off : ℕ) (buf : List ℕ)
      → is_bad fd s ≡ false
      → off ≤ file_max
      → IsValid (write_at fd off buf s).1
  unfolding write_at
  write_at-IsValid fd off buf good fits =
      let ino = (fd_at s fd).inode in
      let ok_fd = v.fd_ok fd (ground arith) in
      let ok_file = v.file_ok ino in
      elim (Bool-cases (ltb file_max off)) [
        | inl far ↦ absurd (omega (arith, ltb→lt _ _ far))
        | inr near ↦ elim (Bool-cases (ltb (file_max - off) (length buf))) [
          | inl long ↦
              rw (near, long)
                (set_fd-IsValid v fd (record (fd_at s fd) { offset = off }) (ground arith)
                  (λ e. (ok_fd.0, ok_fd.1, fits)))
          | inr room ↦
              let within : off + length buf ≤ file_max = ground arith in
              rw (near, room)
                (set_file-IsValid
                  (set_fd-IsValid v fd (record (fd_at s fd) { offset = off + length buf })
                    (ground arith) (λ e. (ok_fd.0, ok_fd.1, within)))
                  ino _ ok_fd.0
                  (record {
                    room = omega (arith, length-splice buf (file_at s ino).bytes off, ok_file.room);
                    fits = ground (arith, ok_file.fits);
                    string = ok_file.string;
                    short = ok_file.short;
                    named = ok_file.named;
                  })
                  refl refl)
        ]
      ]

  write_offset-le : (fd : ℕ) → is_bad fd s ≡ false → write_offset s (fd_at s fd) ≤ file_max
  write_offset-le fd good =
      let ok_fd = v.fd_ok fd (ground arith) in
      ground (arith, (v.file_ok (fd_at s fd).inode).fits, ok_fd)

  pub mpfs_write-IsValid : (fd : ℕ) (buf : List ℕ) → IsValid (mpfs_write fd buf s).1
  unfolding mpfs_write
  mpfs_write-IsValid fd buf = elim (Bool-cases (is_bad fd s)) [
    | inl bad ↦ rw bad v
    | inr good ↦ elim (Bool-cases (not (has_flag (fd_at s fd).flags o_write))) [
      | inl closed ↦ rw (good, closed) v
      | inr open_ ↦
          rw (good, open_)
            (write_at-IsValid fd (write_offset s (fd_at s fd)) buf good (write_offset-le fd good))
    ]
  ]

  unlink_at-IsValid :
      (o : Option ℕ)
      → ((ino : ℕ) → o ≡ some ino → (ino < max_files) × ((file_at s ino).used ≡ true))
      → IsValid (unlink_at s o).1
  unfolding unlink_at
  unlink_at-IsValid none h = v
  unlink_at-IsValid (some ino) h = elim (Bool-cases (is_open s.fds ino)) [
    | inl open_ ↦ rw open_ v
    | inr closed ↦
        let (lt, used) = h ino refl in
        rw closed (remove_file-IsValid v ino lt used (λ e u. is_open_miss s.fds ino e closed u))
  ]

  -- A hit of the search is a file in use.
  pub find_inode_hit :
      (p : List ℕ) (ino : ℕ)
      → find_inode s (some p) ≡ some ino
      → Holds s.files (norm_name p) ino × (name_ok (some p) ≡ true)
  unfolding find_inode
  find_inode_hit p ino e = elim (Bool-cases (name_ok (some p))) [
    | inl good ↦
        let (t, at, h) = find_from_hit s.files (norm_name p) 0 ino (rw good at e) in
        let e' : ino ≡ t = omega arith in (rw e' h, good)
    | inr bad ↦ absurd (ground arith)
  ]

  pub mpfs_unlink-IsValid : (path : Option (List ℕ)) → IsValid (mpfs_unlink path s).1
  unfolding mpfs_unlink find_inode
  mpfs_unlink-IsValid none = unlink_at-IsValid none (λ ino e. absurd (ground arith))
  mpfs_unlink-IsValid (some p) = unlink_at-IsValid (find_inode s (some p)) (λ ino e.
      let h = (find_inode_hit p ino e).0 in (omega (arith, h.within, v.files_len), h.used))
