-- ===== src/Mpfs/RoundTrip.antt =====
-- What a write puts into a file a read gets back.
use zeros_i.Base.{
  ℕ, zero, suc, ◌+◌, ◌-◌, ◌^◌, ◌≤◌, ◌<◌, ◌≡◌, refl, ap, true, false, List, [], ◌∷◌, get_or-set, set,
  length, length-set, take, drop, ltb, if◌then◌else◌, arith, min,
}
use zeros_i.Mpfs.{
  Mpfs, ok, blank, unused, file_max, file_at, fd_at, has_flag, o_read, o_write, o_append,
}
use zeros_i.Mpfs.Io.{is_bad, mpfs_seek, mpfs_read, splice, write_at, write_offset, mpfs_write}
use zeros_i.Mpfs.Valid.{IsValid}

splice-suc : (buf xs : List ℕ) (x off : ℕ) → splice (x ∷ xs) (suc off) buf ≡ x ∷ splice xs off buf
unfolding splice
splice-suc [] xs x off = refl
splice-suc (b ∷ buf) xs x off =
    let e : suc off + 1 ≡ suc (off + 1) = omega arith in
    rw e (splice-suc buf (set xs off b) x (off + 1))

take-splice_zero :
    (buf xs : List ℕ) → length buf ≤ length xs → take (length buf) (splice xs 0 buf) ≡ buf
unfolding splice
take-splice_zero [] xs h = refl
take-splice_zero (b ∷ buf) [] h = absurd (omega arith)
take-splice_zero (b ∷ buf) (x ∷ xs) h =
    rw (splice-suc buf xs b 0) (ap (λ ys. b ∷ ys) (take-splice_zero buf xs (omega arith)))

pub take-drop-splice :
    (off : ℕ) (buf xs : List ℕ)
    → off + length buf ≤ length xs
    → take (length buf) (drop off (splice xs off buf)) ≡ buf
take-drop-splice zero buf xs h = take-splice_zero buf xs (omega arith)
take-drop-splice (suc off) buf [] h = absurd (omega arith)
take-drop-splice (suc off) buf (x ∷ xs) h =
    rw (splice-suc buf xs x off) (take-drop-splice off buf xs (omega arith))

-- The state after a write that fits.
abbrev pub written : ℕ → ℕ → List ℕ → Mpfs → Mpfs
written fd off buf s = record s {
  fds = set s.fds fd (record (fd_at s fd) { offset = off + length buf });
  files = set s.files (fd_at s fd).inode (record (file_at s (fd_at s fd).inode) {
    bytes = splice (file_at s (fd_at s fd).inode).bytes off buf;
    size =
        if ltb (file_at s (fd_at s fd).inode).size (off + length buf)
        then off + length buf
        else (file_at s (fd_at s fd).inode).size;
  });
}

write_ok :
    (s : Mpfs) (fd : ℕ) (buf : List ℕ)
    → is_bad fd s ≡ false
    → has_flag (fd_at s fd).flags o_write ≡ true
    → write_offset s (fd_at s fd) + length buf ≤ file_max
    → mpfs_write fd buf s ≡ (ok (length buf), written fd (write_offset s (fd_at s fd)) buf s)
unfolding mpfs_write write_at
write_ok s fd buf good w room =
    let off = write_offset s (fd_at s fd) in
    let near : ltb file_max off ≡ false = ground arith in
    let fits : ltb (file_max - off) (length buf) ≡ false = ground arith in rw (good, w, near, fits)

abbrev pub sought : ℕ → ℕ → Mpfs → Mpfs
sought fd off s = record s { fds = set s.fds fd (record (fd_at s fd) { offset = off }) }

seek_ok :
    (s : Mpfs) (fd off : ℕ)
    → is_bad fd s ≡ false
    → off < 2 ^ 31
    → off ≤ (file_at s (fd_at s fd).inode).size
    → mpfs_seek fd off s ≡ (ok 0, sought fd off s)
unfolding mpfs_seek
seek_ok s fd off good small near = ground arith

read_ok :
    (s : Mpfs) (fd n : ℕ)
    → is_bad fd s ≡ false
    → has_flag (fd_at s fd).flags o_read ≡ true
    → (fd_at s fd).offset + n ≤ (file_at s (fd_at s fd).inode).size
    → ((mpfs_read fd n s).0 ≡ ok n)
      × ((mpfs_read fd n s).2
          ≡ take n (drop (fd_at s fd).offset (file_at s (fd_at s fd).inode).bytes))
unfolding mpfs_read
read_ok s fd zero good rd room = (ground arith, ground arith)
read_ok s fd (suc n) good rd room =
    let all : min (suc n) ((file_at s (fd_at s fd).inode).size - (fd_at s fd).offset) ≡ suc n =
      omega arith in
    rw all (ground arith, ground arith)

file_written :
    (s : Mpfs) (fd off : ℕ) (buf : List ℕ)
    → IsValid s
    → is_bad fd s ≡ false
    → (off + length buf ≤ (file_at (written fd off buf s) (fd_at s fd).inode).size)
      × ((file_at (written fd off buf s) (fd_at s fd).inode).bytes
          ≡ splice (file_at s (fd_at s fd).inode).bytes off buf)
file_written s fd off buf v good =
    let ino = (fd_at s fd).inode in
    let at =
      get_or-set s.files ino ino
        (record (file_at s ino) {
          bytes = splice (file_at s ino).bytes off buf;
          size =
              if ltb (file_at s ino).size (off + length buf)
              then off + length buf
              else (file_at s ino).size;
        })
        blank (omega (arith, (v.fd_ok fd (ground arith)).0, v.files_len)) in
    (ground (arith, at), ground (arith, at))

-- In well-formed tables, where it fits the file, writing `buf` through a descriptor open for
-- reading and writing (not for appending), seeking back to where it was and reading as many bytes
-- succeeds at each step, and reads `buf`.
pub read-seek-write :
    (s : Mpfs) (fd : ℕ) (buf : List ℕ)
    → IsValid s
    → is_bad fd s ≡ false
    → has_flag (fd_at s fd).flags o_read ≡ true
    → has_flag (fd_at s fd).flags o_write ≡ true
    → has_flag (fd_at s fd).flags o_append ≡ false
    → (fd_at s fd).offset + length buf ≤ file_max
    → let (r, s1) = mpfs_write fd buf s in
      let (r', s2) = mpfs_seek fd (fd_at s fd).offset s1 in
      let (r'', s3, got) = mpfs_read fd (length buf) s2 in
      (r ≡ ok (length buf)) × (r' ≡ ok 0) × (r'' ≡ ok (length buf)) × (got ≡ buf)
read-seek-write s fd buf v good rd w app room =
    let d = fd_at s fd in
    let ok_fd = v.fd_ok fd (ground arith) in
    let s1 = written fd d.offset buf s in
    let s2 = sought fd d.offset s1 in
    let d1 : fd_at s1 fd ≡ record d { offset = d.offset + length buf } = ground (
      arith,
      get_or-set s.fds fd fd (record d { offset = d.offset + length buf }) unused,
      v.fds_len,
    ) in
    let d2 : fd_at s2 fd ≡ record d { offset = d.offset } = ground (
      arith,
      d1,
      v.fds_len,
      length-set s.fds fd (record d { offset = d.offset + length buf }),
      get_or-set s1.fds fd fd (record (fd_at s1 fd) { offset = d.offset }) unused,
    ) in
    let f1 = file_written s fd d.offset buf v good in
    let wrote : mpfs_write fd buf s ≡ (ok (length buf), s1) =
      rw app at (write_ok s fd buf good w (rw app room)) in
    let seek : mpfs_seek fd d.offset s1 ≡ (ok 0, s2) =
      seek_ok s1 fd d.offset (ground (arith, d1)) (ground arith) (ground (arith, d1, f1)) in
    let got =
      read_ok s2 fd (length buf) (ground (arith, d2)) (ground (arith, d2))
        (ground (arith, d2, f1)) in
    let same : take (length buf) (drop d.offset (splice (file_at s d.inode).bytes d.offset buf))
        ≡ buf =
      take-drop-splice d.offset buf (file_at s d.inode).bytes
        (omega (arith, (v.file_ok d.inode).room)) in
    rw (wrote, seek) (refl, refl, got.0, cc (got.1, d2, f1.1, same))
