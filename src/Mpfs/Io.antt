-- ===== src/Mpfs/Io.antt =====
-- py/fs.c: the calls on a descriptor, and the listing.
use zeros_i.Base.{
  ℕ, ◌+◌, ◌-◌, ◌^◌, Bool, true, false, ◌&&◌, ◌||◌, not, Option, none, some, List, [], ◌∷◌, ◌++◌,
  ltb, leb, ◌==◌, if◌then◌else◌, get_or, set, length, take, drop, min,
}
use zeros_i.Mpfs.{
  file_max, max_fd, Result, MpfsInode, MpfsFd, Mpfs, has_flag, o_read, o_write, o_append, file_at,
  fd_at, ok, err, nospc, inval, badfd, perm,
}

-- A descriptor is the bit pattern of its `int`: a negative one lies above `MPFS_MAX_FD` too.
unfoldable pub mpfs_close : ℕ → Mpfs → Result × Mpfs
mpfs_close fd s =
    if leb max_fd fd
    then (err badfd, s)
    else (ok 0, record s { fds = set s.fds fd (record (fd_at s fd) { fd_used = false }) })

abbrev pub is_bad : ℕ → Mpfs → Bool
is_bad fd s = leb max_fd fd || not (fd_at s fd).fd_used

-- `off` is the bit pattern of an `int32_t`.
unfoldable pub mpfs_seek : ℕ → ℕ → Mpfs → Result × Mpfs
mpfs_seek fd off s =
    if is_bad fd s
    then (err badfd, s)
    else if leb (2 ^ 31) off
    then (err inval, s)
    else if ltb (file_at s (fd_at s fd).inode).size off
    then (err inval, s)
    else (ok 0, record s { fds = set s.fds fd (record (fd_at s fd) { offset = off }) })

-- The third part of the result is what goes to `buf`.
unfoldable pub mpfs_read : ℕ → ℕ → Mpfs → Result × Mpfs × List ℕ
mpfs_read fd n s =
    let d = fd_at s fd in
    let node = file_at s d.inode in
    let k = min n (node.size - d.offset) in
    if is_bad fd s
    then (err badfd, s, [])
    else if not (has_flag d.flags o_read)
    then (err perm, s, [])
    else if leb node.size d.offset
    then (ok 0, s, [])
    else (
      ok k,
      record s { fds = set s.fds fd (record d { offset = d.offset + k }) },
      take k (drop d.offset node.bytes),
    )

-- `mp_memcpy(data + off, buf, n)` where it fits
unfoldable pub splice : List ℕ → ℕ → List ℕ → List ℕ
splice bytes off [] = bytes
splice bytes off (b ∷ buf) = splice (set bytes off b) (off + 1) buf

-- `mpfs_write` from the test of the offset on; a failure keeps the offset that O_APPEND set.
unfoldable pub write_at : ℕ → ℕ → List ℕ → Mpfs → Result × Mpfs
write_at fd off buf s =
    let d = fd_at s fd in
    let node = file_at s d.inode in
    let end = off + length buf in
    let moved = record s { fds = set s.fds fd (record d { offset = off }) } in
    if ltb file_max off
    then (err nospc, moved)
    else if ltb (file_max - off) (length buf)
    then (err nospc, moved)
    else (
      ok (length buf),
      record s {
        fds = set s.fds fd (record d { offset = end });
        files = set s.files d.inode (record node {
          bytes = splice node.bytes off buf;
          size = if ltb node.size end then end else node.size;
        });
      },
    )

abbrev pub write_offset : Mpfs → MpfsFd → ℕ
write_offset s d = if has_flag d.flags o_append then (file_at s d.inode).size else d.offset

-- `buf` holds the `n` bytes to write.
unfoldable pub mpfs_write : ℕ → List ℕ → Mpfs → Result × Mpfs
mpfs_write fd buf s =
    if is_bad fd s
    then (err badfd, s)
    else if not (has_flag (fd_at s fd).flags o_write)
    then (err perm, s)
    else write_at fd (write_offset s (fd_at s fd)) buf s

-- The loop of `mpfs_listdir`: each name and a newline behind `out`, or `none` where the buffer is
-- too short for them and a NUL.
pub list_from : List MpfsInode → ℕ → List ℕ → Option (List ℕ)
list_from [] buflen out = some out
list_from (f ∷ files) buflen out = elim f.used [
  | false ↦ list_from files buflen out
  | true ↦ elim (ltb buflen (length out + length f.name + 2)) [
    | true ↦ none
    | false ↦ list_from files buflen (out ++ (f.name ++ (b'\n' ∷ [])))
  ]
]

-- The last newline is taken off again.
pub drop_newline : Option (List ℕ) → Result × List ℕ
drop_newline none = (err nospc, [])
drop_newline (some out) =
    let n = length out in
    if ltb 0 n && (get_or out (n - 1) 0 == b'\n')
    then (ok (n - 1), take (n - 1) out)
    else (ok n, out)

-- The number of bytes, and the string that the buffer then holds; `null` says that `buf` is null.
pub mpfs_listdir : Bool → ℕ → Mpfs → Result × List ℕ
mpfs_listdir null buflen s =
    if null || (buflen == 0) then (err inval, []) else drop_newline (list_from s.files buflen [])
