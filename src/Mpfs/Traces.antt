-- ===== src/Mpfs/Traces.antt =====
-- Any sequence of calls, from a formatted file system on.
use zeros_i.Base.{ℕ, some, List, [], ◌∷◌, Bool-cases, inl, inr, not, ◌||◌, ◌==◌}
use zeros_i.Str.{IsCString}
use zeros_i.Mpfs.{Mpfs, mpfs_magic, mpfs_format, mpfs_init, mpfs_open, mpfs_unlink}
use zeros_i.Mpfs.Io.{mpfs_close, mpfs_seek, mpfs_read, mpfs_write}
use zeros_i.Mpfs.Valid.{IsValid}
use zeros_i.Mpfs.Keeps.{
  mpfs_format-IsValid, mpfs_close-IsValid, mpfs_seek-IsValid, mpfs_read-IsValid, mpfs_write-IsValid,
  mpfs_unlink-IsValid,
}
use zeros_i.Mpfs.Open.{mpfs_open-IsValid}

-- The calls that a program can make, with their arguments.
pub data Op : Type 0 where
  init format : Op
  open_file : List ℕ → ℕ → Op
  close : ℕ → Op
  seek read : ℕ → ℕ → Op
  write : ℕ → List ℕ → Op
  unlink : List ℕ → Op

abbrev pub step : Op → Mpfs → Mpfs
step init s = mpfs_init s
step format s = mpfs_format s
step (open_file path flags) s = (mpfs_open (some path) flags s).1
step (close fd) s = (mpfs_close fd s).1
step (seek fd off) s = (mpfs_seek fd off s).1
step (read fd n) s = (mpfs_read fd n s).1
step (write fd buf) s = (mpfs_write fd buf s).1
step (unlink path) s = (mpfs_unlink (some path) s).1

abbrev pub run : List Op → Mpfs → Mpfs
run [] s = s
run (op ∷ ops) s = run ops (step op s)

-- The paths are C strings.
abbrev pub OpOk : Op → Type 0
OpOk (open_file path flags) = IsCString path
OpOk _ = Unit

abbrev pub AllOk : List Op → Type 0
AllOk [] = Unit
AllOk (op ∷ ops) = OpOk op × AllOk ops

init-IsValid : {s : Mpfs} → IsValid s → IsValid (mpfs_init s)
unfolding mpfs_init
init-IsValid {s} v = elim (Bool-cases (not (s.magic == mpfs_magic) || not (s.version == 1))) [
  | inl stale ↦ rw stale (mpfs_format-IsValid s v.fds_len)
  | inr fresh ↦ rw fresh v
]

step-IsValid : {s : Mpfs} → IsValid s → (op : Op) → OpOk op → IsValid (step op s)
step-IsValid v init ok = init-IsValid v
step-IsValid {s} v format ok = mpfs_format-IsValid s v.fds_len
step-IsValid v (open_file path flags) ok = mpfs_open-IsValid v path flags ok
step-IsValid v (close fd) ok = mpfs_close-IsValid v fd
step-IsValid v (seek fd off) ok = mpfs_seek-IsValid v fd off
step-IsValid v (read fd n) ok = mpfs_read-IsValid v fd n
step-IsValid v (write fd buf) ok = mpfs_write-IsValid v fd buf
step-IsValid v (unlink path) ok = mpfs_unlink-IsValid v (some path)

-- From well-formed tables on, whatever calls are made (with C strings as the paths to open), with
-- whatever descriptors, sizes and flags, and whether they fail or not, the tables stay well formed:
-- sizes and offsets stay within the arrays, every open descriptor names a file in use, file names
-- stay distinct, and `nfiles` counts the files.
pub run-IsValid : (ops : List Op) {s : Mpfs} → IsValid s → AllOk ops → IsValid (run ops s)
run-IsValid [] v ok = v
run-IsValid (op ∷ ops) v ok = run-IsValid ops (step-IsValid v op ok.0) ok.1
