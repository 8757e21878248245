-- ===== src/Mpfs.antt =====
-- py/fs.c: the flat RAM file system of minipy, with the limits of the build without MP_HOST.
-- A function returns its `int` (or an error) beside the new state. The proofs are in the modules
-- below.
pub mod Io
pub mod Table
pub mod Valid
pub mod Keeps
pub mod Open
pub mod Traces
pub mod RoundTrip
pub mod Names
pub mod Leak
use zeros_i.Base.{
  ℕ, zero, suc, ◌+◌, ◌-◌, ◌*◌, ◌/◌, ◌%◌, ◌^◌, Bool, true, false, ◌&&◌, ◌||◌, not, Option, none,
  some, List, [], ◌∷◌, ◌++◌, ltb, leb, ◌==◌, if◌then◌else◌, get_or, set, replicate, length, take,
  drop, min,
}
use zeros_i.Base.Int.{ℤ, pos, negsuc}
use zeros_i.Str.{kstrcmp}

abbrev pub max_files : ℕ
max_files = 8

abbrev pub name_max : ℕ
name_max = 28

abbrev pub file_max : ℕ
file_max = 2048

abbrev pub max_fd : ℕ
max_fd = 8

pub data Error : Type 0 where
  noent nospc inval badfd perm nametoolong : Error

-- A return value: a number that is not negative, or one of the MPFS_ERR codes.
pub data Result : Type 0 where
  ok : ℕ → Result
  err : Error → Result

-- `name` is the string that the name's array holds.
pub record MpfsInode : Type 0 where
  pub name : List ℕ
  pub size : ℕ
  pub used : Bool
  pub bytes : List ℕ

pub record MpfsFd : Type 0 where
  pub fd_used : Bool
  pub inode : ℕ
  pub offset : ℕ
  pub flags : ℕ

-- The two globals `fs` and `fds`.
pub record Mpfs : Type 0 where
  pub magic : ℕ
  pub version : ℕ
  pub nfiles : ℕ
  pub files : List MpfsInode
  pub fds : List MpfsFd

abbrev pub blank : MpfsInode
blank = record { name = []; size = 0; used = false; bytes = replicate file_max 0 }

abbrev pub unused : MpfsFd
unused = record { fd_used = false; inode = 0; offset = 0; flags = 0 }

abbrev pub mpfs_magic : ℕ
mpfs_magic = 0x5346504D

-- `flags & bit`, for the bit of value `bit`
abbrev pub has_flag : ℕ → ℕ → Bool
has_flag flags bit = flags / bit % 2 == 1

abbrev pub o_read : ℕ
o_read = 1

abbrev pub o_write : ℕ
o_write = 2

abbrev pub o_append : ℕ
o_append = 4

abbrev pub o_trunc : ℕ
o_trunc = 8

abbrev pub o_create : ℕ
o_create = 16

unfoldable pub str_is : List ℕ → List ℕ → Bool
str_is a b = elim (kstrcmp a b) [ pos n ↦ n == 0 | negsuc n ↦ false ]

-- A path is a string, or `none` for a null pointer.
unfoldable pub norm_name : List ℕ → List ℕ
norm_name [] = []
norm_name (c ∷ p) = if c == b'/' then p else c ∷ p

unfoldable pub name_ok : Option (List ℕ) → Bool
unfolding norm_name
name_ok none = false
name_ok (some []) = false
name_ok (some (c ∷ p)) = let n = length (norm_name (c ∷ p)) in not (n == 0 || leb name_max n)

-- The loop of `find_inode`, from index `i` on.
unfoldable pub find_from : List MpfsInode → List ℕ → ℕ → Option ℕ
unfolding str_is
find_from [] name i = none
find_from (f ∷ files) name i =
    let rest = find_from files name (i + 1) in if f.used && str_is f.name name then some i else rest

-- `none` is -1.
unfoldable pub find_inode : Mpfs → Option (List ℕ) → Option ℕ
find_inode s none = none
find_inode s (some p) = if name_ok (some p) then find_from s.files (norm_name p) 0 else none

unfoldable pub alloc_inode : List MpfsInode → ℕ → Option ℕ
alloc_inode [] i = none
alloc_inode (f ∷ files) i = let rest = alloc_inode files (i + 1) in if f.used then rest else some i

unfoldable pub alloc_fd : List MpfsFd → ℕ → Option ℕ
alloc_fd [] i = none
alloc_fd (f ∷ fds) i = let rest = alloc_fd fds (i + 1) in if f.fd_used then rest else some i

-- Only the `used` field of a descriptor is reset.
unfoldable pub release_all : List MpfsFd → List MpfsFd
release_all [] = []
release_all (f ∷ fds) = record f { fd_used = false } ∷ release_all fds

unfoldable pub mpfs_format : Mpfs → Mpfs
mpfs_format s = record {
  magic = mpfs_magic;
  version = 1;
  nfiles = 0;
  files = replicate max_files blank;
  fds = release_all s.fds;
}

pub mpfs_init : Mpfs → Mpfs
unfolding mpfs_format
mpfs_init s = if not (s.magic == mpfs_magic) || not (s.version == 1) then mpfs_format s else s

unfoldable pub mpfs_exists : Mpfs → Option (List ℕ) → Bool
mpfs_exists s path = elim (find_inode s path) [ none ↦ false | some ino ↦ true ]

abbrev pub file_at : Mpfs → ℕ → MpfsInode
file_at s ino = get_or s.files ino blank

abbrev pub fd_at : Mpfs → ℕ → MpfsFd
fd_at s fd = get_or s.fds fd unused

pub mpfs_size : Mpfs → Option (List ℕ) → Result
mpfs_size s path = elim (find_inode s path) [
  | none ↦ err noent
  | some ino ↦ ok (file_at s ino).size
]

-- The loop of `mpfs_unlink`: does an open descriptor name the inode?
pub is_open : List MpfsFd → ℕ → Bool
is_open [] ino = false
is_open (f ∷ fds) ino = f.fd_used && (f.inode == ino) || is_open fds ino

pub unlink_at : Mpfs → Option ℕ → Result × Mpfs
unlink_at s none = (err noent, s)
unlink_at s (some ino) =
    if is_open s.fds ino
    then (err perm, s)
    else (ok 0, record s { files = set s.files ino blank; nfiles = s.nfiles - 1 })

pub mpfs_unlink : Option (List ℕ) → Mpfs → Result × Mpfs
mpfs_unlink path s = unlink_at s (find_inode s path)

-- The new inode of `mpfs_open`; `mp_strncpy` cuts the name at its array's size.
unfoldable pub create : List ℕ → ℕ → Mpfs → Mpfs
create name ino s = record s {
  files = set s.files ino (record blank { name = take (name_max - 1) name; used = true });
  nfiles = s.nfiles + 1;
}

-- Finds or makes the inode: the first half of `mpfs_open`.
unfoldable pub open_inode : List ℕ → ℕ → Mpfs → Option ℕ → Option ℕ → Result × Mpfs
open_inode name flags s (some ino) fresh = (ok ino, s)
open_inode name flags s none none = (if has_flag flags o_create then err nospc else err noent, s)
open_inode name flags s none (some ino) =
    if has_flag flags o_create then (ok ino, create name ino s) else (err noent, s)

unfoldable pub truncate : ℕ → ℕ → Mpfs → Mpfs
truncate flags ino s =
    if has_flag flags o_trunc && has_flag flags o_write
    then record s { files = set s.files ino (record (file_at s ino) { size = 0 }) }
    else s

unfoldable pub open_fd : ℕ → ℕ → Mpfs → Option ℕ → Result × Mpfs
open_fd flags ino s none = (err nospc, s)
open_fd flags ino s (some fd) = (
  ok fd,
  record s {
    fds = set s.fds fd (record {
      fd_used = true;
      inode = ino;
      offset = if has_flag flags o_append then (file_at s ino).size else 0;
      flags = flags;
    });
  },
)

-- The second half of `mpfs_open`.
unfoldable pub open_rest : ℕ → Result × Mpfs → Result × Mpfs
open_rest flags (err e, s) = (err e, s)
open_rest flags (ok ino, s) =
    let s' = truncate flags ino s in open_fd flags ino s' (alloc_fd s'.fds 0)

unfoldable pub mpfs_open : Option (List ℕ) → ℕ → Mpfs → Result × Mpfs
mpfs_open none flags s = (err nametoolong, s)
mpfs_open (some p) flags s =
    if name_ok (some p)
    then open_rest flags
        (open_inode (norm_name p) flags s (find_inode s (some p)) (alloc_inode s.files 0))
    else (err nametoolong, s)
