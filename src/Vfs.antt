-- ===== src/Vfs.antt =====
-- kernel/fs/vfs.c and kernel/fs/vfs.h: the tree of nodes, the paths that name them, and the searches.
-- `Vfs.Tree` makes and removes nodes, `Vfs.Files` reads and writes them, `Vfs.Calls` are the calls
-- that go to the FAT driver for the paths that are its own.
pub mod Tree
pub mod Files
pub mod Calls
pub mod Paths
pub mod Components
pub mod Normal
pub mod Rounds
pub mod Dangling
pub mod SameTree
pub mod RoundTrip
use zeros_i.Base.{
  ℕ, zero, suc, ◌+◌, ◌-◌, ◌*◌, ◌/◌, ◌%◌, ◌^◌, Bool, true, false, ◌&&◌, ◌||◌, not, Option, none,
  some, List, [], ◌∷◌, ◌++◌, ltb, leb, ◌==◌, if◌then◌else◌, get_or, set, length, take, drop,
  replicate,
}
use zeros_i.Base.Int.{ℤ, pos, negsuc}
use zeros_i.Str.{kstrcmp, kstrlen}
use zeros_i.Mm.{Mm}

abbrev pub vfs_name_max : ℕ
vfs_name_max = 48

abbrev pub vfs_path_max : ℕ
vfs_path_max = 128

abbrev pub vfs_max_nodes : ℕ
vfs_max_nodes = 256

abbrev pub vfs_file_max : ℕ
vfs_file_max = 64 * 1024

abbrev pub vfs_max_fd : ℕ
vfs_max_fd = 32

abbrev pub vfs_max_children : ℕ
vfs_max_children = 128

-- The codes VFS_ERR_NOENT to VFS_ERR_NAMETOOLONG.
abbrev pub err_noent : ℤ
err_noent = negsuc 0

abbrev pub err_exist : ℤ
err_exist = negsuc 1

abbrev pub err_nospc : ℤ
err_nospc = negsuc 2

abbrev pub err_inval : ℤ
err_inval = negsuc 3

abbrev pub err_badfd : ℤ
err_badfd = negsuc 4

abbrev pub err_isdir : ℤ
err_isdir = negsuc 5

abbrev pub err_notdir : ℤ
err_notdir = negsuc 6

abbrev pub err_nametoolong : ℤ
err_nametoolong = negsuc 7

-- A pointer to a node is its index, `content` an address of the kernel's memory (0 when null), and
-- `children` the first `nchildren` cells of its array.
pub record VfsNode : Type 0 where
  pub node_name : List ℕ
  pub is_dir : Bool
  pub node_size : ℕ
  pub content : ℕ
  pub cap : ℕ
  pub parent : Option ℕ
  pub children : List ℕ
  pub node_used : Bool

pub record VfsFd : Type 0 where
  pub open_used : Bool
  pub node : ℕ
  pub position : ℕ
  pub open_flags : ℕ

-- The three globals, and the page allocator, from which file contents come.
pub record Vfs : Type 0 where
  pub nodes : List VfsNode
  pub opens : List VfsFd
  pub root : ℕ
  pub pages : Mm

abbrev pub blank_node : VfsNode
blank_node = record {
  node_name = [];
  is_dir = false;
  node_size = 0;
  content = 0;
  cap = 0;
  parent = none;
  children = [];
  node_used = false;
}

abbrev pub closed_fd : VfsFd
closed_fd = record { open_used = false; node = 0; position = 0; open_flags = 0 }

abbrev pub node_at : Vfs → ℕ → VfsNode
node_at v i = get_or v.nodes i blank_node

abbrev pub open_at : Vfs → ℕ → VfsFd
open_at v fd = get_or v.opens fd closed_fd

abbrev pub set_node : ℕ → VfsNode → Vfs → Vfs
set_node i n v = record v { nodes = set v.nodes i n }

abbrev pub strings_equal : List ℕ → List ℕ → Bool
strings_equal a b = elim (kstrcmp a b) [ pos n ↦ n == 0 | negsuc n ↦ false ]

-- The inner loop over a component, with `room` bytes left in its buffer: what it copies, and what
-- is left of the path.
unfoldable pub take_part : ℕ → List ℕ → List ℕ × List ℕ
take_part zero s = ([], s)
take_part (suc room) [] = ([], [])
take_part (suc room) (c ∷ s) =
    let (part, rest) = take_part room s in if c == b'/' then ([], c ∷ s) else (c ∷ part, rest)

unfoldable pub skip_slashes : List ℕ → List ℕ
skip_slashes [] = []
skip_slashes (c ∷ s) = let rest = skip_slashes s in if c == b'/' then rest else c ∷ s

abbrev pub dot : List ℕ
dot = b'.' ∷ []

abbrev pub dot_dot : List ℕ
dot_dot = b'.' ∷ b'.' ∷ []

abbrev pub pop : List (List ℕ) → List (List ℕ)
pop [] = []
pop (p ∷ parts) = parts

-- What a component does to the stack of parts, the last one first.
unfoldable pub push_part : List ℕ → List (List ℕ) → List (List ℕ)
push_part part parts =
    if (length part == 0) || strings_equal part dot
    then parts
    else if strings_equal part dot_dot
    then pop parts
    else part ∷ parts

-- The loop of `vfs_normalize`; a round takes at least one byte, so `fuel` for each byte is enough.
unfoldable pub parts_from : ℕ → List ℕ → List (List ℕ) → List (List ℕ)
parts_from zero s parts = parts
parts_from (suc fuel) [] parts = parts
parts_from (suc fuel) (c ∷ s) parts =
    let (part, rest) = take_part (vfs_name_max - 1) (c ∷ s) in
    let next = parts_from fuel (skip_slashes rest) (push_part part parts) in
    if ltb (length parts) 32 then next else parts

-- The last loop of `vfs_normalize`, with `j` bytes written and the parts in their order.
unfoldable pub join_from : ℕ → ℕ → List (List ℕ) → List ℕ
join_from n j [] = []
join_from n j (p ∷ parts) =
    let rest = join_from n (j + 1 + kstrlen p) parts in
    if ltb (j + 1) n then b'/' ∷ (if leb n (j + 1 + kstrlen p) then [] else p ++ rest) else []

abbrev pub reversed : List (List ℕ) → List (List ℕ) → List (List ℕ)
reversed [] done = done
reversed (p ∷ parts) done = reversed parts (p ∷ done)

abbrev pub slash_path : List ℕ
slash_path = b'/' ∷ []

-- `if (in[0] == '/') i = 1;`
abbrev pub after_root : List ℕ → List ℕ
after_root [] = []
after_root (c ∷ s) = if c == b'/' then s else c ∷ s

abbrev pub joined : ℕ → List (List ℕ) → List ℕ
joined n [] = slash_path
joined n (p ∷ parts) = join_from n 0 (reversed (p ∷ parts) [])

-- The string that `out`, a buffer of `n` bytes, then holds. A null path is the empty one.
unfoldable pub vfs_normalize : ℕ → List ℕ → List ℕ
vfs_normalize n s = joined n (parts_from (length s) (after_root s) [])

-- The loop of `find_child`; the pointers in `children` are not null.
unfoldable pub child_from : Vfs → List ℕ → List ℕ → Option ℕ
child_from v [] name = none
child_from v (i ∷ children) name =
    let rest = child_from v children name in
    if strings_equal (node_at v i).node_name name then some i else rest

unfoldable pub find_child : Vfs → ℕ → List ℕ → Option ℕ
find_child v dir name = child_from v (node_at v dir).children name

-- `if (norm[i] == '/') i++;`
abbrev pub skip_slash : List ℕ → List ℕ
skip_slash [] = []
skip_slash (c ∷ s) = if c == b'/' then s else c ∷ s

-- The loop of `vfs_lookup`, from the node `cur` on; a round takes at least one byte.
unfoldable pub walk : ℕ → Vfs → List ℕ → ℕ → Option ℕ
walk zero v s cur = some cur
walk (suc fuel) v [] cur = some cur
walk (suc fuel) v (c ∷ s) cur =
    let (part, rest) = take_part (vfs_name_max - 1) (c ∷ s) in
    let stay = walk fuel v (skip_slash rest) cur in
    if length part == 0
    then stay
    else if not (node_at v cur).is_dir
    then none
    else elim (find_child v cur part) [ none ↦ none | some i ↦ walk fuel v (skip_slash rest) i ]

unfoldable pub vfs_lookup : Vfs → List ℕ → Option ℕ
vfs_lookup v path =
    let norm = vfs_normalize vfs_path_max path in
    if strings_equal norm slash_path then some v.root else walk (length norm) v (drop 1 norm) v.root
