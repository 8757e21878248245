-- ===== src/Vfs/Files.antt =====
-- kernel/fs/vfs.c: descriptors and what is read and written through them. Each function takes a
-- path or a descriptor that is not the FAT driver's.
use zeros_i.Base.{
  ℕ, ◌+◌, ◌-◌, ◌*◌, ◌/◌, ◌%◌, Bool, true, false, ◌&&◌, ◌||◌, not, Option, none, some, List, [], ◌∷◌,
  ◌++◌, ltb, leb, ◌==◌, if◌then◌else◌, set, length, min, drop,
}
use zeros_i.Base.Int.{ℤ, pos, negsuc}
use zeros_i.Memory.{word, kmemcpy, put_bytes, get_bytes}
use zeros_i.Str.{kstrlen}
use zeros_i.Mm.{Mm, page_size, mm_alloc_pages}
use zeros_i.Vfs.{
  vfs_file_max, vfs_max_fd, err_noent, err_nospc, err_inval, err_badfd, err_isdir, err_notdir,
  VfsNode, VfsFd, Vfs, node_at, open_at, set_node, vfs_lookup,
}
use zeros_i.Vfs.Tree.{free_content, vfs_write_file}

abbrev pub has_bit : ℕ → ℕ → Bool
has_bit flags f = (flags / f) % 2 == 1

abbrev pub vfs_o_read : ℕ
vfs_o_read = 1

abbrev pub vfs_o_write : ℕ
vfs_o_write = 2

abbrev pub vfs_o_append : ℕ
vfs_o_append = 4

abbrev pub vfs_o_trunc : ℕ
vfs_o_trunc = 8

abbrev pub vfs_o_create : ℕ
vfs_o_create = 16

abbrev pub vfs_o_dir : ℕ
vfs_o_dir = 32

-- The loop of `alloc_fd`, from index `i` on.
pub free_fd_from : List VfsFd → ℕ → Option ℕ
free_fd_from [] i = none
free_fd_from (f ∷ opens) i =
    let rest = free_fd_from opens (i + 1) in if f.open_used then rest else some i

-- The first three descriptors are never handed out.
unfoldable pub alloc_fd : Vfs → Option ℕ
alloc_fd v = free_fd_from (drop 3 v.opens) 3

-- `vfs_open` from the test of `is_dir` on.
pub open_node : ℕ → ℕ → Vfs → ℤ × Vfs
open_node i flags v =
    let n = node_at v i in
    let v' =
      if has_bit flags vfs_o_trunc && (has_bit flags vfs_o_write && not n.is_dir)
      then set_node i (record n { node_size = 0 }) v
      else v in
    if n.is_dir && not (has_bit flags vfs_o_dir) then (err_isdir, v) else elim (alloc_fd v') [
      | none ↦ (err_nospc, v')
      | some fd ↦ (
        pos fd,
        record v' {
          opens = set v'.opens fd (record {
            open_used = true;
            node = i;
            position = if has_bit flags vfs_o_append then (node_at v' i).node_size else 0;
            open_flags = flags;
          });
        },
      )
    ]

abbrev pub is_error : ℤ → Bool
is_error (pos n) = false
is_error (negsuc n) = true

pub open_here : List ℕ → ℕ → Vfs → ℤ × Vfs
open_here path flags v = elim (vfs_lookup v path) [
  | some i ↦ open_node i flags v
  | none ↦
      let (r, v') = vfs_write_file path [] v in
      if not (has_bit flags vfs_o_create)
      then (err_noent, v)
      else if is_error r
      then (err_nospc, v')
      else elim (vfs_lookup v' path) [ none ↦ (err_noent, v') | some i ↦ open_node i flags v' ]
]

-- A descriptor is the bit pattern of its `int`: a negative one lies above `VFS_MAX_FD` too.
abbrev pub is_bad_fd : ℕ → Vfs → Bool
is_bad_fd fd v = leb vfs_max_fd fd || not (open_at v fd).open_used

pub close_here : ℕ → Vfs → ℤ × Vfs
close_here fd v =
    if is_bad_fd fd v
    then (err_badfd, v)
    else (pos 0, record v { opens = set v.opens fd (record (open_at v fd) { open_used = false }) })

-- The third part of the result is what goes to `buf`.
pub read_here : ℕ → ℕ → Vfs → ℤ × Vfs × List ℕ
read_here fd n v =
    let f = open_at v fd in
    let node = node_at v f.node in
    let k = min n (node.node_size - f.position) in
    if is_bad_fd fd v
    then (err_badfd, v, [])
    else if not (has_bit f.open_flags vfs_o_read)
    then (err_inval, v, [])
    else if node.is_dir
    then (err_isdir, v, [])
    else if leb node.node_size f.position
    then (pos 0, v, [])
    else (
      pos k,
      record v { opens = set v.opens fd (record f { position = f.position + k }) },
      get_bytes v.pages.mem (node.content + f.position) k,
    )

-- `if (f->node->data && f->node->size) kmemcpy(p, f->node->data, f->node->size);`
abbrev pub copy_content : VfsNode → ℕ → Mm → Mm
copy_content n p mm =
    if (n.content == 0) || (n.node_size == 0)
    then mm
    else record mm { mem = kmemcpy mm.mem p n.content n.node_size }

-- Room for `need` bytes: the allocation in `vfs_write`; `none` for no space.
pub grow : ℕ → ℕ → Vfs → Option Vfs
grow need i v =
    let n = node_at v i in
    let count = (need + page_size - 1) / page_size in
    let (p, mm) = mm_alloc_pages count v.pages in
    if ltb n.cap need
    then elim p [
      | none ↦ none
      | some a ↦ some (
          set_node i (record n { content = a; cap = count * page_size })
            (record v { pages = free_content n (n.cap / page_size) (copy_content n a mm) }))
    ]
    else some v

-- `vfs_write` once there is room: the copy, and the two fields that follow it.
pub put_at : ℕ → List ℕ → Vfs → Vfs
put_at fd buf v =
    let f = open_at v fd in
    let n = node_at v f.node in
    let end = (f.position + length buf) % word in
    set_node f.node (record n { node_size = if ltb n.node_size end then end else n.node_size })
      (record v {
        opens = set v.opens fd (record f { position = end });
        pages = record v.pages { mem = put_bytes v.pages.mem (n.content + f.position) buf };
      })

-- The sum of offset and size wraps.
pub write_here : ℕ → List ℕ → Vfs → ℤ × Vfs
write_here fd buf v =
    let f = open_at v fd in
    let need = (f.position + length buf) % word in
    if is_bad_fd fd v
    then (err_badfd, v)
    else if not (has_bit f.open_flags vfs_o_write)
    then (err_inval, v)
    else if (node_at v f.node).is_dir
    then (err_isdir, v)
    else if ltb vfs_file_max need
    then (err_nospc, v)
    else elim (grow need f.node v) [
      | none ↦ (err_nospc, v)
      | some v' ↦ (pos (length buf), put_at fd buf v')
    ]

-- The bytes are those that go to `buf`.
unfoldable pub read_file_here : List ℕ → ℕ → Vfs → ℤ × List ℕ
read_file_here path buflen v = elim (vfs_lookup v path) [
  | none ↦ (err_noent, [])
  | some i ↦
      let n = node_at v i in
      let k = min n.node_size buflen in
      if n.is_dir then (err_isdir, []) else (pos k, get_bytes v.pages.mem n.content k)
]

pub size_here : List ℕ → Vfs → ℤ
size_here path v = elim (vfs_lookup v path) [
  | none ↦ err_noent
  | some i ↦ if (node_at v i).is_dir then err_isdir else pos (node_at v i).node_size
]

-- The loop of `vfs_listdir`: the string in `buf` so far is `out`.
pub list_children : Vfs → List ℕ → ℕ → List ℕ → List ℕ
list_children v [] buflen out = out
list_children v (i ∷ children) buflen out =
    let name = (node_at v i).node_name in
    let rest = list_children v children buflen (out ++ (name ++ (b'\n' ∷ []))) in
    if ltb buflen (length out + kstrlen name + 2) then out else rest

pub listdir_here : List ℕ → ℕ → Vfs → ℤ × List ℕ
listdir_here path buflen v = elim (vfs_lookup v path) [
  | none ↦ (err_noent, [])
  | some i ↦
      let out = list_children v (node_at v i).children buflen [] in
      if not (node_at v i).is_dir then (err_notdir, []) else (pos (length out), out)
]
