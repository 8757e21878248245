-- ===== src/Vfs/Tree.antt =====
-- kernel/fs/vfs.c: nodes come and go.
use zeros_i.Base.{
  ℕ, ◌+◌, ◌-◌, ◌*◌, ◌/◌, Bool, true, false, ◌&&◌, ◌||◌, not, Option, none, some, List, [], ◌∷◌,
  ◌++◌, ltb, leb, ◌==◌, if◌then◌else◌, set, length, take, drop, replicate,
}
use zeros_i.Base.Int.{ℤ, pos}
use zeros_i.Memory.{put_bytes}
use zeros_i.Mm.{Mm, page_size, mm_alloc_pages, mm_free_pages}
use zeros_i.Vfs.{
  vfs_name_max, vfs_path_max, vfs_max_nodes, vfs_file_max, vfs_max_fd, vfs_max_children, err_noent,
  err_exist, err_nospc, err_inval, err_isdir, err_nametoolong, VfsNode, Vfs, blank_node, closed_fd,
  node_at, set_node, strings_equal, slash_path, vfs_normalize, vfs_lookup,
}

-- The loop of `alloc_node`, from index `i` on.
unfoldable pub free_node : List VfsNode → ℕ → Option ℕ
free_node [] i = none
free_node (n ∷ nodes) i = let rest = free_node nodes (i + 1) in if n.node_used then rest else some i

-- The result of `ensure_parent`.
pub data Place : Type 0 where
  refused : ℤ → Place
  placed : ℕ → List ℕ → Place

-- The loop that looks for the last slash, from index `i` on.
unfoldable pub last_slash : List ℕ → ℕ → ℕ → ℕ
last_slash [] i slash = slash
last_slash (c ∷ s) i slash = last_slash s (i + 1) (if c == b'/' then i else slash)

-- `ensure_parent` once the parent is looked up.
unfoldable pub place_in : Vfs → List ℕ → Option ℕ → Place
place_in v name none = refused err_noent
place_in v name (some p) =
    if not (node_at v p).is_dir
    then refused err_noent
    else if (length name == 0) || leb vfs_name_max (length name)
    then refused err_nametoolong
    else placed p name

unfoldable pub ensure_parent : Vfs → List ℕ → Place
ensure_parent v path =
    let norm = vfs_normalize vfs_path_max path in
    let slash = last_slash (drop 1 norm) 1 0 in
    let name = take (vfs_name_max - 1) (drop (slash + 1) norm) in
    if leb (length norm) 1
    then refused err_inval
    else if slash == 0
    then place_in v name (vfs_lookup v slash_path)
    else place_in v name (vfs_lookup v (take slash norm))

-- A new node `i` under `p`, a directory or a file.
unfoldable pub add_node : Bool → ℕ → List ℕ → ℕ → Vfs → Vfs
add_node dir p name i v =
    let v' =
      set_node i
        (record blank_node { node_name = name; is_dir = dir; parent = some p; node_used = true })
        v in
    set_node p (record (node_at v' p) { children = (node_at v' p).children ++ (i ∷ []) }) v'

-- `vfs_mkdir` and the first half of `vfs_write_file` once the parent is known: a node, or an error.
pub data Made : Type 0 where
  not_made : ℤ → Made
  made : ℕ → Vfs → Made

unfoldable pub make_at : Bool → Vfs → Place → Made
make_at dir v (refused e) = not_made e
make_at dir v (placed p name) =
    if leb vfs_max_children (length (node_at v p).children)
    then not_made err_nospc
    else elim (free_node v.nodes 0) [
      | none ↦ not_made err_nospc
      | some i ↦ made i (add_node dir p name i v)
    ]

abbrev pub status_of : Vfs → Made → ℤ × Vfs
status_of v (not_made e) = (e, v)
status_of v (made i v') = (pos 0, v')

-- `vfs_mkdir` of a path that is not the FAT driver's.
unfoldable pub mkdir_here : List ℕ → Vfs → ℤ × Vfs
mkdir_here path v = elim (vfs_lookup v path) [
  | some i ↦ (err_exist, v)
  | none ↦ status_of v (make_at true v (ensure_parent v path))
]

abbrev pub pages_for : ℕ → ℕ
pages_for n = (n + page_size - 1) / page_size

-- `if (node->data) mm_free_pages(node->data, ...);`
unfoldable pub free_content : VfsNode → ℕ → Mm → Mm
free_content n pages mm = if n.content == 0 then mm else mm_free_pages n.content pages mm

-- Room for `n` bytes in the node `i`: the allocation in `vfs_write_file`; `none` for no space.
unfoldable pub reserve : ℕ → ℕ → Vfs → Option Vfs
reserve n i v =
    let node = node_at v i in
    let (p, mm) = mm_alloc_pages (pages_for n) v.pages in
    if ltb node.cap n
    then elim p [
      | none ↦ none
      | some a ↦ some (
          set_node i (record node { content = a; cap = pages_for n * page_size })
            (record v { pages = free_content node (pages_for node.cap) mm }))
    ]
    else some v

abbrev pub put : ℕ → List ℕ → Vfs → Vfs
put a bytes v = record v { pages = record v.pages { mem = put_bytes v.pages.mem a bytes } }

-- `vfs_write_file` from the test of `is_dir` on.
unfoldable pub write_node : ℕ → List ℕ → Vfs → ℤ × Vfs
write_node i bytes v =
    if (node_at v i).is_dir
    then (err_isdir, v)
    else if ltb vfs_file_max (length bytes)
    then (err_nospc, v)
    else elim (reserve (length bytes) i v) [
      | none ↦ (err_nospc, v)
      | some v' ↦ (
        pos 0,
        set_node i (record (node_at v' i) { node_size = length bytes })
            (put (node_at v' i).content bytes v'),
      )
    ]

abbrev pub write_made : Vfs → List ℕ → Made → ℤ × Vfs
write_made v bytes (not_made e) = (e, v)
write_made v bytes (made i v') = write_node i bytes v'

unfoldable pub vfs_write_file : List ℕ → List ℕ → Vfs → ℤ × Vfs
vfs_write_file path bytes v = elim (vfs_lookup v path) [
  | some i ↦ write_node i bytes v
  | none ↦ write_made v bytes (make_at false v (ensure_parent v path))
]

-- The children of the parent after `vfs_unlink`: the first pointer to the node goes.
pub without : ℕ → List ℕ → List ℕ
without i [] = []
without i (c ∷ children) = let rest = without i children in if c == i then children else c ∷ rest

-- The end of `vfs_unlink`, below the parent `p`.
unfoldable pub remove_node : ℕ → ℕ → Vfs → Vfs
remove_node i p v =
    let v' = set_node p (record (node_at v p) { children = without i (node_at v p).children }) v in
    let n = node_at v' i in
    set_node i (record n { node_used = false })
      (record v' { pages = free_content n (pages_for n.cap) v'.pages })

abbrev pub is_mount : Vfs → ℕ → Bool
is_mount v i = elim (node_at v i).parent [
  | none ↦ false
  | some p ↦
      (p == v.root)
      && (strings_equal (node_at v i).node_name (b's' ∷ b'y' ∷ b's' ∷ [])
          || strings_equal (node_at v i).node_name (b'd' ∷ b'i' ∷ b's' ∷ b'k' ∷ []))
]

-- `vfs_unlink` from the tests of the node `i` on.
unfoldable pub unlink_node : ℕ → Vfs → ℤ × Vfs
unlink_node i v =
    if i == v.root
    then (err_noent, v)
    else if is_mount v i
    then (err_inval, v)
    else if (node_at v i).is_dir && not (length (node_at v i).children == 0)
    then (err_inval, v)
    else elim (node_at v i).parent [ none ↦ (err_inval, v) | some p ↦ (pos 0, remove_node i p v) ]

-- `vfs_unlink` of a path that is not the FAT driver's.
unfoldable pub unlink_here : List ℕ → Vfs → ℤ × Vfs
unlink_here path v = elim (vfs_lookup v path) [ none ↦ (err_noent, v) | some i ↦ unlink_node i v ]

-- `vfs_init` before its calls of `vfs_mkdir`.
unfoldable pub empty_tree : Mm → Vfs
empty_tree mm = record {
  nodes =
      set (replicate vfs_max_nodes blank_node) 0
        (record blank_node { node_name = slash_path; is_dir = true; node_used = true });
  opens = replicate vfs_max_fd closed_fd;
  root = 0;
  pages = mm;
}
