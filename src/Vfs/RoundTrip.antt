-- ===== src/Vfs/RoundTrip.antt =====
-- What `vfs_write_file` writes to a file, `vfs_read_file` reads.
use zeros_i.Base.{
  ℕ, ◌+◌, ◌*◌, ◌≤◌, ◌<◌, ◌≡◌, refl, sym, subst, ap, ◌∙◌, true, false, Option, none, some, List, ltb,
  min, get_or-set, length, length-set, arith, Bool-cases, Option-cases, inl, inr, ◌⊎◌,
}
use zeros_i.Base.Int.{pos}
use zeros_i.Memory.{word}
use zeros_i.Mm.{Mm, page_size, mm_alloc_pages}
use zeros_i.Mm.Bitmap.{IsBytes}
use zeros_i.Mm.Runs.{IsBitmap}
use zeros_i.Mm.Alloc.{allocated}
use zeros_i.Vfs.{Vfs, blank_node, node_at, set_node, vfs_lookup, vfs_file_max, err_nospc}
use zeros_i.Vfs.Tree.{write_node, reserve, free_content, pages_for, put, vfs_write_file}
use zeros_i.Vfs.Files.{read_file_here}
use zeros_i.Vfs.SameTree.{SameTree, same_lookup, set_node-SameTree, get_bytes-put_bytes}

-- After the allocation, paths lead where they led, and the node has an address for `n` bytes.
record Reserved (v v' : Vfs) (i n : ℕ) : Type 0 where
  tree : SameTree v v'
  nodes_len : length v'.nodes ≡ length v.nodes
  fits : (node_at v' i).content + n ≤ word

-- A node whose contents do not run past the end of memory, in a table that has it.
pub record HasNode (v : Vfs) (i : ℕ) : Type 0 where
  pub within : i < length v.nodes
  pub bitmap : IsBitmap v.pages.page_bitmap
  pub bounded : (node_at v i).content + (node_at v i).cap ≤ word

module _ (n i : ℕ) (v : Vfs) (h : HasNode v i) where
  moved : ℕ → Mm → Vfs
  moved a mm =
      set_node i (record (node_at v i) { content = a; cap = pages_for n * page_size })
        (record v { pages = free_content (node_at v i) (pages_for (node_at v i).cap) mm })

  moved-Reserved :
      (a : ℕ) (mm : Mm)
      → 0 < n
      → mm_alloc_pages (pages_for n) v.pages ≡ (some a, mm)
      → Reserved v (moved a mm) i n
  unfolding moved
  moved-Reserved a mm some_page e =
      let (r, at, run, low, marks, bitmap) =
        allocated v.pages mm (pages_for n) a h.bitmap (omega arith) e in
      let v1 = record v { pages = free_content (node_at v i) (pages_for (node_at v i).cap) mm } in
      let n' = record (node_at v i) { content = a; cap = pages_for n * page_size } in
      let t : SameTree v1 (set_node i n' v1) = set_node-SameTree v1 i n' h.within refl refl refl in
      let here : node_at (set_node i n' v1) i ≡ n' =
        ground (arith, h.within, get_or-set v.nodes i i n' blank_node) in
      record {
        tree = record {
          same_root = t.same_root;
          same_name = t.same_name;
          same_kind = t.same_kind;
          same_children = t.same_children;
        };
        nodes_len = length-set v.nodes i n';
        fits = rw here (omega (arith, at, run.within));
      }

  reserve_stay : ltb (node_at v i).cap n ≡ false → reserve n i v ≡ some v
  unfolding reserve
  reserve_stay e = rw (reserve, e) refl

  reserve_null :
      ltb (node_at v i).cap n ≡ true
      → (mm_alloc_pages (pages_for n) v.pages).0 ≡ none
      → reserve n i v ≡ none
  unfolding reserve
  reserve_null e null = rw (reserve, e, null) refl

  reserve_move :
      (a : ℕ)
      → ltb (node_at v i).cap n ≡ true
      → (mm_alloc_pages (pages_for n) v.pages).0 ≡ some a
      → reserve n i v ≡ some (moved a (mm_alloc_pages (pages_for n) v.pages).1)
  unfolding moved reserve free_content
  reserve_move a e some_a = rw (reserve, e, some_a) refl

  reserve-Reserved : (v' : Vfs) → reserve n i v ≡ some v' → Reserved v v' i n
  reserve-Reserved v' e = elim (Bool-cases (ltb (node_at v i).cap n)) [
    | inr enough ↦
        subst (λ w. Reserved v w i n) (ap (unwrap v) (sym (reserve_stay enough) ∙ e))
          (record {
            tree = record {
              same_root = refl;
              same_name = λ j. refl;
              same_kind = λ j. refl;
              same_children = λ j. refl;
            };
            nodes_len = refl;
            fits = ground (arith, h.bounded);
          })
    | inl short ↦ elim (Option-cases (mm_alloc_pages (pages_for n) v.pages).0) [
      | inl null ↦ absurd (ground (arith, reserve_null short null, e))
      | inr (a, some_a) ↦
          subst (λ w. Reserved v w i n) (ap (unwrap v) (sym (reserve_move a short some_a) ∙ e))
            (moved-Reserved a (mm_alloc_pages (pages_for n) v.pages).1 (ground arith)
              (ap (λ o. (o, (mm_alloc_pages (pages_for n) v.pages).1)) some_a))
    ]
  ]
    where
      unwrap : Vfs → Option Vfs → Vfs
      unwrap d none = d
      unwrap d (some w) = w

-- The state after a write that succeeds, from the one with room for it.
abbrev filled : Vfs → ℕ → List ℕ → Vfs
filled v i bytes =
    set_node i (record (node_at v i) { node_size = length bytes })
      (put (node_at v i).content bytes v)

filled-SameTree :
    (v : Vfs) (i : ℕ) (bytes : List ℕ) → i < length v.nodes → SameTree v (filled v i bytes)
filled-SameTree v i bytes lt =
    let t =
      set_node-SameTree (put (node_at v i).content bytes v) i
        (record (node_at v i) { node_size = length bytes }) lt refl refl refl in
    record {
      same_root = t.same_root;
      same_name = t.same_name;
      same_kind = t.same_kind;
      same_children = t.same_children;
    }

filled_node :
    (v : Vfs) (i : ℕ) (bytes : List ℕ)
    → i < length v.nodes
    → node_at (filled v i bytes) i ≡ record (node_at v i) { node_size = length bytes }
filled_node v i bytes lt = ground (
  arith,
  lt,
  get_or-set v.nodes i i (record (node_at v i) { node_size = length bytes }) blank_node,
)

SameTree-trans : {u v w : Vfs} → SameTree u v → SameTree v w → SameTree u w
SameTree-trans s t = record {
  same_root = t.same_root ∙ s.same_root;
  same_name = λ j. t.same_name j ∙ s.same_name j;
  same_kind = λ j. t.same_kind j ∙ s.same_kind j;
  same_children = λ j. t.same_children j ∙ s.same_children j;
}

module _ (path bytes : List ℕ) (i buflen : ℕ) (v : Vfs) where
  write_here_ok :
      (v' : Vfs)
      → vfs_lookup v path ≡ some i
      → (node_at v i).is_dir ≡ false
      → length bytes ≤ vfs_file_max
      → reserve (length bytes) i v ≡ some v'
      → vfs_write_file path bytes v ≡ (pos 0, filled v' i bytes)
  unfolding vfs_write_file write_node
  write_here_ok v' at file small room =
      let fits : ltb vfs_file_max (length bytes) ≡ false = ground arith in
      rw (vfs_write_file, at, write_node, file, fits, room) refl

  write_no_room :
      vfs_lookup v path ≡ some i
      → (node_at v i).is_dir ≡ false
      → length bytes ≤ vfs_file_max
      → reserve (length bytes) i v ≡ none
      → vfs_write_file path bytes v ≡ (err_nospc, v)
  unfolding vfs_write_file write_node
  write_no_room at file small null =
      let fits : ltb vfs_file_max (length bytes) ≡ false = ground arith in
      rw (vfs_write_file, at, write_node, file, fits, null) refl

  read_back :
      (v' : Vfs)
      → vfs_lookup v path ≡ some i
      → HasNode v i
      → (node_at v i).is_dir ≡ false
      → Reserved v v' i (length bytes)
      → IsBytes bytes
      → length bytes ≤ buflen
      → read_file_here path buflen (filled v' i bytes) ≡ (pos (length bytes), bytes)
  unfolding read_file_here
  read_back v' at h file r ok room =
      let lt : i < length v'.nodes = omega (arith, h.within, r.nodes_len) in
      let t = SameTree-trans r.tree (filled-SameTree v' i bytes lt) in
      let found : vfs_lookup (filled v' i bytes) path ≡ some i = same_lookup t path ∙ at in
      let here = filled_node v' i bytes lt in
      let kind : (node_at v' i).is_dir ≡ false = r.tree.same_kind i ∙ file in
      let all : min (length bytes) buflen ≡ length bytes = omega arith in
      rw (read_file_here, found, here, kind, all)
        (ap (λ got. (pos (length bytes), got))
          (get_bytes-put_bytes bytes v'.pages.mem (node_at v' i).content ok r.fits))

  -- Take a path that leads to a file in the table of nodes, with contents within memory and a
  -- bitmap of the declared size. Writing at most VFS_FILE_MAX bytes to it succeeds or finds no
  -- room. If it succeeds, reading the path into a buffer that is as long gives exactly the bytes,
  -- and every path leads where it led.
  pub read-write_file :
      vfs_lookup v path ≡ some i
      → HasNode v i
      → (node_at v i).is_dir ≡ false
      → IsBytes bytes
      → length bytes ≤ vfs_file_max
      → length bytes ≤ buflen
      → let (r, v') = vfs_write_file path bytes v in
        (r ≡ err_nospc)
        ⊎ ((r ≡ pos 0)
            × (read_file_here path buflen v' ≡ (pos (length bytes), bytes))
            × ((q : List ℕ) → vfs_lookup v' q ≡ vfs_lookup v q))
  read-write_file at h file ok small room = elim (Option-cases (reserve (length bytes) i v)) [
    | inl null ↦ inl (ap (λ r. r.0) (write_no_room at file small null))
    | inr (v', some_v) ↦
        let r = reserve-Reserved (length bytes) i v h v' some_v in
        let t =
          SameTree-trans r.tree
            (filled-SameTree v' i bytes (omega (arith, h.within, r.nodes_len))) in
        rw (write_here_ok v' at file small some_v)
          (inr (refl, read_back v' at h file r ok room, λ q. same_lookup t q))
  ]
