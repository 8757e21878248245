-- ===== src/Vfs/SameTree.antt =====
-- Lookups do not see the contents of nodes; a block of bytes that is stored can be loaded again.
use zeros_i.Base.{
  ℕ, zero, suc, ◌+◌, ◌-◌, ◌%◌, ◌≤◌, ◌<◌, ◌≡◌, ◌≢◌, refl, ap, ◌∙◌, not, ◌==◌, Option, none, some,
  List, [], ◌∷◌, get_or-set, drop, length, arith, if◌then◌else◌,
}
use zeros_i.Memory.{word, Mem, store, load, put_bytes, get_bytes}
use zeros_i.Mm.Bitmap.{IsBytes}
use zeros_i.Vfs.{
  Vfs, VfsNode, blank_node, node_at, set_node, strings_equal, slash_path, take_part, skip_slash,
  vfs_name_max, child_from, find_child, walk, vfs_path_max, vfs_normalize, vfs_lookup,
}

-- Two states in which every path leads to the same node.
pub record SameTree (v v' : Vfs) : Type 0 where
  pub same_root : v'.root ≡ v.root
  pub same_name : (j : ℕ) → (node_at v' j).node_name ≡ (node_at v j).node_name
  pub same_kind : (j : ℕ) → (node_at v' j).is_dir ≡ (node_at v j).is_dir
  pub same_children : (j : ℕ) → (node_at v' j).children ≡ (node_at v j).children

module _ {v v' : Vfs} (t : SameTree v v') where
  same_child_from :
      (children name : List ℕ) → child_from v' children name ≡ child_from v children name
  unfolding child_from
  same_child_from [] name = refl
  same_child_from (i ∷ children) name = rw (t.same_name i, same_child_from children name) refl

  same_find_child : (dir : ℕ) (name : List ℕ) → find_child v' dir name ≡ find_child v dir name
  unfolding find_child
  same_find_child dir name = rw t.same_children (same_child_from (node_at v dir).children name)

  same_walk : (fuel : ℕ) (s : List ℕ) (cur : ℕ) → walk fuel v' s cur ≡ walk fuel v s cur
  unfolding walk
  same_walk zero s cur = refl
  same_walk (suc fuel) [] cur = refl
  same_walk (suc fuel) (c ∷ s) cur =
      let rest = skip_slash (take_part (vfs_name_max - 1) (c ∷ s)).1 in
      rw (t.same_kind cur, same_find_child, same_walk fuel rest cur)
        (ap
          (λ r.
            if length (take_part (vfs_name_max - 1) (c ∷ s)).0 == 0
            then walk fuel v rest cur
            else if not (node_at v cur).is_dir
            then none
            else r)
          (next rest (find_child v cur (take_part (vfs_name_max - 1) (c ∷ s)).0)
            (λ i. same_walk fuel rest i)))
    where
      next :
          (rest : List ℕ) (o : Option ℕ)
          → ((i : ℕ) → walk fuel v' rest i ≡ walk fuel v rest i)
          → (elim o [ none ↦ none | some i ↦ walk fuel v' rest i ])
            ≡ (elim o [ none ↦ none | some i ↦ walk fuel v rest i ])
      next rest none ih = refl
      next rest (some i) ih = ih i

  pub same_lookup : (path : List ℕ) → vfs_lookup v' path ≡ vfs_lookup v path
  unfolding vfs_lookup
  same_lookup path =
      let norm = vfs_normalize vfs_path_max path in
      let w : walk (length norm) v' (drop 1 norm) v'.root
          ≡ walk (length norm) v (drop 1 norm) v.root =
        same_walk (length norm) (drop 1 norm) v'.root
        ∙ ap (walk (length norm) v (drop 1 norm)) t.same_root in
      ap
        (λ r.
          if strings_equal norm slash_path
          then some r
          else walk (length norm) v' (drop 1 norm) v'.root)
        t.same_root
      ∙ ap (λ r. if strings_equal norm slash_path then some v.root else r) w

-- A node is rewritten, with what a path sees of it kept.
pub set_node-SameTree :
    (v : Vfs) (i : ℕ) (n : VfsNode)
    → i < length v.nodes
    → n.node_name ≡ (node_at v i).node_name
    → n.is_dir ≡ (node_at v i).is_dir
    → n.children ≡ (node_at v i).children
    → SameTree v (set_node i n v)
set_node-SameTree v i n lt e e' e'' = record {
  same_root = refl;
  same_name = λ j. ground (arith, get_or-set v.nodes i j n blank_node lt);
  same_kind = λ j. ground (arith, get_or-set v.nodes i j n blank_node lt);
  same_children = λ j. ground (arith, get_or-set v.nodes i j n blank_node lt);
}

load-store : (m : Mem) (a b x : ℕ) → x < word → a < word → x ≢ a → store m a b x ≡ m x
load-store m a b x lt lt' ne = ground (arith, lt, lt', ne)

put_bytes_below :
    (bytes : List ℕ) (m : Mem) (a x : ℕ)
    → a + length bytes ≤ word
    → x < a
    → put_bytes m a bytes x ≡ m x
put_bytes_below [] m a x fits lt = refl
put_bytes_below (b ∷ bytes) m a x fits lt =
    put_bytes_below bytes (store m a b) (a + 1) x (omega arith) (omega arith)
    ∙ load-store m a b x (omega arith) (omega arith) (omega arith)

-- A block that was stored is read back.
pub get_bytes-put_bytes :
    (bytes : List ℕ) (m : Mem) (a : ℕ)
    → IsBytes bytes
    → a + length bytes ≤ word
    → get_bytes (put_bytes m a bytes) a (length bytes) ≡ bytes
get_bytes-put_bytes [] m a ok fits = refl
get_bytes-put_bytes (b ∷ bytes) m a ok fits =
    let here : load (put_bytes (store m a b) (a + 1) bytes) a ≡ b =
      first (put_bytes_below bytes (store m a b) (a + 1) a (omega arith) (omega arith)) in
    rw here (ap (λ r. b ∷ r) (get_bytes-put_bytes bytes (store m a b) (a + 1) ok.1 (omega arith)))
  where
    first :
        put_bytes (store m a b) (a + 1) bytes a ≡ store m a b a
        → load (put_bytes (store m a b) (a + 1) bytes) a ≡ b
    first e = let small : a % word ≡ a = omega arith in rw (small, e) (ground (arith, ok.0, small))
