-- ===== src/Tests/Paths.antt =====
-- Runs of kernel/fs/vfs.c: a root with one file, which a descriptor has open.
use zeros_i.Base.{
  ℕ, ◌≤◌, ◌≡◌, ◌⊎◌, refl, true, false, some, List, [], ◌∷◌, ◌++◌, replicate, length, arith,
}
use zeros_i.Base.Int.{pos}
use zeros_i.Str.{kstrcmp, kstrlen}
use zeros_i.Mm.{mm_init}
use zeros_i.Mm.Alloc.{mm_init-IsBitmap}
use zeros_i.Vfs.{
  after_root, VfsNode, Vfs, blank_node, closed_fd, node_at, open_at, slash_path, take_part,
  skip_slashes, push_part, parts_from, join_from, vfs_normalize, child_from, find_child, walk,
  vfs_lookup, vfs_path_max, err_nospc,
}
use zeros_i.Vfs.Tree.{unlink_here, unlink_node, vfs_write_file}
use zeros_i.Vfs.Files.{read_file_here}
use zeros_i.Vfs.Paths.{AllNames}
use zeros_i.Vfs.Normal.{in_full, vfs_normalize_lem}
use zeros_i.Vfs.Rounds.{PartsRun, parts_from-PartsRun, WalkRun, walk-WalkRun}
use zeros_i.Vfs.Components.{components, left_of, comes_down, AllShort}
use zeros_i.Vfs.Dangling.{vfs_unlink_dangles}
use zeros_i.Vfs.RoundTrip.{read-write_file}

-- "/x/../a"
abbrev detour : List ℕ
detour = 47 ∷ 120 ∷ 47 ∷ 46 ∷ 46 ∷ 47 ∷ 97 ∷ []

detour_names : comes_down detour ≡ (97 ∷ []) ∷ []
unfolding left_of components kstrcmp
detour_names = refl

detour_short :
    AllShort (components (after_root detour)) × (length (components (after_root detour)) ≤ 32)
unfolding components
detour_short = ((omega arith, (omega arith, (omega arith, tt))), omega arith)

vfs_normalize_lem_example :
    AllNames (comes_down detour)
    × (vfs_normalize vfs_path_max detour ≡ in_full (comes_down detour))
    × (vfs_normalize vfs_path_max (vfs_normalize vfs_path_max detour)
        ≡ vfs_normalize vfs_path_max detour)
vfs_normalize_lem_example =
    vfs_normalize_lem vfs_path_max detour detour_short.0 detour_short.1
      (rw detour_names (omega arith))

abbrev file : VfsNode
file = record blank_node { node_name = 97 ∷ []; parent = some 0; node_used = true }

abbrev tree : Vfs
tree = record {
  nodes =
      record blank_node {
        node_name = slash_path;
        is_dir = true;
        node_used = true;
        children = 1 ∷ [];
      }
      ∷ file
      ∷ replicate 6 blank_node;
  opens =
      replicate 3 closed_fd
      ++ (record { open_used = true; node = 1; position = 0; open_flags = 3 }
          ∷ replicate 4 closed_fd);
  root = 0;
  pages = mm_init (λ x. 0);
}

-- "/a"
abbrev a_path : List ℕ
a_path = 47 ∷ 97 ∷ []

a_found : vfs_lookup tree a_path ≡ some 1
unfolding vfs_lookup vfs_normalize join_from walk find_child child_from parts_from take_part
    skip_slashes push_part kstrcmp kstrlen
a_found = refl

a_unlinked : (unlink_here a_path tree).0 ≡ pos 0
unfolding unlink_here unlink_node kstrcmp
a_unlinked = rw (unlink_here, a_found) refl

vfs_unlink_dangles_example :
    let v' = (unlink_here a_path tree).1 in
    ((open_at v' 3).open_used ≡ true)
    × ((open_at v' 3).node ≡ 1)
    × ((node_at v' 1).node_used ≡ false)
vfs_unlink_dangles_example =
    vfs_unlink_dangles tree a_path 1 3 a_found (omega arith) refl refl a_unlinked

read-write_file_example :
    let (r, v') = vfs_write_file a_path detour tree in
    (r ≡ err_nospc)
    ⊎ ((r ≡ pos 0)
        × (read_file_here a_path 100 v' ≡ (pos 7, detour))
        × ((q : List ℕ) → vfs_lookup v' q ≡ vfs_lookup tree q))
read-write_file_example =
    read-write_file a_path detour 1 100 tree a_found
      (record { within = omega arith; bitmap = mm_init-IsBitmap (λ x. 0); bounded = omega arith })
      refl (ground arith) (omega arith) (omega arith)

parts_from-PartsRun_example : PartsRun detour [] (parts_from 7 detour [])
parts_from-PartsRun_example = parts_from-PartsRun 7 detour [] (omega arith)

walk-WalkRun_example : WalkRun tree a_path 0 (walk 2 tree a_path 0)
walk-WalkRun_example = walk-WalkRun tree 2 a_path 0 (omega arith)
