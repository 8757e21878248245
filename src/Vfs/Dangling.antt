-- ===== src/Vfs/Dangling.antt =====
-- `vfs_unlink` does not look at the descriptors.
use zeros_i.Base.{
  ℕ, ◌<◌, ◌≡◌, refl, true, false, some, List, get_or-set, length, length-set, arith, Bool-cases,
  Option-cases, inl, inr, not, ◌&&◌, ◌==◌,
}
use zeros_i.Base.Int.{pos}
use zeros_i.Vfs.{Vfs, blank_node, node_at, open_at, set_node, vfs_lookup}
use zeros_i.Vfs.Tree.{remove_node, is_mount, unlink_node, unlink_here, without}

-- The node is marked as free, and the descriptors are as they were.
removed :
    (v : Vfs) (i p : ℕ)
    → i < length v.nodes
    → ((node_at (remove_node i p v) i).node_used ≡ false) × ((remove_node i p v).opens ≡ v.opens)
unfolding remove_node
removed v i p lt =
    let n = record (node_at v p) { children = without i (node_at v p).children } in
    let v' = set_node p n v in
    (
      ground (
        arith,
        lt,
        length-set v.nodes p n,
        get_or-set v'.nodes i i (record (node_at v' i) { node_used = false }) blank_node,
      ),
      refl,
    )

-- The two ways in which `unlink_node` ends.
unlink_cases :
    (v : Vfs) (i : ℕ)
    → (unlink_node i v).0 ≡ pos 0
    → (p : ℕ) × ((unlink_node i v) ≡ (pos 0, remove_node i p v))
unfolding unlink_node
unlink_cases v i done = elim (Bool-cases (i == v.root)) [
  | inl top ↦ absurd (ground (arith, top))
  | inr below ↦ elim (Bool-cases (is_mount v i)) [
    | inl mount ↦ absurd (ground (arith, below, mount))
    | inr plain ↦
        elim (Bool-cases ((node_at v i).is_dir && not (length (node_at v i).children == 0))) [
          | inl full ↦ absurd (ground (arith, below, plain, full))
          | inr empty ↦ elim (Option-cases (node_at v i).parent) [
            | inl orphan ↦ absurd (ground (arith, below, plain, empty, orphan))
            | inr (p, has) ↦ (p, rw (below, plain, empty, has) refl)
          ]
        ]
  ]
]

-- Where a path leads to a node in the table and unlinking it succeeds, a descriptor that was open
-- on the node stays open on it, and the node is free: the next node that is made may take its
-- place.
pub vfs_unlink_dangles :
    (v : Vfs) (path : List ℕ) (i fd : ℕ)
    → vfs_lookup v path ≡ some i
    → i < length v.nodes
    → (open_at v fd).open_used ≡ true
    → (open_at v fd).node ≡ i
    → (unlink_here path v).0 ≡ pos 0
    → let v' = (unlink_here path v).1 in
      ((open_at v' fd).open_used ≡ true)
      × ((open_at v' fd).node ≡ i)
      × ((node_at v' i).node_used ≡ false)
unfolding unlink_here
vfs_unlink_dangles v path i fd at lt busy on done =
    let (p, e) = unlink_cases v i (rw (unlink_here, at) at done) in
    let (freed, same) = removed v i p lt in rw (unlink_here, at, e, same) (busy, on, freed)
