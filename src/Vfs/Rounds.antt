-- ===== src/Vfs/Rounds.antt =====
-- The loops over a path end, and fuel for each of its bytes is enough for them.
use zeros_i.Base.{
  ℕ, zero, suc, ◌-◌, ◌≤◌, ◌≡◌, ◌≢◌, refl, true, false, ap, Option, none, some, List, [], ◌∷◌, ltb,
  ◌==◌, length, arith, Bool-cases, Option-cases, inl, inr,
}
use zeros_i.Vfs.{
  Vfs, vfs_name_max, take_part, skip_slashes, skip_slash, push_part, parts_from, walk, find_child,
  node_at,
}

length-skip_slashes : (s : List ℕ) → length (skip_slashes s) ≤ length s
unfolding skip_slashes
length-skip_slashes [] = omega arith
length-skip_slashes (c ∷ s) = ground (arith, length-skip_slashes s)

take_part_shortens : (room : ℕ) (s : List ℕ) → length (take_part room s).1 ≤ length s
unfolding take_part
take_part_shortens zero s = omega arith
take_part_shortens (suc room) [] = omega arith
take_part_shortens (suc room) (c ∷ s) = ground (arith, take_part_shortens room s)

-- What a round of `vfs_normalize` leaves is shorter.
pub round_shortens :
    (room c : ℕ) (s : List ℕ) → length (skip_slashes (take_part (suc room) (c ∷ s)).1) ≤ length s
unfolding take_part skip_slashes
round_shortens room c s = elim (Bool-cases (c == b'/')) [
  | inl slash ↦ rw (slash, slash) (length-skip_slashes s)
  | inr other ↦
      let rest = (take_part room s).1 in
      rw other (omega (arith, length-skip_slashes rest, take_part_shortens room s))
]

-- A run of the loop of `vfs_normalize`, on no fuel, from the rest of a path and the parts so far to the
-- parts at its end: each round takes a component and the slashes after it, and the loop leaves by its
-- own tests only.
pub data PartsRun : List ℕ → List (List ℕ) → List (List ℕ) → Type 0 where
  path_ends : (parts : List (List ℕ)) → PartsRun [] parts parts
  array_full :
      (s : List ℕ) (parts : List (List ℕ)) → ltb (length parts) 32 ≡ false → PartsRun s parts parts
  component :
      (c : ℕ) (s : List ℕ) (parts result : List (List ℕ))
      → ltb (length parts) 32 ≡ true
      → PartsRun
          (skip_slashes (take_part (vfs_name_max - 1) (c ∷ s)).1)
          (push_part (take_part (vfs_name_max - 1) (c ∷ s)).0 parts)
          result
      → PartsRun (c ∷ s) parts result

-- The loop of `vfs_normalize` ends, on every path: with fuel for each byte of the path, what comes back
-- is what a run of the loop, which has no fuel, comes to.
pub parts_from-PartsRun :
    (fuel : ℕ) (s : List ℕ) (parts : List (List ℕ))
    → length s ≤ fuel
    → PartsRun s parts (parts_from fuel s parts)
unfolding parts_from
parts_from-PartsRun zero [] parts h = path_ends parts
parts_from-PartsRun zero (c ∷ s) parts h = absurd (omega arith)
parts_from-PartsRun (suc fuel) [] parts h = path_ends parts
parts_from-PartsRun (suc fuel) (c ∷ s) parts h =
    let (part, rest) = take_part (vfs_name_max - 1) (c ∷ s) in
    let shorter : length (skip_slashes rest) ≤ length s = round_shortens 46 c s in
    elim (Bool-cases (ltb (length parts) 32)) [
      | inr full ↦ rw full (array_full (c ∷ s) parts full)
      | inl room ↦ rw room (
          component c s parts _ room
            (parts_from-PartsRun fuel (skip_slashes rest) (push_part part parts) (omega arith)))
    ]

-- What a round of `vfs_lookup` leaves is shorter.
step_shortens :
    (room c : ℕ) (s : List ℕ) → length (skip_slash (take_part (suc room) (c ∷ s)).1) ≤ length s
unfolding take_part
step_shortens room c s = elim (Bool-cases (c == b'/')) [
  | inl slash ↦ rw (slash, slash) (omega arith)
  | inr other ↦
      let rest = (take_part room s).1 in
      rw other (omega (arith, length-skip_slash rest, take_part_shortens room s))
]
  where
    length-skip_slash : (s : List ℕ) → length (skip_slash s) ≤ length s
    length-skip_slash [] = omega arith
    length-skip_slash (c ∷ s) = ground arith

-- A run of the loop of `vfs_lookup`, on no fuel, from the rest of a path and the node so far to what it
-- returns.
pub data WalkRun (v : Vfs) : List ℕ → ℕ → Option ℕ → Type 0 where
  arrives : (cur : ℕ) → WalkRun v [] cur (some cur)
  passes :
      (c : ℕ) (s : List ℕ) (cur : ℕ) (result : Option ℕ)
      → (take_part (vfs_name_max - 1) (c ∷ s)).0 ≡ []
      → WalkRun v (skip_slash (take_part (vfs_name_max - 1) (c ∷ s)).1) cur result
      → WalkRun v (c ∷ s) cur result
  meets_file :
      (c : ℕ) (s : List ℕ) (cur : ℕ)
      → (take_part (vfs_name_max - 1) (c ∷ s)).0 ≢ []
      → (node_at v cur).is_dir ≡ false
      → WalkRun v (c ∷ s) cur none
  misses :
      (c : ℕ) (s : List ℕ) (cur : ℕ)
      → (take_part (vfs_name_max - 1) (c ∷ s)).0 ≢ []
      → (node_at v cur).is_dir ≡ true
      → find_child v cur (take_part (vfs_name_max - 1) (c ∷ s)).0 ≡ none
      → WalkRun v (c ∷ s) cur none
  enters :
      (c : ℕ) (s : List ℕ) (cur i : ℕ) (result : Option ℕ)
      → (take_part (vfs_name_max - 1) (c ∷ s)).0 ≢ []
      → (node_at v cur).is_dir ≡ true
      → find_child v cur (take_part (vfs_name_max - 1) (c ∷ s)).0 ≡ some i
      → WalkRun v (skip_slash (take_part (vfs_name_max - 1) (c ∷ s)).1) i result
      → WalkRun v (c ∷ s) cur result

empty_part : (part : List ℕ) → length part == 0 ≡ true → part ≡ []
empty_part [] e = refl
empty_part (c ∷ part) e = absurd (ground arith)

some_part : (part : List ℕ) → length part == 0 ≡ false → part ≢ []
some_part part e z = absurd (ground (arith, ap length z))

-- The loop of `vfs_lookup` ends, on every path: with fuel for each byte of the path, what comes back is
-- what a run of the loop, which has no fuel, comes to.
pub walk-WalkRun :
    (v : Vfs) (fuel : ℕ) (s : List ℕ) (cur : ℕ)
    → length s ≤ fuel
    → WalkRun v s cur (walk fuel v s cur)
unfolding walk
walk-WalkRun v zero [] cur h = arrives cur
walk-WalkRun v zero (c ∷ s) cur h = absurd (omega arith)
walk-WalkRun v (suc fuel) [] cur h = arrives cur
walk-WalkRun v (suc fuel) (c ∷ s) cur h =
    let (part, rest) = take_part (vfs_name_max - 1) (c ∷ s) in
    let shorter : length (skip_slash rest) ≤ length s = step_shortens 46 c s in
    elim (Bool-cases (length part == 0)) [
      | inl empty ↦ rw empty (
          passes c s cur _ (empty_part part empty)
            (walk-WalkRun v fuel (skip_slash rest) cur (omega arith)))
      | inr named ↦ elim (Bool-cases (node_at v cur).is_dir) [
        | inr file ↦ rw (named, file) (meets_file c s cur (some_part part named) file)
        | inl dir ↦ elim (Option-cases (find_child v cur part)) [
          | inl miss ↦ rw (named, dir, miss) (misses c s cur (some_part part named) dir miss)
          | inr (i, hit) ↦
              rw (named, dir, hit)
                (enters c s cur i _ (some_part part named) dir hit
                  (walk-WalkRun v fuel (skip_slash rest) i (omega arith)))
        ]
      ]
    ]
