-- ===== src/Vfs/Paths.antt =====
-- What `vfs_normalize` leaves of a path.
use zeros_i.Base.{
  ℕ, zero, suc, ◌+◌, ◌-◌, ◌≤◌, ◌<◌, ◌≡◌, refl, false, ◌||◌, List, [], ◌∷◌, ◌++◌, ltb, ◌==◌, length,
  arith, Bool-cases, inl, inr,
}
use zeros_i.Vfs.{vfs_name_max, strings_equal, take_part, skip_slashes, push_part, parts_from}

-- No byte is a slash.
abbrev pub NoSlash : List ℕ → Type 0
NoSlash [] = Unit
NoSlash (c ∷ s) = ((c == b'/') ≡ false) × NoSlash s

-- A component that names something: not empty, not `.` or `..`, and within its buffer.
pub record IsName (part : List ℕ) : Type 0 where
  pub some_byte : 0 < length part
  pub no_slash : NoSlash part
  pub no_dot : strings_equal part (b'.' ∷ []) ≡ false
  pub no_dot_dot : strings_equal part (b'.' ∷ b'.' ∷ []) ≡ false
  pub short : length part < vfs_name_max

abbrev pub AllNames : List (List ℕ) → Type 0
AllNames [] = Unit
AllNames (p ∷ parts) = IsName p × AllNames parts

take_part-NoSlash : (room : ℕ) (s : List ℕ) → NoSlash (take_part room s).0
unfolding take_part
take_part-NoSlash zero s = tt
take_part-NoSlash (suc room) [] = tt
take_part-NoSlash (suc room) (c ∷ s) = elim (Bool-cases (c == b'/')) [
  | inl slash ↦ rw slash tt
  | inr other ↦ rw other (other, take_part-NoSlash room s)
]

length-take_part : (room : ℕ) (s : List ℕ) → length (take_part room s).0 ≤ room
unfolding take_part
length-take_part zero s = omega arith
length-take_part (suc room) [] = omega arith
length-take_part (suc room) (c ∷ s) = ground (arith, length-take_part room s)

push_part-AllNames :
    (part : List ℕ) (parts : List (List ℕ))
    → NoSlash part
    → length part < vfs_name_max
    → AllNames parts
    → AllNames (push_part part parts)
unfolding push_part
push_part-AllNames part parts clean short names =
    elim (Bool-cases ((length part == 0) || strings_equal part (b'.' ∷ []))) [
      | inl skipped ↦ rw skipped names
      | inr named ↦ elim (Bool-cases (strings_equal part (b'.' ∷ b'.' ∷ []))) [
        | inl up ↦ rw (named, up) (below parts names)
        | inr down ↦
            rw (named, down)
              (
                record {
                  some_byte = ground arith;
                  no_slash = clean;
                  no_dot = ground arith;
                  no_dot_dot = down;
                  short = short;
                },
                names,
              )
      ]
    ]
  where
    below :
        (parts : List (List ℕ))
        → AllNames parts
        → AllNames (elim parts [ [] ↦ [] | p ∷ parts ↦ parts ])
    below [] h = tt
    below (p ∷ parts) h = h.1

pub length-push_part :
    (part : List ℕ) (parts : List (List ℕ)) → length (push_part part parts) ≤ length parts + 1
unfolding push_part
length-push_part part [] = ground arith
length-push_part part (p ∷ parts) = ground arith

-- The stack holds names only, and no more than its array.
pub parts_from-AllNames :
    (fuel : ℕ) (s : List ℕ) (parts : List (List ℕ))
    → AllNames parts
    → length parts ≤ 32
    → AllNames (parts_from fuel s parts) × (length (parts_from fuel s parts) ≤ 32)
unfolding parts_from
parts_from-AllNames zero s parts names fits = (names, fits)
parts_from-AllNames (suc fuel) [] parts names fits = (names, fits)
parts_from-AllNames (suc fuel) (c ∷ s) parts names fits =
    let (part, rest) = take_part (vfs_name_max - 1) (c ∷ s) in
    elim (Bool-cases (ltb (length parts) 32)) [
      | inr full ↦ rw full (names, fits)
      | inl room ↦ rw room (
          parts_from-AllNames fuel (skip_slashes rest) (push_part part parts)
            (push_part-AllNames part parts (take_part-NoSlash (vfs_name_max - 1) (c ∷ s))
              (omega (arith, length-take_part (vfs_name_max - 1) (c ∷ s))) names)
            (ground (arith, length-push_part part parts)))
    ]

-- A path in full, and the same without its first slash.
abbrev pub spelled : List (List ℕ) → List ℕ
spelled [] = []
spelled (p ∷ parts) = b'/' ∷ (p ++ spelled parts)

abbrev pub relative : List (List ℕ) → List ℕ
relative [] = []
relative (p ∷ parts) = p ++ spelled parts

pub take_part-name :
    (p : List ℕ) (room : ℕ) (parts : List (List ℕ))
    → NoSlash p
    → length p ≤ room
    → take_part room (p ++ spelled parts) ≡ (p, spelled parts)
unfolding take_part
take_part-name [] zero parts clean fits = refl
take_part-name [] (suc room) [] clean fits = refl
take_part-name [] (suc room) (q ∷ parts) clean fits = refl
take_part-name (c ∷ p) zero parts clean fits = absurd (omega arith)
take_part-name (c ∷ p) (suc room) parts clean fits =
    rw (clean.0, take_part-name p room parts clean.1 (omega arith)) refl

pub skip_slashes-spelled :
    (parts : List (List ℕ)) → AllNames parts → skip_slashes (spelled parts) ≡ relative parts
unfolding skip_slashes
skip_slashes-spelled [] names = refl
skip_slashes-spelled ([] ∷ parts) names = absurd (omega (arith, names.0.some_byte))
skip_slashes-spelled ((c ∷ p) ∷ parts) names = rw names.0.no_slash.0 refl

pub push_part-name : (p : List ℕ) (parts : List (List ℕ)) → IsName p → push_part p parts ≡ p ∷ parts
unfolding push_part
push_part-name p parts h = ground (arith, h.some_byte, h.no_dot, h.no_dot_dot)
