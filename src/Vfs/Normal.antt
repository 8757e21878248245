-- ===== src/Vfs/Normal.antt =====
-- `vfs_normalize` gives each path its normal form, which it leaves as it is.
use zeros_i.Base.{
  ℕ, zero, suc, ◌+◌, ◌-◌, ◌≤◌, ◌<◌, ◌≡◌, refl, sym, ap, ◌∙◌, true, false, List, [], ◌∷◌, ◌++◌, ltb,
  leb, drop, length, length-append, arith,
}
use mathlib.Core.List.{append-nil}
use zeros_i.Str.{kstrlen}
use zeros_i.Str.Compare.{kstrlen-eq-length}
use zeros_i.Vfs.{
  vfs_name_max, parts_from, join_from, reversed, slash_path, after_root, joined, vfs_normalize,
}
use zeros_i.Vfs.Components.{components, comes_down, AllShort, push_all_lem, parts_from-push_all}
use zeros_i.Vfs.Paths.{
  AllNames, parts_from-AllNames, spelled, relative, take_part-name, skip_slashes-spelled,
  push_part-name,
}

reversed-reversed :
    (ps xs ys : List (List ℕ)) → reversed (reversed ps xs) ys ≡ reversed xs (ps ++ ys)
reversed-reversed [] xs ys = refl
reversed-reversed (p ∷ ps) xs ys = reversed-reversed ps (p ∷ xs) ys

length-reversed : (ps xs : List (List ℕ)) → length (reversed ps xs) ≡ length ps + length xs
length-reversed [] xs = omega arith
length-reversed (p ∷ ps) xs = omega (arith, length-reversed ps (p ∷ xs))

reversed-AllNames : (ps xs : List (List ℕ)) → AllNames ps → AllNames xs → AllNames (reversed ps xs)
reversed-AllNames [] xs h h' = h'
reversed-AllNames (p ∷ ps) xs h h' = reversed-AllNames ps (p ∷ xs) h.1 (h.0, h')

-- Reading the names of a path in full back puts them on the stack.
parts_from-relative :
    (ps : List (List ℕ)) (fuel : ℕ) (stack : List (List ℕ))
    → AllNames ps
    → length (relative ps) ≤ fuel
    → length stack + length ps ≤ 32
    → parts_from fuel (relative ps) stack ≡ reversed ps stack
unfolding parts_from
parts_from-relative [] zero stack names enough fits = refl
parts_from-relative [] (suc fuel) stack names enough fits = refl
parts_from-relative ([] ∷ ps) fuel stack names enough fits =
    absurd (omega (arith, names.0.some_byte))
parts_from-relative ((c ∷ p) ∷ ps) zero stack names enough fits = absurd (omega arith)
parts_from-relative ((c ∷ p) ∷ ps) (suc fuel) stack names enough fits =
    let room : ltb (length stack) 32 ≡ true = ground arith in
    let part =
      take_part-name (c ∷ p) (vfs_name_max - 1) ps names.0.no_slash
        (omega (arith, names.0.short)) in
    let less : length (relative ps) ≤ fuel =
      omega (arith, shorter ps, length-append p (spelled ps)) in
    rw (room, part, skip_slashes-spelled ps names.1, push_part-name (c ∷ p) stack names.0)
      (parts_from-relative ps fuel ((c ∷ p) ∷ stack) names.1 less (omega arith))
  where
    shorter : (ps : List (List ℕ)) → length (relative ps) ≤ length (spelled ps)
    shorter [] = omega arith
    shorter (q ∷ ps) = omega arith

-- With room for all of it, the names are written out in full.
join_from-spelled :
    (n j : ℕ) (ps : List (List ℕ)) → j + length (spelled ps) < n → join_from n j ps ≡ spelled ps
unfolding join_from
join_from-spelled n j [] room = refl
join_from-spelled n j (p ∷ ps) room =
    let len = length-append p (spelled ps) in
    let starts : ltb (j + 1) n ≡ true = ground (arith, len) in
    let fits : leb n (j + 1 + kstrlen p) ≡ false = ground (arith, len, kstrlen-eq-length p) in
    rw
      (
        starts,
        fits,
        join_from-spelled n (j + 1 + kstrlen p) ps (omega (arith, len, kstrlen-eq-length p)),
      )
      refl

-- The names of a path, in order.
abbrev pub names_of : List ℕ → List (List ℕ)
names_of s = reversed (parts_from (length s) (after_root s) []) []

-- A path that consists of at least one and at most 32 names, and that fits the buffer, is its own
-- normal form.
pub vfs_normalize-spelled :
    (n : ℕ) (p : List ℕ) (ps : List (List ℕ))
    → AllNames (p ∷ ps)
    → length (p ∷ ps) ≤ 32
    → length (spelled (p ∷ ps)) < n
    → vfs_normalize n (spelled (p ∷ ps)) ≡ spelled (p ∷ ps)
unfolding vfs_normalize
vfs_normalize-spelled n p ps names few room =
    let parsed : parts_from (length (spelled (p ∷ ps))) (relative (p ∷ ps)) []
        ≡ reversed (p ∷ ps) [] =
      parts_from-relative (p ∷ ps) (length (spelled (p ∷ ps))) [] names (omega arith)
        (omega arith) in
    ap (joined n) parsed ∙ written n (p ∷ ps) (omega arith) room
  where
    joined_some :
        (n : ℕ) (qs : List (List ℕ)) → 0 < length qs → joined n qs ≡ join_from n 0 (reversed qs [])
    joined_some n [] h = absurd (omega arith)
    joined_some n (q ∷ qs) h = refl

    written :
        (n : ℕ) (qs : List (List ℕ))
        → 0 < length qs
        → length (spelled qs) < n
        → joined n (reversed qs []) ≡ spelled qs
    written n qs h room =
        joined_some n (reversed qs []) (omega (arith, length-reversed qs []))
        ∙ (rw (reversed-reversed qs [] [], append-nil) (join_from-spelled n 0 qs (omega arith)))

-- The path in full, where it has no name at all included.
abbrev pub in_full : List (List ℕ) → List ℕ
in_full [] = slash_path
in_full (p ∷ ps) = spelled (p ∷ ps)

normal_in_full :
    (n : ℕ) (ps : List (List ℕ))
    → AllNames ps
    → length ps ≤ 32
    → length (spelled ps) < n
    → vfs_normalize n (in_full ps) ≡ in_full ps
unfolding vfs_normalize parts_from
normal_in_full n [] names few room = refl
normal_in_full n (p ∷ ps) names few room = vfs_normalize-spelled n p ps names few room

joined-in_full :
    (n : ℕ) (stack : List (List ℕ))
    → length (spelled (reversed stack [])) < n
    → joined n stack ≡ in_full (reversed stack [])
joined-in_full n [] room = refl
joined-in_full n (p ∷ stack) room =
    join_from-spelled n 0 (reversed (p ∷ stack) []) (omega arith)
    ∙ sym (full_some (reversed (p ∷ stack) []) (omega (arith, length-reversed (p ∷ stack) [])))
  where
    full_some : (qs : List (List ℕ)) → 0 < length qs → in_full qs ≡ spelled qs
    full_some [] h = absurd (omega arith)
    full_some (q ∷ qs) h = refl

length-after_root : (s : List ℕ) → length (after_root s) ≤ length s
length-after_root [] = omega arith
length-after_root (c ∷ s) = ground arith

drop-nil : (k : ℕ) → drop {A = List ℕ} k [] ≡ []
drop-nil zero = refl
drop-nil (suc k) = refl

-- The loop leaves the names that the path comes down to.
names_of-eq-comes_down :
    (s : List ℕ)
    → AllShort (components (after_root s))
    → length (components (after_root s)) ≤ 32
    → names_of s ≡ comes_down s
names_of-eq-comes_down s short few =
    let parts = components (after_root s) in
    let stack =
      parts_from-push_all (length s) (after_root s) [] (length-after_root s) short
        (omega (arith, few))
      ∙ push_all_lem parts [] in
    ap (λ t. reversed t []) stack
    ∙ (rw drop-nil (reversed-reversed (comes_down s) [] [] ∙ append-nil (comes_down s)))

-- Take a path of at most 32 components, each shorter than its buffer, and a buffer with room for the
-- names that the path comes down to: those that are left when, read from the end, each `..` takes away
-- the last name before it that is not taken away yet. The path is normalised to these names, each
-- after a slash, or to a single slash for none. Each of them is short enough, has no slash and is not
-- empty, `.` or `..`. Normalising again changes nothing.
pub vfs_normalize_lem :
    (n : ℕ) (s : List ℕ)
    → AllShort (components (after_root s))
    → length (components (after_root s)) ≤ 32
    → length (spelled (comes_down s)) < n
    → AllNames (comes_down s)
      × (vfs_normalize n s ≡ in_full (comes_down s))
      × (vfs_normalize n (vfs_normalize n s) ≡ vfs_normalize n s)
unfolding vfs_normalize
vfs_normalize_lem n s short few room =
    let stack = parts_from (length s) (after_root s) [] in
    let same = names_of-eq-comes_down s short few in
    let (names, full) = parts_from-AllNames (length s) (after_root s) [] tt (omega arith) in
    let names' = reversed-AllNames stack [] names tt in
    let few' : length (names_of s) ≤ 32 = omega (arith, full, length-reversed stack []) in
    let room' : length (spelled (names_of s)) < n = rw same room in
    let shape = joined-in_full n stack room' in
    (
      rw (← same) names',
      shape ∙ ap in_full same,
      ap (vfs_normalize n) shape ∙ normal_in_full n (names_of s) names' few' room' ∙ sym shape,
    )
