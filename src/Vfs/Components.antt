-- ===== src/Vfs/Components.antt =====
-- What a path comes down to, read from its end, and the stack of `vfs_normalize`.
use zeros_i.Base.{
  ℕ, zero, suc, ◌+◌, ◌-◌, ◌≤◌, ◌<◌, ◌≡◌, refl, sym, subst, ap, ◌∙◌, true, false, ◌||◌, List, [],
  ◌∷◌, ltb, ◌==◌, if◌then◌else◌, length, drop, arith, Bool-cases, inl, inr, ◌⊎◌,
}
use zeros_i.Vfs.{
  vfs_name_max, strings_equal, dot, dot_dot, pop, reversed, after_root, take_part, skip_slashes,
  push_part, parts_from,
}
use zeros_i.Vfs.Paths.{length-push_part}
use zeros_i.Vfs.Rounds.{round_shortens}

-- A component with one byte more in front.
abbrev longer : ℕ → List (List ℕ) → List (List ℕ)
longer c [] = (c ∷ []) ∷ []
longer c (p ∷ parts) = (c ∷ p) ∷ parts

-- What stands between the slashes of a path.
unfoldable pub components : List ℕ → List (List ℕ)
components [] = [] ∷ []
components (c ∷ s) = let rest = components s in if c == b'/' then [] ∷ rest else longer c rest

-- A name is left unless a `..` after it takes it away.
abbrev with_name : ℕ → List ℕ → List (List ℕ) → ℕ × List (List ℕ)
with_name up p names = if up == 0 then (0, p ∷ names) else (up - 1, names)

-- The names that are left of the components, with how many more the `..` among them take away.
unfoldable pub left_of : List (List ℕ) → ℕ × List (List ℕ)
left_of [] = (0, [])
left_of (p ∷ parts) =
    let (up, names) = left_of parts in
    if (length p == 0) || strings_equal p dot
    then (up, names)
    else if strings_equal p dot_dot
    then (up + 1, names)
    else with_name up p names

-- The names that a path comes down to: a `..` takes the last name away that is left before it, if
-- there is one.
abbrev pub comes_down : List ℕ → List (List ℕ)
comes_down s = (left_of (components (after_root s))).1

-- Each component fits its buffer.
abbrev pub AllShort : List (List ℕ) → Type 0
AllShort [] = Unit
AllShort (p ∷ parts) = (length p < vfs_name_max) × AllShort parts

pub push_all : List (List ℕ) → List (List ℕ) → List (List ℕ)
push_all [] stack = stack
push_all (p ∷ parts) stack = push_all parts (push_part p stack)

drop-pop : (k : ℕ) (stack : List (List ℕ)) → drop k (pop stack) ≡ drop (k + 1) stack
drop-pop k [] = nothing k ∙ sym (nothing (k + 1))
  where
    nothing : (k : ℕ) → drop {A = List ℕ} k [] ≡ []
    nothing zero = refl
    nothing (suc k) = refl
drop-pop k (p ∷ stack) = let e : k + 1 ≡ suc k = omega arith in rw e refl

-- A name goes on the stack, and one of the next `..` may take it away.
push_name :
    (up : ℕ) (p : List ℕ) (names stack : List (List ℕ))
    → reversed names (drop up (p ∷ stack))
      ≡ reversed (with_name up p names).1 (drop (with_name up p names).0 stack)
push_name zero p names stack = refl
push_name (suc up) p names stack =
    let e : suc up - 1 ≡ up = omega arith in
    let z : suc up == 0 ≡ false = ground arith in rw (z, e) refl

pub push_all_lem :
    (parts stack : List (List ℕ))
    → push_all parts stack ≡ reversed (left_of parts).1 (drop (left_of parts).0 stack)
unfolding push_all left_of push_part
push_all_lem [] stack = refl
push_all_lem (p ∷ parts) stack = elim (Bool-cases ((length p == 0) || strings_equal p dot)) [
  | inl nothing ↦ rw nothing (push_all_lem parts stack)
  | inr named ↦ elim (Bool-cases (strings_equal p dot_dot)) [
    | inl up ↦
        rw (named, up)
          (push_all_lem parts (pop stack)
            ∙ ap (reversed (left_of parts).1) (drop-pop (left_of parts).0 stack))
    | inr down ↦
        rw (named, down)
          (push_all_lem parts (p ∷ stack) ∙ push_name (left_of parts).0 p (left_of parts).1 stack)
  ]
]

-- What a round takes of a path whose first component is short.
Cut : List ℕ → List ℕ × List ℕ → Type 0
Cut s (part, rest) =
    ((rest ≡ []) × (components s ≡ part ∷ []))
    ⊎ ((r : List ℕ) × (rest ≡ b'/' ∷ r) × (components s ≡ part ∷ components r))

longer-Cut :
    (c : ℕ) (s part rest : List ℕ)
    → (c == b'/') ≡ false
    → Cut s (part, rest)
    → Cut (c ∷ s) (c ∷ part, rest)
unfolding Cut components
longer-Cut c s part rest other (inl (e, at)) = inl (e, rw (other, at) refl)
longer-Cut c s part rest other (inr (r, e, at)) = inr (r, e, rw (other, at) refl)

-- The length of the first component.
first_len : List (List ℕ) → ℕ
first_len [] = 0
first_len (p ∷ parts) = length p

longer_len : (c : ℕ) (parts : List (List ℕ)) → first_len (longer c parts) ≡ suc (first_len parts)
unfolding first_len
longer_len c [] = refl
longer_len c (p ∷ parts) = refl

take_part-Cut :
    (room : ℕ) (s : List ℕ) → first_len (components s) < room + 1 → Cut s (take_part room s)
unfolding take_part components Cut
take_part-Cut zero [] h = inl (refl, refl)
take_part-Cut (suc room) [] h = inl (refl, refl)
take_part-Cut zero (c ∷ s) h = elim (Bool-cases (c == b'/')) [
  | inl slash ↦ let e : c ≡ b'/' = ground arith in inr (s, ap (λ k. k ∷ s) e, rw slash refl)
  | inr other ↦ absurd (ground (arith, longer_len c (components s), rw other at h))
]
take_part-Cut (suc room) (c ∷ s) h = elim (Bool-cases (c == b'/')) [
  | inl slash ↦ let e : c ≡ b'/' = ground arith in rw slash (inr (s, ap (λ k. k ∷ s) e, refl))
  | inr other ↦
      let h' : suc (first_len (components s)) < suc room + 1 =
        rw (← longer_len c (components s)) (rw other at h) in
      let (part, rest) = take_part room s in
      let taken : take_part (suc room) (c ∷ s) ≡ (c ∷ part, rest) = rw (take_part, other) refl in
      subst (Cut (c ∷ s)) (sym taken)
        (longer-Cut c s part rest other (take_part-Cut room s (omega (arith, h'))))
]

-- Slashes at the start make no difference.
record Skips (s : List ℕ) : Type 0 where
  same :
      (stack : List (List ℕ))
      → push_all (components (skip_slashes s)) stack ≡ push_all (components s) stack
  short : AllShort (components s) → AllShort (components (skip_slashes s))
  fewer : length (components (skip_slashes s)) ≤ length (components s)

keeps-Skips : (s : List ℕ) → skip_slashes s ≡ s → Skips s
keeps-Skips s e = record {
  same = λ stack. rw e refl;
  short = λ h. rw e h;
  fewer = rw e (omega arith);
}

skip_slashes-Skips : (s : List ℕ) → Skips s
unfolding skip_slashes components push_all push_part
skip_slashes-Skips [] = record { same = λ stack. refl; short = λ h. h; fewer = omega arith }
skip_slashes-Skips (c ∷ s) =
    let ih = skip_slashes-Skips s in
    elim (Bool-cases (c == b'/')) [
      | inl slash ↦ record {
        same = λ stack. rw slash (ih.same stack);
        short = λ h. rw slash (ih.short (rw slash at h).1);
        fewer = rw slash (omega (arith, ih.fewer));
      }
      | inr other ↦ keeps-Skips (c ∷ s) (rw other refl)
    ]

parts_from-nil : (fuel : ℕ) (stack : List (List ℕ)) → parts_from fuel [] stack ≡ stack
unfolding parts_from
parts_from-nil zero stack = refl
parts_from-nil (suc fuel) stack = refl

first_short : (parts : List (List ℕ)) → AllShort parts → first_len parts < vfs_name_max
unfolding first_len
first_short [] h = omega arith
first_short (p ∷ parts) h = h.0

some_component : (s : List ℕ) → 0 < length (components s)
unfolding components
some_component [] = omega arith
some_component (c ∷ s) = elim (Bool-cases (c == b'/')) [
  | inl slash ↦ rw slash (omega arith)
  | inr other ↦ rw other (some_longer c (components s))
]
  where
    some_longer : (c : ℕ) (parts : List (List ℕ)) → 0 < length (longer c parts)
    some_longer c [] = omega arith
    some_longer c (p ∷ parts) = omega arith

-- On components that fit, the loop of `vfs_normalize` is a fold over them.
pub parts_from-push_all :
    (fuel : ℕ) (s : List ℕ) (stack : List (List ℕ))
    → length s ≤ fuel
    → AllShort (components s)
    → length stack + length (components s) ≤ 32
    → parts_from fuel s stack ≡ push_all (components s) stack
unfolding push_all Cut components push_part parts_from skip_slashes
parts_from-push_all fuel [] stack enough short few = parts_from-nil fuel stack
parts_from-push_all zero (c ∷ s) stack enough short few = absurd (omega arith)
parts_from-push_all (suc fuel) (c ∷ s) stack enough short few =
    let (part, rest) = take_part (vfs_name_max - 1) (c ∷ s) in
    let some_part = some_component (c ∷ s) in
    let room : ltb (length stack) 32 ≡ true = ground (arith, some_part, few) in
    let stepped : parts_from (suc fuel) (c ∷ s) stack
        ≡ parts_from fuel (skip_slashes rest) (push_part part stack) =
      rw (parts_from, room) refl in
    elim (take_part-Cut (vfs_name_max - 1) (c ∷ s) (first_short (components (c ∷ s)) short)) [
      | inl (e, at) ↦ stepped ∙ (rw (e, at) (parts_from-nil fuel (push_part part stack)))
      | inr (r, e, at) ↦
          let skips = skip_slashes-Skips r in
          let shorter = round_shortens 46 c s in
          let skipped : skip_slashes rest ≡ skip_slashes r = rw e refl in
          let pushed = length-push_part part stack in
          let below : length stack + suc (length (components r)) ≤ 32 = rw at at few in
          stepped
          ∙ (rw (skipped, at)
              (parts_from-push_all fuel (skip_slashes r) (push_part part stack)
                  (omega (arith, shorter, ap length skipped, enough))
                  (skips.short (rw at at short).1) (omega (arith, skips.fewer, pushed, below))
                ∙ skips.same (push_part part stack)))
    ]
