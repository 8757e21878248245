-- ===== src/Mm/Runs.antt =====
-- The loops of the page allocator: what a found run is, and the bits after marking and clearing.
use zeros_i.Base.{
  ℕ, zero, suc, ◌+◌, ◌/◌, ◌≤◌, ◌<◌, ◌≡◌, Bool, true, false, ◌&&◌, Option, none, some, List, ltb,
  leb, ◌==◌, ==_iff, if◌then◌else◌, length, arith, Bool-cases, inl, inr,
}
use zeros_i.Mm.{page_count, bitmap_get, bitmap_set, run_from, find_run, mark_run, clear_run}
use zeros_i.Mm.Bitmap.{IsBytes, bitmap_get-set, bitmap_set-IsBytes, length-bitmap_set}

-- The array has the bytes that its declaration gives it.
pub record IsBitmap (bm : List ℕ) : Type 0 where
  pub bytes : IsBytes bm
  pub size : length bm ≡ page_count / 8 + 1

pub bitmap_set-IsBitmap :
    (bm : List ℕ) (i : ℕ) (v : Bool) → IsBitmap bm → IsBitmap (bitmap_set bm i v)
bitmap_set-IsBitmap bm i v h = record {
  bytes = bitmap_set-IsBytes bm i v h.bytes;
  size = omega (arith, length-bitmap_set bm i v, h.size);
}

-- `n` free pages from `i` on, all within the first `hi`.
pub record IsRun (bm : List ℕ) (hi i n : ℕ) : Type 0 where
  pub within : i + n ≤ hi
  pub free : (t : ℕ) → t < n → bitmap_get bm (i + t) ≡ false

abbrev pub inside : ℕ → ℕ → ℕ → Bool
inside i n j = leb i j && ltb j (i + n)

module _ (bm : List ℕ) (n : ℕ) where
  pub run_from_full :
      (k j run : ℕ)
      → run ≤ n
      → run_from bm n k j run ≡ n
      → (n ≤ run + k) × ((t : ℕ) → run + t < n → bitmap_get bm (j + t) ≡ false)
  unfolding run_from
  run_from_full zero j run h e = (omega arith, λ t lt. absurd (omega arith))
  run_from_full (suc k) j run h e = elim (Bool-cases (ltb run n)) [
    | inr stop ↦ (ground arith, λ t lt. absurd (ground arith))
    | inl go ↦ elim (Bool-cases (bitmap_get bm j)) [
      | inl used ↦ absurd (ground arith)
      | inr unused ↦
          let rest = run_from_full k (j + 1) (run + 1) (ground arith) (ground arith) in
          (omega (arith, rest.0), λ t. split rest.1 unused t)
    ]
  ]
    where
      split :
          ((t : ℕ) → run + 1 + t < n → bitmap_get bm (j + 1 + t) ≡ false)
          → bitmap_get bm j ≡ false
          → (t : ℕ) → run + t < n
          → bitmap_get bm (j + t) ≡ false
      split rest unused zero lt = ground arith
      split rest unused (suc t) lt = ground (arith, rest t (omega arith))

  pub full_run_from :
      (k j run : ℕ)
      → run ≤ n
      → n ≤ run + k
      → ((t : ℕ) → run + t < n → bitmap_get bm (j + t) ≡ false)
      → run_from bm n k j run ≡ n
  unfolding run_from
  full_run_from zero j run h r f = omega arith
  full_run_from (suc k) j run h r f = elim (Bool-cases (ltb run n)) [
    | inr stop ↦ ground arith
    | inl go ↦
        let unused : bitmap_get bm j ≡ false = ground (arith, f 0 (ground arith)) in
        let rest : run_from bm n k (j + 1) (run + 1) ≡ n =
          full_run_from k (j + 1) (run + 1) (ground arith) (ground arith)
            (λ t lt. ground (arith, f (1 + t) (omega arith))) in
        ground arith
  ]

  -- The page that the search returns starts a run, and no run starts between `i` and it.
  abbrev pub Finds : ℕ → ℕ → Option ℕ → Type 0
  Finds hi i none = (r : ℕ) → i ≤ r → ¬ IsRun bm hi r n
  Finds hi i (some p) = (i ≤ p) × IsRun bm hi p n × ((r : ℕ) → i ≤ r → r < p → ¬ IsRun bm hi r n)

  later-Finds : (hi i : ℕ) (o : Option ℕ) → ¬ IsRun bm hi i n → Finds hi (i + 1) o → Finds hi i o
  later-Finds hi i none no_run f = λ r h run. elim (Bool-cases (r == i)) [
    | inl e ↦ no_run (let e' : i ≡ r = ground arith in rw e' run)
    | inr ne ↦ f r (ground arith) run
  ]
  later-Finds hi i (some p) no_run f = (
    omega (arith, f.0),
    f.1,
    λ r h lt run. elim (Bool-cases (r == i)) [
      | inl e ↦ no_run (let e' : i ≡ r = ground arith in rw e' run)
      | inr ne ↦ f.2 r (ground arith) lt run
    ],
  )

  pub find_run-Finds : (k i hi : ℕ) → 0 < n → i + k ≡ hi → Finds hi i (find_run bm n k i)
  unfolding find_run
  find_run-Finds zero i hi pos e = λ r h run. omega (arith, run.within)
  find_run-Finds (suc k) i hi pos e = elim (Bool-cases (bitmap_get bm i)) [
    | inl used ↦ rw used (
        later-Finds hi i (find_run bm n k (i + 1)) (λ run. ground (arith, run.free 0 pos))
          (find_run-Finds k (i + 1) hi pos (omega arith)))
    | inr unused ↦ elim (Bool-cases (run_from bm n (suc k) i 0 == n)) [
      | inl full ↦
          let found = run_from_full (suc k) i 0 (omega arith) ((==_iff _ n).0 full) in
          rw (unused, full)
            (
              omega arith,
              record { within = omega (arith, found.0); free = λ t lt. found.1 t (omega arith) },
              λ r h lt. absurd (omega arith),
            )
      | inr short ↦
          rw (unused, short)
            (later-Finds hi i (find_run bm n k (i + 1))
              (λ run. ground (
                arith,
                full_run_from (suc k) i 0 (omega arith) (omega (arith, run.within))
                    (λ t lt. run.free t (omega arith)),
              ))
              (find_run-Finds k (i + 1) hi pos (omega arith)))
    ]
  ]

pub bitmap_get-mark_run :
    (n : ℕ) (bm : List ℕ) (i j : ℕ)
    → IsBitmap bm
    → i + n ≤ page_count
    → bitmap_get (mark_run bm i n) j ≡ (if inside i n j then true else bitmap_get bm j)
unfolding mark_run
bitmap_get-mark_run zero bm i j h w = ground arith
bitmap_get-mark_run (suc n) bm i j h w = ground (
  arith,
  bitmap_get-mark_run n (bitmap_set bm i true) (i + 1) j (bitmap_set-IsBitmap bm i true h),
  bitmap_get-set bm i j true h.bytes,
  h.size,
)

pub bitmap_get-clear_run :
    (n : ℕ) (bm : List ℕ) (i j : ℕ)
    → IsBitmap bm
    → bitmap_get (clear_run bm i n) j
      ≡ (if inside i n j && ltb j page_count then false else bitmap_get bm j)
unfolding clear_run
bitmap_get-clear_run zero bm i j h = ground arith
bitmap_get-clear_run (suc n) bm i j h = ground (
  arith,
  bitmap_get-clear_run n (bitmap_set bm i false) (i + 1) j (bitmap_set-IsBitmap bm i false h),
  bitmap_get-set bm i j false h.bytes,
  h.size,
)

pub mark_run-IsBitmap : (n : ℕ) (bm : List ℕ) (i : ℕ) → IsBitmap bm → IsBitmap (mark_run bm i n)
unfolding mark_run
mark_run-IsBitmap zero bm i h = h
mark_run-IsBitmap (suc n) bm i h =
    mark_run-IsBitmap n (bitmap_set bm i true) (i + 1) (bitmap_set-IsBitmap bm i true h)

pub clear_run-IsBitmap : (n : ℕ) (bm : List ℕ) (i : ℕ) → IsBitmap bm → IsBitmap (clear_run bm i n)
unfolding clear_run
clear_run-IsBitmap zero bm i h = h
clear_run-IsBitmap (suc n) bm i h = elim (Bool-cases (ltb i page_count)) [
  | inl more ↦
      rw more
        (clear_run-IsBitmap n (bitmap_set bm i false) (i + 1) (bitmap_set-IsBitmap bm i false h))
  | inr done ↦ rw done h
]
