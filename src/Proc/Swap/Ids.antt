-- ===== src/Proc/Swap/Ids.antt =====
-- Swapping images in and out leaves every process in its slot, with its pid and its parent.
use zeros_i.Base.{
  ℕ, zero, suc, ◌+◌, ◌≡◌, refl, ◌∙◌, Bool, not, ◌||◌, ◌==◌, Option, none, some, List, [], ◌∷◌, set,
  length, length-set, Bool-cases, Option-cases, inl, inr,
}
use zeros_i.Mm.{mm_alloc_pages}
use zeros_i.Proc.{Proc, proc_at, proc_max}
use zeros_i.Proc.Kill.{Sys}
use zeros_i.Proc.Swap.{
  must_move, must_yield, evict, no_shadow, evict_from, proc_evict_range, yield_from, restore,
  proc_ensure_resident,
}

abbrev pub ident : Proc → Bool × ℕ × ℕ
ident p = (p.used, p.pid, p.ppid)

pub record SameIds (a b : List Proc) : Type 0 where
  pub len : length b ≡ length a
  pub same : (j : ℕ) → ident (proc_at b j) ≡ ident (proc_at a j)

pub SameIds-refl : (a : List Proc) → SameIds a a
SameIds-refl a = record { len = refl; same = λ j. refl }

pub SameIds-trans : {a b c : List Proc} → SameIds a b → SameIds b c → SameIds a c
SameIds-trans p q = record { len = q.len ∙ p.len; same = λ j. q.same j ∙ p.same j }

ident-set :
    (a : List Proc) (i j : ℕ) (p : Proc)
    → ident p ≡ ident (proc_at a i)
    → ident (proc_at (set a i p) j) ≡ ident (proc_at a j)
ident-set [] i j p e = refl
ident-set (q ∷ a) zero zero p e = e
ident-set (q ∷ a) zero (suc j) p e = refl
ident-set (q ∷ a) (suc i) zero p e = refl
ident-set (q ∷ a) (suc i) (suc j) p e = ident-set a i j p e

pub set-SameIds :
    (a : List Proc) (i : ℕ) (p : Proc) → ident p ≡ ident (proc_at a i) → SameIds a (set a i p)
set-SameIds a i p e = record { len = length-set a i p; same = λ j. ident-set a i j p e }

abbrev IdsOr : List Proc → Option Sys → Type 0
IdsOr a none = Unit
IdsOr a (some s) = SameIds a s.procs

evict-IdsOr : (i : ℕ) (s : Sys) → IdsOr s.procs (evict i s)
unfolding evict
evict-IdsOr i s = elim (Option-cases (mm_alloc_pages (proc_at s.procs i).image_pages s.mm).0) [
  | inl null ↦ rw (evict, null) tt
  | inr (shadow, found) ↦ rw (evict, found) (set-SameIds s.procs i _ refl)
]

evict-SameIds : (i : ℕ) (s s' : Sys) → evict i s ≡ some s' → SameIds s.procs s'.procs
evict-SameIds i s s' e = rw e at (evict-IdsOr i s)

no_shadow-SameIds : (i : ℕ) (s : Sys) → SameIds s.procs (no_shadow i s).procs
unfolding no_shadow
no_shadow-SameIds i s = set-SameIds s.procs i _ refl

evict_from-SameIds : (lo hi k i : ℕ) (s : Sys) → SameIds s.procs (evict_from lo hi k i s).1.procs
unfolding evict_from
evict_from-SameIds lo hi zero i s = SameIds-refl s.procs
evict_from-SameIds lo hi (suc k) i s = elim (Bool-cases (must_move lo hi (proc_at s.procs i))) [
  | inr stays ↦ rw (evict_from, stays) (evict_from-SameIds lo hi k (i + 1) s)
  | inl moves ↦ elim (Option-cases (evict i s)) [
    | inl null ↦ rw (evict_from, moves, null) (no_shadow-SameIds i s)
    | inr (s', done) ↦
        rw (evict_from, moves, done)
          (SameIds-trans (evict-SameIds i s s' done) (evict_from-SameIds lo hi k (i + 1) s'))
  ]
]

pub proc_evict_range-SameIds :
    (lo hi : ℕ) (s : Sys) → SameIds s.procs (proc_evict_range lo hi s).1.procs
unfolding proc_evict_range
proc_evict_range-SameIds lo hi s = evict_from-SameIds lo hi proc_max 0 s

yield_from-SameIds : (p k i : ℕ) (s : Sys) → SameIds s.procs (yield_from p k i s).1.procs
unfolding yield_from
yield_from-SameIds p zero i s = SameIds-refl s.procs
yield_from-SameIds p (suc k) i s = elim (Bool-cases (must_yield p s i)) [
  | inr stays ↦ rw (yield_from, stays) (yield_from-SameIds p k (i + 1) s)
  | inl moves ↦ elim (Option-cases (evict i s)) [
    | inl null ↦ rw (yield_from, moves, null) (no_shadow-SameIds i s)
    | inr (s', done) ↦
        rw (yield_from, moves, done)
          (SameIds-trans (evict-SameIds i s s' done) (yield_from-SameIds p k (i + 1) s'))
  ]
]

restore-SameIds : (p : ℕ) (s : Sys) → SameIds s.procs (restore p s).procs
unfolding restore
restore-SameIds p s = set-SameIds s.procs p _ refl

pub proc_ensure_resident-SameIds :
    (p : ℕ) (s : Sys) → SameIds s.procs (proc_ensure_resident p s).procs
unfolding proc_ensure_resident
proc_ensure_resident-SameIds p s =
    let q = proc_at s.procs p in
    let r = yield_from p proc_max 0 s in
    elim (Bool-cases (
      (q.image == 0) || ((q.image_pages == 0) || (not q.image_evicted || (q.image_shadow == 0))))) [
        | inl nothing ↦ rw (proc_ensure_resident, nothing) (SameIds-refl s.procs)
        | inr needed ↦ elim (Bool-cases r.0) [
          | inl done ↦
              rw (proc_ensure_resident, needed, done)
                (SameIds-trans (yield_from-SameIds p proc_max 0 s) (restore-SameIds p r.1))
          | inr stopped ↦
              rw (proc_ensure_resident, needed, stopped) (yield_from-SameIds p proc_max 0 s)
        ]
      ]
