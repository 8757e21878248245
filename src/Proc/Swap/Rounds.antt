-- ===== src/Proc/Swap/Rounds.antt =====
-- The rounds of the loop in `proc_evict_range`: what each leaves for the later ones.
use zeros_i.Base.{
  ℕ, suc, ◌+◌, ◌*◌, ◌≤◌, ◌<◌, ◌≡◌, true, false, ◌==◌, set, get_or-set, length, length-set, ◌⊎◌, inl,
  inr, arith, Bool-cases, if◌then◌else◌, ◌∙◌,
}
use zeros_i.Memory.{word}
use zeros_i.Mm.{Mm, page_size, heap_end}
use zeros_i.Mm.Runs.{IsBitmap}
use zeros_i.Proc.{Proc, proc_at, proc_max, cleared}
use zeros_i.Proc.Kill.{Sys}
use zeros_i.Proc.Swap.{must_move}
use zeros_i.Proc.Swap.Held.{Held, Evicted}

-- The images that have to move lie above the heap; memory holds bytes; the bitmap is whole.
pub record IsReady (lo hi : ℕ) (s : Sys) : Type 0 where
  pub len : length s.procs ≡ proc_max
  pub bitmap : IsBitmap s.mm.page_bitmap
  pub bytes : (x : ℕ) → s.mm.mem x < 256
  pub images :
      (j : ℕ)
      → must_move lo hi (proc_at s.procs j) ≡ true
      → (heap_end ≤ (proc_at s.procs j).image)
        × ((proc_at s.procs j).image + (proc_at s.procs j).image_pages * page_size < word)

-- A process that had nothing to move is as it was; the image of any other one is where its shadow
-- field says, byte for byte, in pages that are in use.
abbrev pub Outcome : ℕ → ℕ → Proc → Proc → Mm → Mm → Type 0
Outcome lo hi p p' m m' =
    ((must_move lo hi p ≡ false) × (p' ≡ p))
    ⊎ ((shadow : ℕ) × (must_move lo hi p ≡ true)
        × (p' ≡ record p { image_shadow = shadow; image_evicted = true })
        × ((t : ℕ)
            → t < p.image_pages * page_size
            → Held m' (shadow + t) × (m'.mem (shadow + t) ≡ m.mem (p.image + t))))

-- What the rounds from `i` on have done.
pub record Evicts (lo hi i k : ℕ) (s s' : Sys) : Type 0 where
  pub each :
      (j : ℕ)
      → i ≤ j
      → j < i + k
      → Outcome lo hi (proc_at s.procs j) (proc_at s'.procs j) s.mm s'.mm
  pub rest : (j : ℕ) → j < i → proc_at s'.procs j ≡ proc_at s.procs j
  pub kept : (x : ℕ) → Held s.mm x → Held s'.mm x × (s'.mm.mem x ≡ s.mm.mem x)
  pub outside : (x : ℕ) → heap_end ≤ x → s'.mm.mem x ≡ s.mm.mem x

pub skip-Evicts :
    (lo hi i k : ℕ) (s s' : Sys)
    → must_move lo hi (proc_at s.procs i) ≡ false
    → Evicts lo hi (i + 1) k s s'
    → Evicts lo hi i (suc k) s s'
skip-Evicts lo hi i k s s' stays e = record {
  each = λ j le lt. elim (Bool-cases (i == j)) [
    | inl same ↦ let at : i ≡ j = ground arith in rw (← at) (inl (stays, e.rest i (omega arith)))
    | inr other ↦ e.each j (ground arith) (omega arith)
  ];
  rest = λ j lt. e.rest j (omega arith);
  kept = e.kept;
  outside = e.outside;
}

-- Memory above the heap is the same, so what an image held is too.
later-Outcome :
    (lo hi : ℕ) (p p' : Proc) (m m1 m' : Mm)
    → (must_move lo hi p ≡ true → heap_end ≤ p.image)
    → ((x : ℕ) → heap_end ≤ x → m1.mem x ≡ m.mem x)
    → Outcome lo hi p p' m1 m'
    → Outcome lo hi p p' m m'
later-Outcome lo hi p p' m m1 m' high same (inl stays) = inl stays
later-Outcome lo hi p p' m m1 m' high same (inr (shadow, moves, e, saved)) = inr (
  shadow,
  moves,
  e,
  λ t lt.
      let (held, value) = saved t lt in
      (held, value ∙ same (p.image + t) (omega (arith, high moves))),
)

module _ (lo hi i : ℕ) (s s1 : Sys) (shadow : ℕ) (r : IsReady lo hi s) (lt : i < proc_max)
    (moves : must_move lo hi (proc_at s.procs i) ≡ true)
    (procs1 : s1.procs
      ≡ set s.procs i (record (proc_at s.procs i) { image_shadow = shadow; image_evicted = true }))
    (moved : Evicted (proc_at s.procs i) s.mm s1.mm shadow) where
  pub at1 :
      (j : ℕ)
      → proc_at s1.procs j ≡ (
          if i == j
          then record (proc_at s.procs i) { image_shadow = shadow; image_evicted = true }
          else proc_at s.procs j)
  at1 j = rw procs1 (
      get_or-set s.procs i j
        (record (proc_at s.procs i) { image_shadow = shadow; image_evicted = true }) cleared
        (omega (arith, r.len)))

  pub ready1 : IsReady lo hi s1
  ready1 = record {
    len = rw procs1 (length-set s.procs i _ ∙ r.len);
    bitmap = moved.bitmap;
    bytes = moved.bytes;
    images = λ j m. elim (Bool-cases (i == j)) [
      | inl same ↦ absurd (ground (arith, at1 j))
      | inr other ↦
          let e : proc_at s1.procs j ≡ proc_at s.procs j = ground (arith, at1 j) in
          rw e (r.images j (rw e at m))
    ];
  }

  pub go-Evicts : (k : ℕ) (s' : Sys) → Evicts lo hi (i + 1) k s1 s' → Evicts lo hi i (suc k) s s'
  go-Evicts k s' e = record {
    each = λ j le lt'. elim (Bool-cases (i == j)) [
      | inl same ↦
          let at : i ≡ j = ground arith in
          let e1 : proc_at s1.procs i
              ≡ record (proc_at s.procs i) { image_shadow = shadow; image_evicted = true } =
            ground (arith, at1 i) in
          rw (← at) (
            inr (
              shadow,
              moves,
              e.rest i (omega arith) ∙ e1,
              λ t small.
                  let (held, value) = e.kept (shadow + t) (moved.fresh t small) in
                  (held, value ∙ moved.copy t small),
            ))
      | inr other ↦
          let e1 : proc_at s1.procs j ≡ proc_at s.procs j = ground (arith, at1 j) in
          later-Outcome lo hi (proc_at s.procs j) (proc_at s'.procs j) s.mm s1.mm s'.mm
            (λ m. (r.images j m).0) moved.outside (rw e1 at (e.each j (ground arith) (omega arith)))
    ];
    rest = λ j lt'.
        let e1 : proc_at s1.procs j ≡ proc_at s.procs j = ground (arith, at1 j) in
        e.rest j (omega arith) ∙ e1;
    kept = λ x held.
        let (held1, value1) = moved.kept x held in
        let (held2, value2) = e.kept x held1 in (held2, value2 ∙ value1);
    outside = λ x far. e.outside x far ∙ moved.outside x far;
  }
