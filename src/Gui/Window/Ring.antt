-- ===== src/Gui/Window/Ring.antt =====
-- The events of a window, as the list of those that wait.
pub mod Queue
use zeros_i.Base.{
  ℕ, zero, suc, ◌+◌, ◌-◌, ◌%◌, ◌<◌, ◌≤◌, ◌≡◌, refl, subst, ap, ◌∙◌, sym, Bool, true, false, Option,
  none, some, List, [], ◌∷◌, ◌++◌, ◌==◌, if◌then◌else◌, get_or, set, length, get_or-set, length-set,
  set-get_or, length-append, arith, Bool-cases, inl, inr,
}
use zeros_i.Gui.Window.{GuiEvt, GuiWin, gui_evt_max, cleared_evt, find_evt}

-- The cells of `ev` from `i` up to `last`, round the array.
pub waiting_from : List GuiEvt → ℕ → ℕ → ℕ → List GuiEvt
waiting_from ev last zero i = []
waiting_from ev last (suc fuel) i =
    let rest = waiting_from ev last fuel ((i + 1) % gui_evt_max) in
    if i == last then [] else get_or ev i cleared_evt ∷ rest

abbrev pub waiting : GuiWin → List GuiEvt
waiting g = waiting_from g.ev g.ev_w gui_evt_max g.ev_r

pub record IsRing (g : GuiWin) : Type 0 where
  pub cells : length g.ev ≡ gui_evt_max
  pub reads : g.ev_r < gui_evt_max
  pub writes : g.ev_w < gui_evt_max

-- The steps from `i` up to `j`.
abbrev pub steps : ℕ → ℕ → ℕ
steps i j = (j + 16 - i) % 16

-- The first event of a type is replaced.
pub change_first : ℕ → (GuiEvt → GuiEvt) → List GuiEvt → Option (List GuiEvt)
change_first type f [] = none
change_first type f (e ∷ q) =
    if e.evt_type == type
    then some (f e ∷ q)
    else elim (change_first type f q) [ none ↦ none | some q' ↦ some (e ∷ q') ]

waiting_from_stop : (ev : List GuiEvt) (fuel i : ℕ) → waiting_from ev i fuel i ≡ []
unfolding waiting_from
waiting_from_stop ev zero i = refl
waiting_from_stop ev (suc fuel) i = ground arith

module _ (ev : List GuiEvt) (cells : length ev ≡ 16) where
  -- A write to a cell that the walk does not reach.
  pub waiting_from-untouched :
      (k last fuel i : ℕ) (v : GuiEvt)
      → k < 16
      → last < 16
      → i < 16
      → steps i last ≤ steps i k
      → waiting_from (set ev k v) last fuel i ≡ waiting_from ev last fuel i
  unfolding waiting_from
  waiting_from-untouched k last zero i v hk hl hi far = refl
  waiting_from-untouched k last (suc fuel) i v hk hl hi far = elim (Bool-cases (i == last)) [
    | inl stop ↦ rw stop refl
    | inr on ↦
        let same : get_or (set ev k v) i cleared_evt ≡ get_or ev i cleared_evt =
          ground (arith, get_or-set ev k i v cleared_evt) in
        let rest : waiting_from (set ev k v) last fuel ((i + 1) % 16)
            ≡ waiting_from ev last fuel ((i + 1) % 16) =
          waiting_from-untouched k last fuel ((i + 1) % 16) v hk hl (omega arith) (ground arith) in
        rw (on, same, rest) refl
  ]

  -- A found cell lies on the walk.
  pub find_evt-on :
      (type last fuel i k : ℕ)
      → last < 16
      → i < 16
      → find_evt ev type last fuel i ≡ some k
      → (k < 16) × (steps i k < steps i last)
  unfolding find_evt
  find_evt-on type last zero i k hl hi e = absurd (ground arith)
  find_evt-on type last (suc fuel) i k hl hi e = elim (Bool-cases (i == last)) [
    | inl stop ↦ absurd (ground arith)
    | inr on ↦ elim (Bool-cases ((get_or ev i cleared_evt).evt_type == type)) [
      | inl here ↦ ground arith
      | inr there ↦
          let ih = find_evt-on type last fuel ((i + 1) % 16) k hl (omega arith) (ground arith) in
          (ih.0, ground (arith, ih.0, ih.1))
    ]
  ]

  -- A search that fails finds nothing on the walk.
  pub change_first-none :
      (type last fuel i : ℕ) (f : GuiEvt → GuiEvt)
      → find_evt ev type last fuel i ≡ none
      → change_first type f (waiting_from ev last fuel i) ≡ none
  unfolding find_evt waiting_from change_first
  change_first-none type last zero i f e = refl
  change_first-none type last (suc fuel) i f e = elim (Bool-cases (i == last)) [
    | inl stop ↦ rw stop refl
    | inr on ↦ elim (Bool-cases ((get_or ev i cleared_evt).evt_type == type)) [
      | inl here ↦ absurd (ground arith)
      | inr there ↦
          rw (on, there, change_first-none type last fuel ((i + 1) % 16) f (ground arith)) refl
    ]
  ]

  -- One that succeeds names the cell of the first event of its type.
  pub change_first-some :
      (type last fuel i k : ℕ) (f : GuiEvt → GuiEvt)
      → last < 16
      → i < 16
      → find_evt ev type last fuel i ≡ some k
      → change_first type f (waiting_from ev last fuel i)
        ≡ some (waiting_from (set ev k (f (get_or ev k cleared_evt))) last fuel i)
  unfolding find_evt waiting_from change_first
  change_first-some type last zero i k f hl hi e = absurd (ground arith)
  change_first-some type last (suc fuel) i k f hl hi e = elim (Bool-cases (i == last)) [
    | inl stop ↦ absurd (ground arith)
    | inr on ↦ elim (Bool-cases ((get_or ev i cleared_evt).evt_type == type)) [
      | inl here ↦
          let at : i ≡ k = ground arith in
          let new : get_or (set ev i (f (get_or ev i cleared_evt))) i cleared_evt
              ≡ f (get_or ev i cleared_evt) =
            ground (arith, get_or-set ev i i (f (get_or ev i cleared_evt)) cleared_evt) in
          let step : change_first type f (waiting_from ev last (suc fuel) i)
              ≡ some (waiting_from (set ev i (f (get_or ev i cleared_evt))) last (suc fuel) i) =
            rw
              (
                on,
                here,
                new,
                waiting_from-untouched i last fuel ((i + 1) % 16) (f (get_or ev i cleared_evt)) hi
                    hl (omega arith) (ground arith),
              )
              refl in
          subst
            (λ (j : ℕ).
              change_first type f (waiting_from ev last (suc fuel) i)
              ≡ some (waiting_from (set ev j (f (get_or ev j cleared_evt))) last (suc fuel) i))
            at step
      | inr there ↦
          let e' : find_evt ev type last fuel ((i + 1) % 16) ≡ some k = ground arith in
          let on' = find_evt-on type last fuel ((i + 1) % 16) k hl (omega arith) e' in
          let old : get_or (set ev k (f (get_or ev k cleared_evt))) i cleared_evt
              ≡ get_or ev i cleared_evt =
            ground
              (arith, get_or-set ev k i (f (get_or ev k cleared_evt)) cleared_evt, on'.0, on'.1) in
          rw
            (
              on,
              there,
              old,
              change_first-some type last fuel ((i + 1) % 16) k f hl (omega arith) e',
            )
            refl
    ]
  ]

  -- A write to the next cell, which is then passed.
  pub waiting_from-snoc :
      (last fuel i : ℕ) (e : GuiEvt)
      → last < 16
      → i < 16
      → steps i last < 15
      → steps i last < fuel
      → waiting_from (set ev last e) ((last + 1) % 16) fuel i
        ≡ waiting_from ev last fuel i ++ (e ∷ [])
  unfolding waiting_from
  waiting_from-snoc last zero i e hl hi room enough = absurd (omega arith)
  waiting_from-snoc last (suc fuel) i e hl hi room enough = elim (Bool-cases (i == last)) [
    | inl stop ↦
        let at : i ≡ last = ground arith in
        let more : (i == (last + 1) % 16) ≡ false = ground arith in
        let new : get_or (set ev last e) i cleared_evt ≡ e =
          ground (arith, get_or-set ev last i e cleared_evt) in
        rw (stop, more, new, at, waiting_from_stop (set ev last e) fuel ((last + 1) % 16)) refl
    | inr on ↦
        let more : (i == (last + 1) % 16) ≡ false = ground arith in
        let old : get_or (set ev last e) i cleared_evt ≡ get_or ev i cleared_evt =
          ground (arith, get_or-set ev last i e cleared_evt) in
        rw
          (
            on,
            more,
            old,
            waiting_from-snoc last fuel ((i + 1) % 16) e hl (omega arith) (ground arith)
                (ground arith),
          )
          refl
  ]

  pub length-waiting_from :
      (last fuel i : ℕ)
      → last < 16
      → i < 16
      → steps i last < fuel
      → length (waiting_from ev last fuel i) ≡ steps i last
  unfolding waiting_from
  length-waiting_from last zero i hl hi enough = absurd (omega arith)
  length-waiting_from last (suc fuel) i hl hi enough = elim (Bool-cases (i == last)) [
    | inl stop ↦ rw stop (ground arith)
    | inr on ↦ rw on (
        ground
          (arith, length-waiting_from last fuel ((i + 1) % 16) hl (omega arith) (ground arith)))
  ]

-- One round more changes nothing.
pub waiting_from_enough :
    (ev : List GuiEvt) (last fuel i : ℕ)
    → last < 16
    → i < 16
    → steps i last < fuel
    → waiting_from ev last (suc fuel) i ≡ waiting_from ev last fuel i
unfolding waiting_from
waiting_from_enough ev last zero i hl hi enough = absurd (omega arith)
waiting_from_enough ev last (suc fuel) i hl hi enough = elim (Bool-cases (i == last)) [
  | inl stop ↦ rw stop refl
  | inr on ↦
      let ih = waiting_from_enough ev last fuel ((i + 1) % 16) hl (omega arith) (ground arith) in
      rw (on, ih) refl
]
