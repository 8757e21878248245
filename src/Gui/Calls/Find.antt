-- ===== src/Gui/Calls/Find.antt =====
-- The searches in the window table.
use zeros_i.Base.{
  ℕ, zero, suc, ◌+◌, ◌<◌, ◌≡◌, refl, ap, ◌∙◌, true, false, ◌&&◌, some, List, [], ◌∷◌, ◌==◌, set,
  get_or-set, length, ltb, ltb→lt, get_or_past, arith, Bool-cases, inl, inr,
}
use zeros_i.Mm.{Mm}
use zeros_i.Gui.Window.{GuiEvt, GuiWin, cleared_win, post_evt}
use zeros_i.Gui.{Display, wins_of, win_at, with_wins, is_server, win_from, win_by_id}
use zeros_i.Gui.Events.{display_post_event}
use zeros_i.Gui.Windows.{free_win_from}

-- `win_by_id` returns a window in use that has the id.
pub win_from_hit :
    (gwins : List GuiWin) (id i k : ℕ)
    → win_from gwins id i ≡ some k
    → (t : ℕ) × (k ≡ i + t)
      × (t < length gwins)
      × ((win_at gwins t).win_used ≡ true)
      × ((win_at gwins t).win_id ≡ id)
unfolding win_from
win_from_hit [] id i k e = absurd (ground arith)
win_from_hit (w ∷ gwins) id i k e = elim (Bool-cases (w.win_used && (w.win_id == id))) [
  | inl this ↦ (0, ground arith, omega arith, ground arith, ground arith)
  | inr other ↦
      let (t, at, lt, u, same) = win_from_hit gwins id (i + 1) k (ground arith) in
      (suc t, omega arith, omega (arith, lt), u, same)
]

-- It does not look at anything else.
pub win_from-set :
    (gwins : List GuiWin) (id i t : ℕ) (gw : GuiWin)
    → gw.win_used ≡ (win_at gwins t).win_used
    → gw.win_id ≡ (win_at gwins t).win_id
    → win_from (set gwins t gw) id i ≡ win_from gwins id i
unfolding win_from
win_from-set [] id i t gw u same = refl
win_from-set (w ∷ gwins) id i zero gw u same = ground arith
win_from-set (w ∷ gwins) id i (suc t) gw u same =
    ground (arith, win_from-set gwins id (i + 1) t gw u same)

pub free_win_from_hit :
    (gwins : List GuiWin) (i k : ℕ)
    → free_win_from gwins i ≡ some k
    → (t : ℕ) × (k ≡ i + t) × (t < length gwins) × ((win_at gwins t).win_used ≡ false)
unfolding free_win_from
free_win_from_hit [] i k e = absurd (ground arith)
free_win_from_hit (w ∷ gwins) i k e = elim (Bool-cases w.win_used) [
  | inr this ↦ (0, ground arith, omega arith, ground arith)
  | inl other ↦
      let (t, at, lt, u) = free_win_from_hit gwins (i + 1) k (ground arith) in
      (suc t, omega arith, omega (arith, lt), u)
]

pub win_within : (gwins : List GuiWin) (i : ℕ) → (win_at gwins i).win_used ≡ true → i < length gwins
win_within gwins i u = elim (Bool-cases (ltb i (length gwins))) [
  | inl lt ↦ ltb→lt _ _ lt
  | inr ge ↦ absurd (ground (arith, get_or_past gwins i cleared_win))
]

pub set-set :
    (gwins : List GuiWin) (i : ℕ) (v v' : GuiWin) → set (set gwins i v) i v' ≡ set gwins i v'
set-set [] i v v' = refl
set-set (w ∷ gwins) zero v v' = refl
set-set (w ∷ gwins) (suc i) v v' = ap (λ ws. w ∷ ws) (set-set gwins i v v')

pub found :
    (id i : ℕ) (d : Display)
    → win_by_id id d ≡ some i
    → (i < length (wins_of d))
      × ((win_at (wins_of d) i).win_used ≡ true)
      × ((win_at (wins_of d) i).win_id ≡ id)
unfolding win_by_id
found id i d e =
    let (t, at, lt, u, same) = win_from_hit (wins_of d) id 0 i e in
    let e' : i ≡ t = omega arith in rw e' (lt, u, same)

-- A window is rewritten, and then gets an event from the server.
pub display_post_event_after :
    (d : Display) (id i : ℕ) (e : GuiEvt) (gw : GuiWin) (mm : Mm)
    → win_by_id id d ≡ some i
    → is_server d ≡ true
    → gw.win_used ≡ (win_at (wins_of d) i).win_used
    → gw.win_id ≡ (win_at (wins_of d) i).win_id
    → (display_post_event id e (with_wins (set (wins_of d) i gw) mm d)).1
      ≡ with_wins (set (wins_of d) i (post_evt e gw).1) mm d
unfolding display_post_event
display_post_event_after d id i e gw mm hit server u same =
    let (lt, u', same') = found id i d hit in
    let d' = with_wins (set (wins_of d) i gw) mm d in
    let hit' : win_by_id id d' ≡ some i =
      unfold win_by_id in (win_from-set (wins_of d) id 0 i gw u same ∙ hit) in
    let at : win_at (wins_of d') i ≡ gw =
      ground (arith, get_or-set (wins_of d) i i gw cleared_win lt) in
    rw (display_post_event, hit', server, at)
      (ap (λ ws. with_wins ws mm d) (set-set (wins_of d) i gw (post_evt e gw).1))
