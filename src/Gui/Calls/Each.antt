-- ===== src/Gui/Calls/Each.antt =====
-- The effect of each call of kernel/gui/display.c on the windows.
use zeros_i.Base.{
  ℕ, ◌≡◌, refl, ap, ◌∙◌, true, false, ◌&&◌, ◌||◌, Bool, not, Option, none, some, List, length,
  arith, Bool-cases, Option-cases, inl, inr, if◌then◌else◌,
}
use zeros_i.Str.{kstrncpy}
use zeros_i.Gui.Window.{gui_title_max, GuiEvt, GuiWin, post_evt, poll_evt}
use zeros_i.Gui.Window.Ring.{IsRing}
use zeros_i.Gui.Window.Ring.Queue.{
  post_evt-Agrees, poll_evt-Agrees, window-post_evt, window-poll_evt,
}
use zeros_i.Gui.{Display, wins_of, caller, win_at, put_win, win_by_id, is_owner, is_server}
use zeros_i.Gui.Windows.{
  display_set_flags, display_set_title, display_ack_map, display_ack_damage, display_destroy,
}
use zeros_i.Gui.Events.{display_post_event, display_poll_event}
use zeros_i.Gui.Calls.Find.{found}
use zeros_i.Gui.Calls.Effect.{may_change, Effect, stays, changes, closes}

-- A change of a window that leaves its events and its id alone.
pub record IsEdit (f : GuiWin → GuiWin) : Type 0 where
  pub used : (w : GuiWin) → (f w).win_used ≡ w.win_used
  pub same_id : (w : GuiWin) → (f w).win_id ≡ w.win_id
  pub ring : (w : GuiWin) → IsRing w → IsRing (f w)

abbrev pub Plain : (f : GuiWin → GuiWin) → Type 0
Plain f =
    (w : GuiWin)
    → ((f w).ev ≡ w.ev)
      × ((f w).ev_r ≡ w.ev_r)
      × ((f w).ev_w ≡ w.ev_w)
      × ((f w).win_used ≡ w.win_used)
      × ((f w).win_id ≡ w.win_id)

pub Plain-IsEdit : (f : GuiWin → GuiWin) → Plain f → IsEdit f
Plain-IsEdit f p = record {
  used = λ w. (p w).3;
  same_id = λ w. (p w).4;
  ring = λ w h. record {
    cells = ap length (p w).0 ∙ h.cells;
    reads = rw (p w).1 h.reads;
    writes = rw (p w).2 h.writes;
  };
}

pub post-IsEdit : (e : GuiEvt) → IsEdit (λ w. (post_evt e w).1)
post-IsEdit e = record {
  used = λ w. (window-post_evt e w).0;
  same_id = λ w. (window-post_evt e w).1;
  ring = λ w h. (post_evt-Agrees e w h).2;
}

poll-IsEdit : IsEdit (λ w. (poll_evt w).1)
poll-IsEdit = record {
  used = λ w. (window-poll_evt w).0;
  same_id = λ w. (window-poll_evt w).1;
  ring = λ w h. (poll_evt-Agrees w h).2;
}

module _ (host : Bool) (d : Display) (rings : (i : ℕ) → IsRing (win_at (wins_of d) i)) where
  pub edit-Effect :
      (id i : ℕ) (f : GuiWin → GuiWin)
      → IsEdit f
      → win_by_id id d ≡ some i
      → may_change host d (win_at (wins_of d) i) ≡ true
      → Effect host d (put_win i (f (win_at (wins_of d) i)) d)
  edit-Effect id i f edit e may =
      let gw = win_at (wins_of d) i in
      let (lt, u, same) = found id i d e in
      changes i (f gw) refl refl lt u may (edit.used gw ∙ u) (edit.same_id gw)
        (edit.ring gw (rings i))

  -- The shape that most calls have.
  edits-Effect :
      (id : ℕ) (test : GuiWin → Bool) (f : GuiWin → GuiWin)
      → IsEdit f
      → ((w : GuiWin) → test w ≡ true → may_change host d w ≡ true)
      → Effect host d
          (elim (win_by_id id d) as (λ o. Bool × Display) [
            | none ↦ (false, d)
            | some i ↦
                if test (win_at (wins_of d) i)
                then (true, put_win i (f (win_at (wins_of d) i)) d)
                else (false, d)
          ]).1
  edits-Effect id test f edit allows = elim (Option-cases (win_by_id id d)) [
    | inl e ↦ rw e (stays refl refl)
    | inr (i, e) ↦ elim (Bool-cases (test (win_at (wins_of d) i))) [
      | inr no' ↦ rw (e, no') (stays refl refl)
      | inl may ↦ rw (e, may) (edit-Effect id i f edit e (allows (win_at (wins_of d) i) may))
    ]
  ]

  pub display_set_flags-Effect : (id flags : ℕ) → Effect host d (display_set_flags id flags d).1
  unfolding display_set_flags
  display_set_flags-Effect id flags =
      edits-Effect id (λ w. is_owner w d || is_server d) (λ w. record w { flags = flags })
        (Plain-IsEdit _ (λ w. (refl, refl, refl, refl, refl))) (λ w may. ground arith)

  pub display_set_title-Effect :
      (id : ℕ) (title : Option (List ℕ)) → Effect host d (display_set_title id title d).1
  unfolding display_set_title
  display_set_title-Effect id none = stays refl refl
  display_set_title-Effect id (some title) =
      edits-Effect id (λ w. is_owner w d || is_server d)
        (λ w. record w { title = kstrncpy w.title title gui_title_max; damage = true })
        (Plain-IsEdit _ (λ w. (refl, refl, refl, refl, refl))) (λ w may. ground arith)

  pub display_ack_map-Effect : (id : ℕ) → Effect host d (display_ack_map id d).1
  unfolding display_ack_map
  display_ack_map-Effect id =
      edits-Effect id (λ w. is_server d) (λ w. record w { mapped = true })
        (Plain-IsEdit _ (λ w. (refl, refl, refl, refl, refl))) (λ w may. ground arith)

  pub display_ack_damage-Effect : (id : ℕ) → Effect host d (display_ack_damage id d).1
  unfolding display_ack_damage
  display_ack_damage-Effect id =
      edits-Effect id (λ w. is_server d) (λ w. record w { damage = false })
        (Plain-IsEdit _ (λ w. (refl, refl, refl, refl, refl))) (λ w may. ground arith)

  pub display_poll_event-Effect : (id : ℕ) → Effect host d (display_poll_event id d).1
  unfolding display_poll_event
  display_poll_event-Effect id = elim (Option-cases (win_by_id id d)) [
    | inl miss ↦ rw (display_poll_event, miss) (stays refl refl)
    | inr (i, hit) ↦ elim (Bool-cases (is_owner (win_at (wins_of d) i) d)) [
      | inr no' ↦ rw (display_poll_event, hit, no') (stays refl refl)
      | inl may ↦
          rw (display_poll_event, hit, may)
            (edit-Effect id i (λ w. (poll_evt w).1) poll-IsEdit hit (ground arith))
    ]
  ]

  pub display_destroy-Effect : (id : ℕ) → Effect host d (display_destroy id d).1
  unfolding display_destroy
  display_destroy-Effect id = elim (Option-cases (win_by_id id d)) [
    | inl miss ↦ rw (display_destroy, miss) (stays refl refl)
    | inr (i, hit) ↦
        let (lt, u, same) = found id i d hit in
        elim (Bool-cases (not (is_owner (win_at (wins_of d) i) d) && not (is_server d))) [
          | inl no' ↦ rw (display_destroy, hit, no') (stays refl refl)
          | inr may ↦ rw (display_destroy, hit, may) (closes i refl refl lt u (ground arith))
        ]
  ]

pub display_post_event-Effect :
    (d : Display) (rings : (i : ℕ) → IsRing (win_at (wins_of d) i)) (id : ℕ) (e : GuiEvt)
    → Effect (caller d).cons_host d (display_post_event id e d).1
unfolding display_post_event
display_post_event-Effect d rings id e = elim (Option-cases (win_by_id id d)) [
  | inl miss ↦ rw (display_post_event, miss) (stays refl refl)
  | inr (i, hit) ↦ elim (Bool-cases (not (is_server d) && not (caller d).cons_host)) [
    | inl no' ↦ rw (display_post_event, hit, no') (stays refl refl)
    | inr may ↦
        rw (display_post_event, hit, may)
          (edit-Effect (caller d).cons_host d rings id i (λ w. (post_evt e w).1) (post-IsEdit e) hit
            (ground arith))
  ]
]
