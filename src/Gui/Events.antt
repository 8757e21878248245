-- ===== src/Gui/Events.antt =====
-- kernel/gui/display.c: the events of a window.
use zeros_i.Base.{◌&&◌, ℕ, Bool, false, not, Option, none, some, if◌then◌else◌}
use zeros_i.Gui.Window.{GuiEvt, post_evt, poll_evt}
use zeros_i.Gui.{Display, wins_of, caller, win_at, put_win, win_by_id, is_owner, is_server}

-- A status is false for -1.
unfoldable pub display_post_event : ℕ → GuiEvt → Display → Bool × Display
display_post_event id e d = elim (win_by_id id d) [
  | none ↦ (false, d)
  | some i ↦
      let (done, gw) = post_evt e (win_at (wins_of d) i) in
      if not (is_server d) && not (caller d).cons_host then (false, d) else (done, put_win i gw d)
]

-- The event that is read; `none` is the result 0.
unfoldable pub display_poll_event : ℕ → Display → Option GuiEvt × Display
display_poll_event id d = elim (win_by_id id d) [
  | none ↦ (none, d)
  | some i ↦
      let (e, gw) = poll_evt (win_at (wins_of d) i) in
      if is_owner (win_at (wins_of d) i) d then (e, put_win i gw d) else (none, d)
]
