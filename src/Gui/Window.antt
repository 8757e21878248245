-- ===== src/Gui/Window.antt =====
-- The records of kernel/gui/display.c, and what it does with the events of one window.
pub mod Ring
use zeros_i.Base.{
  ℕ, zero, suc, ◌+◌, ◌%◌, Bool, true, false, ◌&&◌, not, Option, none, some, List, [], ◌∷◌, ◌==◌,
  if◌then◌else◌, get_or, set, replicate,
}

-- An `int` is its bit pattern.
pub record GuiEvt : Type 0 where
  pub evt_type : ℕ
  pub key : ℕ
  pub x : ℕ
  pub y : ℕ
  pub buttons : ℕ

-- `pixels` is the address of the first byte, and `title` holds the cells of its array.
pub record GuiWin : Type 0 where
  pub win_used : Bool
  pub win_id : ℕ
  pub client_pid : ℕ
  pub w : ℕ
  pub h : ℕ
  pub pixels : ℕ
  pub pages : ℕ
  pub damage : Bool
  pub mapped : Bool
  pub flags : ℕ
  pub title : List ℕ
  pub ev : List GuiEvt
  pub ev_r : ℕ
  pub ev_w : ℕ

abbrev pub gui_win_max : ℕ
gui_win_max = 8

abbrev pub gui_title_max : ℕ
gui_title_max = 32

abbrev pub gui_evt_max : ℕ
gui_evt_max = 16

abbrev pub cleared_evt : GuiEvt
cleared_evt = record { evt_type = 0; key = 0; x = 0; y = 0; buttons = 0 }

-- `kmemset(gw, 0, sizeof(*gw))`
abbrev pub cleared_win : GuiWin
cleared_win = record {
  win_used = false;
  win_id = 0;
  client_pid = 0;
  w = 0;
  h = 0;
  pixels = 0;
  pages = 0;
  damage = false;
  mapped = false;
  flags = 0;
  title = replicate gui_title_max 0;
  ev = replicate gui_evt_max cleared_evt;
  ev_r = 0;
  ev_w = 0;
}

abbrev pub inp_mouse : ℕ
inp_mouse = 2

abbrev pub inp_resize : ℕ
inp_resize = 3

abbrev pub evt_at : GuiWin → ℕ → GuiEvt
evt_at g i = get_or g.ev i cleared_evt

-- The search `for (i = ev_r; i != ev_w; i = (i + 1) % GUI_EVT_MAX)` for an event of a type, with
-- `fuel` rounds at most; 16 of them go round the whole array.
unfoldable pub find_evt : List GuiEvt → ℕ → ℕ → ℕ → ℕ → Option ℕ
find_evt ev type last zero i = none
find_evt ev type last (suc fuel) i =
    let rest = find_evt ev type last fuel ((i + 1) % gui_evt_max) in
    if i == last then none else if (get_or ev i cleared_evt).evt_type == type then some i else rest

abbrev pub find_waiting : ℕ → GuiWin → Option ℕ
find_waiting type g = find_evt g.ev type g.ev_w gui_evt_max g.ev_r

-- The assignments to an event that is there already.
abbrev pub moved : GuiEvt → GuiEvt → GuiEvt
moved e old = record old { x = e.x; y = e.y }

abbrev pub pointed : GuiEvt → GuiEvt → GuiEvt
pointed e old = record old { x = e.x; y = e.y; buttons = e.buttons }

abbrev pub put_evt : ℕ → GuiEvt → GuiWin → GuiWin
put_evt i e g = record g { ev = set g.ev i e }

abbrev pub last_evt : GuiWin → ℕ
last_evt g = (g.ev_w + 15) % gui_evt_max

-- The end of `display_post_event`: into the next cell, or over the first mouse event when full.
unfoldable pub append_evt : GuiEvt → GuiWin → Bool × GuiWin
append_evt e g =
    if (g.ev_w + 1) % gui_evt_max == g.ev_r
    then (if e.evt_type == inp_mouse
        then elim (find_waiting inp_mouse g) [
          | none ↦ (false, g)
          | some i ↦ (true, put_evt i (pointed e (evt_at g i)) g)
        ]
        else (false, g))
    else (true, record (put_evt g.ev_w e g) { ev_w = (g.ev_w + 1) % gui_evt_max })

-- From the test for the mouse on.
unfoldable pub post_pointer : GuiEvt → GuiWin → Bool × GuiWin
post_pointer e g =
    if (e.evt_type == inp_mouse)
      && (not (g.ev_r == g.ev_w) && ((evt_at g (last_evt g)).evt_type == inp_mouse))
    then (true, put_evt (last_evt g) (pointed e (evt_at g (last_evt g))) g)
    else append_evt e g

-- `display_post_event` once the window is found and the caller allowed.
unfoldable pub post_evt : GuiEvt → GuiWin → Bool × GuiWin
post_evt e g =
    if e.evt_type == inp_resize
    then elim (find_waiting inp_resize g) [
      | none ↦ post_pointer e g
      | some i ↦ (true, put_evt i (moved e (evt_at g i)) g)
    ]
    else post_pointer e g

-- The end of `display_poll_event`.
unfoldable pub poll_evt : GuiWin → Option GuiEvt × GuiWin
poll_evt g =
    if g.ev_r == g.ev_w
    then (none, g)
    else (some (evt_at g g.ev_r), record g { ev_r = (g.ev_r + 1) % gui_evt_max })
