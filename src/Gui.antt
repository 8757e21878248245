-- ===== src/Gui.antt =====
-- kernel/gui/display.c: the windows of the display server, their queues of events, and the queue of
-- launches. `Gui.Windows` has the calls on windows, `Gui.Events` those on events.
pub mod Window
pub mod Windows
pub mod Events
pub mod Launch
pub mod Calls
use zeros_i.Base.{
  ℕ, zero, suc, ◌+◌, Bool, true, false, ◌&&◌, ◌||◌, not, Option, none, some, List, [], ◌∷◌, ◌==◌,
  if◌then◌else◌, get_or, set, replicate,
}
use zeros_i.Gui.Window.{GuiWin, cleared_win, gui_win_max}
use zeros_i.Mm.{Mm}
use zeros_i.Proc.{Proc, proc_at}
use zeros_i.Proc.Kill.{Sys}
use zeros_i.Proc.Slices.{Slices}

pub record LaunchReq : Type 0 where
  pub launch_used : Bool
  pub launch_path : List ℕ
  pub launch_argv : List ℕ

abbrev pub gui_launch_max : ℕ
gui_launch_max = 128

abbrev pub cleared_launch : LaunchReq
cleared_launch = record {
  launch_used = false;
  launch_path = replicate gui_launch_max 0;
  launch_argv = replicate gui_launch_max 0;
}

-- The globals of the file beside `gwins`, with the rest of the kernel, which holds `gwins`. A
-- `server_pid` of 0 says that there is no server.
pub record Display : Type 0 where
  pub slices : Slices
  pub server_pid : ℕ
  pub next_id : ℕ
  pub launch_q : List LaunchReq

abbrev pub wins_of : Display → List GuiWin
wins_of d = d.slices.sys.gwins

abbrev pub mm_of : Display → Mm
mm_of d = d.slices.sys.mm

-- `proc_current()`, which is not null once `proc_init` has run.
abbrev pub caller : Display → Proc
caller d = proc_at d.slices.sys.procs d.slices.sys.current

abbrev pub with_wins : List GuiWin → Mm → Display → Display
with_wins gwins mm d = record d {
  slices = record d.slices { sys = record d.slices.sys { gwins = gwins; mm = mm } };
}

abbrev pub win_at : List GuiWin → ℕ → GuiWin
win_at gwins i = get_or gwins i cleared_win

abbrev pub put_win : ℕ → GuiWin → Display → Display
put_win i w d = with_wins (set (wins_of d) i w) (mm_of d) d

pub display_init : Display → Display
display_init d = record (with_wins (replicate gui_win_max cleared_win) (mm_of d) d) {
  server_pid = 0;
  next_id = 1;
  launch_q = replicate 4 cleared_launch;
}

-- A status is false for -1.
pub display_server_set : Bool → Display → Bool × Display
display_server_set true d =
    if not (d.server_pid == 0) && not (d.server_pid == (caller d).pid)
    then (false, d)
    else (true, record d { server_pid = (caller d).pid })
display_server_set false d =
    if d.server_pid == (caller d).pid then (true, record d { server_pid = 0 }) else (false, d)

pub display_fb_locked : Display → Bool
display_fb_locked d = not (d.server_pid == 0)

-- The loop of `win_by_id`, from slot `i` on; `none` is a null pointer.
unfoldable pub win_from : List GuiWin → ℕ → ℕ → Option ℕ
win_from [] id i = none
win_from (w ∷ gwins) id i =
    let rest = win_from gwins id (i + 1) in if w.win_used && (w.win_id == id) then some i else rest

unfoldable pub win_by_id : ℕ → Display → Option ℕ
win_by_id id d = win_from (wins_of d) id 0

-- `c->pid == gw->client_pid`
abbrev pub is_owner : GuiWin → Display → Bool
is_owner w d = (caller d).pid == w.client_pid

abbrev pub is_server : Display → Bool
is_server d = (caller d).pid == d.server_pid
