-- ===== src/Gui/Calls.antt =====
-- kernel/gui/display.c: the calls that change something, as one type.
pub mod Find
pub mod Effect
pub mod Each
pub mod Made
pub mod Valid
pub mod Access
use zeros_i.Base.{ℕ, Bool, Option, List, [], ◌∷◌}
use zeros_i.Proc.Kill.{Sys, display_destroy_pid}
use zeros_i.Proc.Slices.{Slices, Frame}
use zeros_i.Gui.Window.{GuiEvt}
use zeros_i.Gui.{Display, display_server_set}
use zeros_i.Gui.Windows.{
  Damage, returned, left, display_create, display_damage, display_destroy, display_set_flags,
  display_resize, display_set_title, display_ack_map, display_ack_damage,
}
use zeros_i.Gui.Events.{display_post_event, display_poll_event}
use zeros_i.Gui.Launch.{display_request_launch, display_take_launch}

pub data Call : Type 0 where
  server_set : Bool → Call
  create : ℕ → ℕ → List ℕ → Call
  damaged : ℕ → Option Frame → Call
  destroy : ℕ → Call
  set_flags : ℕ → ℕ → Call
  resize : ℕ → ℕ → ℕ → Call
  set_title : ℕ → Option (List ℕ) → Call
  ack_map : ℕ → Call
  ack_damage : ℕ → Call
  request_launch : List ℕ → List ℕ → Call
  take_launch : ℕ → Call
  post_event : ℕ → GuiEvt → Call
  poll_event : ℕ → Call

-- What is there after `display_damage`, whoever goes on.
abbrev pub after : Damage → Display
after (returned b d) = d
after (left code d) = d

pub call : Call → Display → Display
call (server_set on) d = (display_server_set on d).1
call (create w h title) d = (display_create w h title d).1
call (damaged id frame) d = after (display_damage id frame d)
call (destroy id) d = (display_destroy id d).1
call (set_flags id flags) d = (display_set_flags id flags d).1
call (resize id w h) d = (display_resize id w h d).1
call (set_title id title) d = (display_set_title id title d).1
call (ack_map id) d = (display_ack_map id d).1
call (ack_damage id) d = (display_ack_damage id d).1
call (request_launch path argv) d = (display_request_launch path argv d).1
call (take_launch n) d = (display_take_launch n d).1
call (post_event id e) d = (display_post_event id e d).1
call (poll_event id) d = (display_poll_event id d).1
