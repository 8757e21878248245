-- ===== src/Gui/Calls/Access.antt =====
-- Who can change a window.
use zeros_i.Base.{ℕ, ◌≡◌, refl, true, false, ◌&&◌, Bool, get_or-set, arith}
use zeros_i.Gui.Window.{cleared_win}
use zeros_i.Gui.{Display, wins_of, caller, win_at}
use zeros_i.Gui.Calls.{Call, call}
use zeros_i.Gui.Calls.Effect.{may_change, IsDisplay, Effect, stays, changes, closes, opens, blanks}
use zeros_i.Gui.Calls.Made.{is_post, call-Effect}

Effect-kept :
    (host : Bool) (d d' : Display) (j : ℕ)
    → Effect host d d'
    → (win_at (wins_of d) j).win_used ≡ true
    → may_change host d (win_at (wins_of d) j) ≡ false
    → win_at (wins_of d') j ≡ win_at (wins_of d) j
Effect-kept host d d' j (stays w n) u no' = rw w refl
Effect-kept host d d' j (changes i gw w n lt u' may u'' same ring) u no' =
    rw w (ground (arith, get_or-set (wins_of d) i j gw cleared_win lt))
Effect-kept host d d' j (closes i w n lt u' may) u no' =
    rw w (ground (arith, get_or-set (wins_of d) i j cleared_win cleared_win lt))
Effect-kept host d d' j (opens i gw w n lt u' u'' same ring) u no' =
    rw w (ground (arith, get_or-set (wins_of d) i j gw cleared_win lt))
Effect-kept host d d' j (blanks i gw w n lt u' u'' ring) u no' =
    rw w (ground (arith, get_or-set (wins_of d) i j gw cleared_win lt))

-- In a well-formed table, no call changes a window in use, its title, size, flags, pixels address and
-- events included, unless the caller is its owner or the server, or the call posts an event and the
-- caller is a console host.
pub call-protects :
    (c : Call) (d : Display) (j : ℕ)
    → IsDisplay (wins_of d) d.next_id
    → (win_at (wins_of d) j).win_used ≡ true
    → may_change (is_post c && (caller d).cons_host) d (win_at (wins_of d) j) ≡ false
    → win_at (wins_of (call c d)) j ≡ win_at (wins_of d) j
call-protects c d j h u no' =
    Effect-kept (is_post c && (caller d).cons_host) d (call c d) j (call-Effect c d h.rings) u no'
