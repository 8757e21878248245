-- ===== src/Gui/Calls/Effect.antt =====
-- What one call does to the window table at most.
use zeros_i.Base.{ℕ, ◌+◌, ◌%◌, ◌<◌, ◌≡◌, true, false, ◌||◌, Bool, List, set, length}
use zeros_i.Memory.{word}
use zeros_i.Gui.Window.{GuiWin, cleared_win, gui_win_max}
use zeros_i.Gui.Window.Ring.{IsRing}
use zeros_i.Gui.{Display, wins_of, win_at, is_owner, is_server}

-- The owner of the window, the server, or a console host where `host` admits one.
abbrev pub may_change : Bool → Display → GuiWin → Bool
may_change host d gw = is_owner gw d || (is_server d || host)

-- A table of windows, with the number that the next window gets.
pub record IsDisplay (gwins : List GuiWin) (next_id : ℕ) : Type 0 where
  pub len : length gwins ≡ gui_win_max
  pub rings : (i : ℕ) → IsRing (win_at gwins i)
  pub past : (i : ℕ) → (win_at gwins i).win_used ≡ true → (win_at gwins i).win_id < next_id
  pub distinct :
      (i j : ℕ)
      → (win_at gwins i).win_used ≡ true
      → (win_at gwins j).win_used ≡ true
      → (win_at gwins i).win_id ≡ (win_at gwins j).win_id
      → i ≡ j

-- The five ways in which a call can leave the windows: as they were, with one of them changed that
-- the caller may change, with one of those closed, with one opened in a free slot, or with a free
-- slot written that stays free.
pub data Effect (host : Bool) (d d' : Display) : Type 0 where
  stays : wins_of d' ≡ wins_of d → d'.next_id ≡ d.next_id → Effect host d d'
  changes :
      (i : ℕ) (gw : GuiWin)
      → wins_of d' ≡ set (wins_of d) i gw
      → d'.next_id ≡ d.next_id
      → i < length (wins_of d)
      → (win_at (wins_of d) i).win_used ≡ true
      → may_change host d (win_at (wins_of d) i) ≡ true
      → gw.win_used ≡ true
      → gw.win_id ≡ (win_at (wins_of d) i).win_id
      → IsRing gw
      → Effect host d d'
  closes :
      (i : ℕ)
      → wins_of d' ≡ set (wins_of d) i cleared_win
      → d'.next_id ≡ d.next_id
      → i < length (wins_of d)
      → (win_at (wins_of d) i).win_used ≡ true
      → may_change host d (win_at (wins_of d) i) ≡ true
      → Effect host d d'
  opens :
      (i : ℕ) (gw : GuiWin)
      → wins_of d' ≡ set (wins_of d) i gw
      → d'.next_id ≡ (d.next_id + 1) % word
      → i < length (wins_of d)
      → (win_at (wins_of d) i).win_used ≡ false
      → gw.win_used ≡ true
      → gw.win_id ≡ d.next_id
      → IsRing gw
      → Effect host d d'
  blanks :
      (i : ℕ) (gw : GuiWin)
      → wins_of d' ≡ set (wins_of d) i gw
      → d'.next_id ≡ d.next_id
      → i < length (wins_of d)
      → (win_at (wins_of d) i).win_used ≡ false
      → gw.win_used ≡ false
      → IsRing gw
      → Effect host d d'
