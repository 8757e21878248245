-- ===== src/Tests/Windows.antt =====
-- Runs of kernel/gui/display.c: a server of pid 1 and clients of pids 3 and 4.
use zeros_i.Base.{
  ℕ, zero, suc, ◌+◌, ◌-◌, ◌*◌, ◌/◌, ◌<◌, ◌≡◌, refl, sym, ◌∙◌, true, false, some, List, [], ◌∷◌,
  replicate, get_or-replicate, arith,
}
use zeros_i.Mm.{
  Mm, page_size, kernel_heap_start, heap_end, bitmap_get, mm_alloc_pages, find_run, run_from,
  alloc_at,
}
use zeros_i.Mm.Bitmap.{IsBytes}
use zeros_i.Proc.{Proc, cleared, ready}
use zeros_i.Proc.Slices.{Slices}
use zeros_i.Proc.Swap.Held.{Held}
use zeros_i.Gui.Window.{GuiEvt, GuiWin, cleared_win, gui_win_max, inp_mouse, inp_resize}
use zeros_i.Gui.Window.Ring.{IsRing, waiting}
use zeros_i.Gui.Window.Ring.Queue.{EvtCall, post, poll, run_window, run_queue, run_window-run_queue}
use zeros_i.Gui.{Display, wins_of, mm_of, win_at, cleared_launch, display_init, win_by_id, win_from}
use zeros_i.Gui.Windows.{display_resize, resize_at, resize_with, zeroed_pages}
use zeros_i.Gui.Windows.Resized.{Shows, display_resize-Shows}
use zeros_i.Gui.Calls.{call, create, server_set, set_title}
use zeros_i.Gui.Calls.Effect.{IsDisplay}
use zeros_i.Gui.Calls.Valid.{done, calls, init-Moves}
use zeros_i.Gui.Calls.Access.{call-protects}

abbrev event : ℕ → ℕ → GuiEvt
event type x = record { evt_type = type; key = 0; x = x; y = 5; buttons = 1 }

cleared-IsRing : IsRing cleared_win
cleared-IsRing = record { cells = refl; reads = omega arith; writes = omega arith }

-- Two events of the mouse become one, a key goes behind it.
abbrev some_calls : List EvtCall
some_calls =
    poll
    ∷ post (event inp_mouse 7)
    ∷ post (event inp_mouse 8)
    ∷ post (event 1 0)
    ∷ post (event inp_resize 40)
    ∷ poll
    ∷ poll
    ∷ []

run_window-run_queue_example :
    run_window some_calls cleared_win ≡ run_queue some_calls (waiting cleared_win)
run_window-run_queue_example = run_window-run_queue some_calls cleared_win cleared-IsRing

abbrev process : ℕ → Proc
process pid = record cleared { used = true; pid = pid; state = ready }

-- The first page of the heap is in use.
abbrev one_page : Mm
one_page = record {
  page_bitmap = 1 ∷ replicate 384 0;
  kheap_ptr = heap_end;
  kheap_end = 0x2000000;
  mem = λ x. 7;
}

abbrev kernel : ℕ → Slices
kernel current = record {
  sys = record {
    procs = process 1 ∷ process 3 ∷ process 4 ∷ replicate 13 cleared;
    current = current;
    gwins = replicate gui_win_max cleared_win;
    mm = one_page;
  };
  block_stack = [];
  fg_pid = 1;
  resume_yielded = false;
}

abbrev start : Display
start = record { slices = kernel 0; server_pid = 0; next_id = 1; launch_q = [] }

abbrev served : Display
served = call (create 64 48 []) (call (server_set true) (display_init start))

init-Moves_example : IsDisplay (wins_of served) served.next_id
init-Moves_example = init-Moves 2 start served (omega arith) (
    calls 1 (server_set true) (display_init start) served (
      calls 0 (create 64 48 []) (call (server_set true) (display_init start)) served (done served)))

-- A window of the client of pid 3, in slot 0.
abbrev window : GuiWin
window = record cleared_win {
  win_used = true;
  win_id = 1;
  client_pid = 3;
  w = 32;
  h = 32;
  pixels = kernel_heap_start;
  pages = 1;
}

abbrev one_window : ℕ → Display
one_window current = record {
  slices = record (kernel current) {
    sys = record (kernel current).sys { gwins = window ∷ replicate 7 cleared_win };
  };
  server_pid = 1;
  next_id = 2;
  launch_q = replicate 4 cleared_launch;
}

abbrev others : ℕ → GuiWin
others i = win_at (replicate 7 cleared_win) i

others_lem : (i : ℕ) → others i ≡ cleared_win
others_lem i = get_or-replicate 7 i cleared_win

one_window-rings : (i : ℕ) → IsRing (win_at (wins_of (one_window 2)) i)
one_window-rings zero = record { cells = refl; reads = omega arith; writes = omega arith }
one_window-rings (suc i) = rw (others_lem i) cleared-IsRing

one_window-past :
    (i : ℕ)
    → (win_at (wins_of (one_window 2)) i).win_used ≡ true
    → (win_at (wins_of (one_window 2)) i).win_id < 2
one_window-past zero u = omega arith
one_window-past (suc i) u = absurd (ground (arith, others_lem i))

only_slot : (i : ℕ) → (win_at (wins_of (one_window 2)) i).win_used ≡ true → i ≡ 0
only_slot zero u = refl
only_slot (suc i) u = absurd (ground (arith, others_lem i))

one_window-IsDisplay : IsDisplay (wins_of (one_window 2)) 2
one_window-IsDisplay = record {
  len = refl;
  rings = one_window-rings;
  past = one_window-past;
  distinct = λ i j u v e. only_slot i u ∙ sym (only_slot j v);
}

-- The client of pid 4 cannot rename it.
call-protects_example :
    win_at (wins_of (call (set_title 1 (some (b'x' ∷ []))) (one_window 2))) 0
    ≡ win_at (wins_of (one_window 2)) 0
call-protects_example =
    call-protects (set_title 1 (some (b'x' ∷ []))) (one_window 2) 0 one_window-IsDisplay refl refl

page_held : (t : ℕ) → t < 1 * page_size → Held one_page (kernel_heap_start + t)
unfolding bitmap_get
page_held t lt = record {
  above = omega arith;
  below = omega arith;
  taken =
      let e : (kernel_heap_start + t - kernel_heap_start) / page_size ≡ 0 = omega arith in
      rw e refl;
}

zeros-IsBytes : (n : ℕ) → IsBytes (replicate n 0)
zeros-IsBytes zero = tt
zeros-IsBytes (suc n) = (omega arith, zeros-IsBytes n)

found_window : win_by_id 1 (one_window 0) ≡ some 0
unfolding win_by_id win_from
found_window = refl

grown : (display_resize 1 64 48 (one_window 0)).0 ≡ true
unfolding display_resize resize_at resize_with win_by_id win_from zeroed_pages mm_alloc_pages
    find_run run_from alloc_at bitmap_get
grown = refl

display_resize-Shows_example :
    Shows one_page window 64 48
      (mm_of (display_resize 1 64 48 (one_window 0)).1)
      (win_at (wins_of (display_resize 1 64 48 (one_window 0)).1) 0)
display_resize-Shows_example =
    display_resize-Shows (one_window 0) 1 0 64 48 found_window
      (record { bytes = (omega arith, zeros-IsBytes 384); size = refl }) (λ x. omega arith)
      (record { room = omega arith; held = page_held }) (omega arith) grown
