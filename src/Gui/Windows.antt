-- ===== src/Gui/Windows.antt =====
-- kernel/gui/display.c: the calls that make, change and destroy windows, and those that read one.
pub mod Pixels
pub mod Picture
pub mod Resized
use zeros_i.Base.{
  ℕ, zero, suc, ◌+◌, ◌-◌, ◌*◌, ◌/◌, ◌%◌, Bool, true, false, ◌&&◌, ◌||◌, not, Option, none, some,
  List, [], ◌∷◌, ltb, leb, ◌==◌, if◌then◌else◌, set,
}
use zeros_i.Base.Int.{ℤ}
use zeros_i.Memory.{word, Mem, kmemset, kmemcpy}
use zeros_i.Mm.{Mm, page_size, mm_alloc_pages, mm_free_pages}
use zeros_i.Proc.Kill.{Sys}
use zeros_i.Proc.Slices.{Slices, Frame, proc_yield_to_parent}
use zeros_i.Str.{kstrncpy, cstr}
use zeros_i.Gui.Window.{GuiWin, cleared_win, gui_title_max, inp_resize, GuiEvt}
use zeros_i.Gui.{
  Display, wins_of, mm_of, caller, with_wins, win_at, put_win, win_by_id, is_owner, is_server,
}
use zeros_i.Gui.Events.{display_post_event}

-- The loop of `display_create` for a slot, from slot `i` on.
unfoldable pub free_win_from : List GuiWin → ℕ → Option ℕ
free_win_from [] i = none
free_win_from (w ∷ gwins) i =
    let rest = free_win_from gwins (i + 1) in if w.win_used then rest else some i

-- A negative side is a pattern above 1024.
abbrev pub bad_size : ℕ → ℕ → Bool
bad_size w h = ltb w 32 || (ltb h 32 || (ltb 1024 w || ltb 768 h))

abbrev pub pages_for : ℕ → ℕ → ℕ
pages_for w h = (w * h * 4 + page_size - 1) / page_size

-- `mm_alloc_pages(pages)`, and `kmemset(pixels, 0, pages * PAGE_SIZE)` when there are any.
unfoldable pub zeroed_pages : ℕ → Mm → Option ℕ × Mm
zeroed_pages pages mm =
    let (a, mm') = mm_alloc_pages pages mm in
    elim a [
      | none ↦ (none, mm')
      | some p ↦ (some p, record mm' { mem = kmemset mm'.mem p 0 (pages * page_size % word) })
    ]

abbrev window_name : List ℕ
window_name = b'w' ∷ b'i' ∷ b'n' ∷ b'd' ∷ b'o' ∷ b'w' ∷ []

-- `title && title[0]`: a null title is [] here.
abbrev title_or_default : List ℕ → List ℕ
title_or_default [] = window_name
title_or_default (c ∷ title) = c ∷ title

-- The assignments to the new window, in slot `i`.
unfoldable pub fill_win : ℕ → ℕ → ℕ → ℕ → List ℕ → Mm → Display → Display
fill_win i p w h title mm d =
    let gw = win_at (wins_of d) i in
    record (with_wins
      (set (wins_of d) i (record gw {
        win_used = true;
        win_id = d.next_id;
        client_pid = (caller d).pid;
        w = w;
        h = h;
        pixels = p;
        pages = pages_for w h;
        damage = true;
        mapped = false;
        flags = 0;
        title = kstrncpy gw.title (title_or_default title) gui_title_max;
        ev_r = 0;
        ev_w = 0;
      }))
      mm d) { next_id = (d.next_id + 1) % word }

-- From the allocation on, in the slot `i`.
unfoldable pub create_at : ℕ → ℕ → ℕ → List ℕ → Display → Option ℕ × Display
create_at i w h title d =
    let (a, mm) = zeroed_pages (pages_for w h) (mm_of d) in
    elim a [
      | none ↦
          (none, with_wins (set (wins_of d) i (record (win_at (wins_of d) i) { pixels = 0 })) mm d)
      | some p ↦ (some d.next_id, fill_win i p w h title mm d)
    ]

-- The id of the window; `none` is -1.
unfoldable pub display_create : ℕ → ℕ → List ℕ → Display → Option ℕ × Display
display_create w h title d =
    if d.server_pid == 0 || bad_size w h
    then (none, d)
    else elim (free_win_from (wins_of d) 0) [ none ↦ (none, d) | some i ↦ create_at i w h title d ]

-- A null pointer is 0.
unfoldable pub display_fb : ℕ → Display → ℕ
display_fb id d = elim (win_by_id id d) [ none ↦ 0 | some i ↦ (win_at (wins_of d) i).pixels ]

-- The call returns with a status, or the parent of the caller goes on with a code.
pub data Damage : Type 0 where
  returned : Bool → Display → Damage
  left : ℤ → Display → Damage

unfoldable pub present : Option Frame → Display → Damage
present none d = returned true d
present (some frame) d =
    if d.server_pid == 0 then returned true d else elim (proc_yield_to_parent frame d.slices) [
      | none ↦ returned true d
      | some r ↦ left r.0 (record d { slices = r.1 })
    ]

-- `none` is a null frame.
unfoldable pub display_damage : ℕ → Option Frame → Display → Damage
display_damage id frame d = elim (win_by_id id d) [
  | none ↦ returned false d
  | some i ↦
      let gw = win_at (wins_of d) i in
      if is_owner gw d
      then present frame (put_win i (record gw { damage = true }) d)
      else returned false d
]

abbrev pub free_pixels : GuiWin → Mm → Mm
free_pixels gw mm = if gw.pixels == 0 then mm else mm_free_pages gw.pixels gw.pages mm

unfoldable pub display_destroy : ℕ → Display → Bool × Display
display_destroy id d = elim (win_by_id id d) [
  | none ↦ (false, d)
  | some i ↦
      let gw = win_at (wins_of d) i in
      if not (is_owner gw d) && not (is_server d)
      then (false, d)
      else (true, with_wins (set (wins_of d) i cleared_win) (free_pixels gw (mm_of d)) d)
]

abbrev pub int_of : Bool → ℕ
int_of b = if b then 1 else 0

-- `none` is -1.
unfoldable pub info_of : ℕ → GuiWin → Option ℕ
info_of field gw =
    if field == 0
    then some gw.w
    else if field == 1
    then some gw.h
    else if field == 2
    then some gw.pixels
    else if field == 3
    then some (int_of gw.damage)
    else if field == 4
    then some gw.client_pid
    else if field == 5
    then some (int_of gw.mapped)
    else if field == 6
    then some gw.flags
    else none

unfoldable pub display_info : ℕ → ℕ → Display → Option ℕ
display_info id field d = elim (win_by_id id d) [
  | none ↦ none
  | some i ↦ info_of field (win_at (wins_of d) i)
]

unfoldable pub display_set_flags : ℕ → ℕ → Display → Bool × Display
display_set_flags id flags d = elim (win_by_id id d) [
  | none ↦ (false, d)
  | some i ↦
      let gw = win_at (wins_of d) i in
      if is_owner gw d || is_server d
      then (true, put_win i (record gw { flags = flags }) d)
      else (false, d)
]

-- The inner loop of `display_resize`, with `k` pixels left; `to` and `from` are the addresses of the
-- next ones. A pixel has 4 bytes.
unfoldable pub copy_pixels : Mem → ℕ → ℕ → ℕ → Mem
copy_pixels m to from zero = m
copy_pixels m to from (suc k) = copy_pixels (kmemcpy m to from 4) (to + 4) (from + 4) k

-- The outer loop, `k` rounds before `y` reaches `copy_h`.
unfoldable pub copy_rows : Mem → ℕ → ℕ → ℕ → ℕ → ℕ → ℕ → ℕ → Mem
copy_rows m to w from old_w copy_w y zero = m
copy_rows m to w from old_w copy_w y (suc k) =
    copy_rows (copy_pixels m (to + y * w * 4) (from + y * old_w * 4) copy_w) to w from old_w copy_w
      (y + 1) k

abbrev pub smaller : ℕ → ℕ → ℕ
smaller a b = if ltb a b then a else b

-- The memory once the old pixels are copied to `p`.
abbrev pub copied : ℕ → ℕ → ℕ → GuiWin → Mm → Mm
copied p w h gw mm = record mm {
  mem = copy_rows mm.mem p w gw.pixels gw.w (smaller w gw.w) 0 (smaller h gw.h);
}

-- From the test of the allocation on, for the window in slot `i`. What the event's post returns is
-- not used.
unfoldable pub resize_with : ℕ → ℕ → ℕ → ℕ → Display → Option ℕ × Mm → Bool × Display
resize_with i id w h d (none, mm) = (false, with_wins (wins_of d) mm d)
resize_with i id w h d (some p, mm) =
    let gw = win_at (wins_of d) i in
    let gw' = record gw { pixels = p; pages = pages_for w h; w = w; h = h; damage = true } in
    let e : GuiEvt = record { evt_type = inp_resize; key = 0; x = w; y = h; buttons = 0 } in
    let mm' = free_pixels gw (copied p w h gw mm) in
    (true, (display_post_event id e (with_wins (set (wins_of d) i gw') mm' d)).1)

unfoldable pub resize_at : ℕ → ℕ → ℕ → ℕ → Display → Bool × Display
resize_at i id w h d = resize_with i id w h d (zeroed_pages (pages_for w h) (mm_of d))

unfoldable pub display_resize : ℕ → ℕ → ℕ → Display → Bool × Display
display_resize id w h d = elim (win_by_id id d) [
  | none ↦ (false, d)
  | some i ↦
      let gw = win_at (wins_of d) i in
      if not (is_server d) || bad_size w h
      then (false, d)
      else if (w == gw.w) && (h == gw.h)
      then (true, d)
      else resize_at i id w h d
]

-- A null title is `none`.
unfoldable pub display_set_title : ℕ → Option (List ℕ) → Display → Bool × Display
display_set_title id none d = (false, d)
display_set_title id (some title) d = elim (win_by_id id d) [
  | none ↦ (false, d)
  | some i ↦
      let gw = win_at (wins_of d) i in
      if is_owner gw d || is_server d
      then (
        true,
        put_win i (record gw { title = kstrncpy gw.title title gui_title_max; damage = true }) d,
      )
      else (false, d)
]

-- What the buffer `buf`, of `n` cells or more, holds then; `none` is -1. An `n` below 0 is as 0.
unfoldable pub display_get_title : ℕ → List ℕ → ℕ → Display → Option (List ℕ)
display_get_title id buf n d = elim (win_by_id id d) [
  | none ↦ none
  | some i ↦ if n == 0 then none else some (kstrncpy buf (cstr (win_at (wins_of d) i).title) n)
]

-- The loop of `display_next_new`.
unfoldable pub new_from : List GuiWin → Option ℕ
new_from [] = none
new_from (w ∷ gwins) =
    let rest = new_from gwins in if w.win_used && not w.mapped then some w.win_id else rest

unfoldable pub display_next_new : Display → Option ℕ
display_next_new d = if is_server d then new_from (wins_of d) else none

unfoldable pub display_ack_map : ℕ → Display → Bool × Display
display_ack_map id d = elim (win_by_id id d) [
  | none ↦ (false, d)
  | some i ↦
      if is_server d
      then (true, put_win i (record (win_at (wins_of d) i) { mapped = true }) d)
      else (false, d)
]

unfoldable pub display_ack_damage : ℕ → Display → Bool × Display
display_ack_damage id d = elim (win_by_id id d) [
  | none ↦ (false, d)
  | some i ↦
      if is_server d
      then (true, put_win i (record (win_at (wins_of d) i) { damage = false }) d)
      else (false, d)
]

-- The loop of `display_find_pid`.
unfoldable pub client_from : List GuiWin → ℕ → Option ℕ
client_from [] pid = none
client_from (w ∷ gwins) pid =
    let rest = client_from gwins pid in
    if w.win_used && (w.client_pid == pid) then some w.win_id else rest

-- A pid below 0 is as 0.
unfoldable pub display_find_pid : ℕ → Display → Option ℕ
display_find_pid pid d = if pid == 0 then none else client_from (wins_of d) pid
