-- ===== src/Gui/Windows/Resized.antt =====
-- `display_resize` as a whole.
use zeros_i.Base.{
  ℕ, ◌+◌, ◌*◌, ◌%◌, ◌<◌, ◌≡◌, refl, sym, ap, ◌∙◌, true, false, ◌&&◌, ◌||◌, Bool, not, none, some,
  inl, inr, ◌==◌, ltb, arith, Bool-cases, Option-cases, if◌then◌else◌, set, get_or-set,
}
use zeros_i.Memory.{word, kmemset}
use zeros_i.Mm.{Mm, page_size, mm_alloc_pages}
use zeros_i.Mm.Runs.{IsBitmap}
use zeros_i.Gui.Window.{GuiEvt, GuiWin, cleared_win, post_evt, post_pointer, append_evt, inp_resize}
use zeros_i.Gui.{Display, wins_of, mm_of, win_at, win_by_id, is_server}
use zeros_i.Gui.Windows.{
  bad_size, pages_for, zeroed_pages, copied, free_pixels, resize_with, resize_at, display_resize,
}
use zeros_i.Gui.Windows.Picture.{HasFrame, copied_lem, freed_lem, freed-Held, new_room}
use zeros_i.Gui.Calls.Find.{found, display_post_event_after}

-- The window `new` has the size, has pages of its own for its pixels, and shows the picture of `old`
-- where that has pixels, and zero bytes elsewhere.
pub record Shows (m : Mm) (old : GuiWin) (w h : ℕ) (m' : Mm) (new : GuiWin) : Type 0 where
  pub wide : new.w ≡ w
  pub high : new.h ≡ h
  pub frame : HasFrame m' new
  pub pixel :
      (y x b : ℕ)
      → y < h
      → x < w
      → b < 4
      → m'.mem (new.pixels + ((y * w + x) * 4 + b))
        ≡ (if ltb y old.h && ltb x old.w then m.mem (old.pixels + ((y * old.w + x) * 4 + b)) else 0)

layout-post_evt :
    (e : GuiEvt) (g : GuiWin)
    → ((post_evt e g).1.w ≡ g.w)
      × ((post_evt e g).1.h ≡ g.h)
      × ((post_evt e g).1.pixels ≡ g.pixels)
      × ((post_evt e g).1.pages ≡ g.pages)
unfolding post_evt post_pointer append_evt
layout-post_evt e g = (ground arith, ground arith, ground arith, ground arith)

-- Posting an event moves no pixels.
post_evt-Shows :
    (m : Mm) (old : GuiWin) (w h : ℕ) (m' : Mm) (new : GuiWin) (e : GuiEvt)
    → Shows m old w h m' new
    → Shows m old w h m' (post_evt e new).1
post_evt-Shows m old w h m' new e s =
    let (ew, eh, ep, en) = layout-post_evt e new in
    record {
      wide = ew ∙ s.wide;
      high = eh ∙ s.high;
      frame = record {
        room = rw (ew, eh, en) s.frame.room;
        held = λ t lt. rw ep (s.frame.held t (rw en at lt));
      };
      pixel = λ y x b ly lx lb. rw ep (s.pixel y x b ly lx lb);
    }

abbrev Result : Display → ℕ → ℕ → ℕ → Bool × Display → Type 0
Result d i w h r =
    r.0 ≡ true → Shows (mm_of d) (win_at (wins_of d) i) w h (mm_of r.1) (win_at (wins_of r.1) i)

zeroed_none :
    (n : ℕ) (m : Mm)
    → (mm_alloc_pages n m).0 ≡ none
    → zeroed_pages n m ≡ (none, (mm_alloc_pages n m).1)
unfolding zeroed_pages
zeroed_none n m null = rw (zeroed_pages, null) refl

zeroed_some :
    (n : ℕ) (m : Mm) (p : ℕ)
    → (mm_alloc_pages n m).0 ≡ some p
    → let mm = (mm_alloc_pages n m).1 in
      zeroed_pages n m ≡ (some p, record mm { mem = kmemset mm.mem p 0 (n * page_size % word) })
unfolding zeroed_pages
zeroed_some n m p done = rw (zeroed_pages, done) refl

module _ (d : Display) (id i w h : ℕ) (hit : win_by_id id d ≡ some i)
    (bitmap : IsBitmap (mm_of d).page_bitmap) (bytes : (x : ℕ) → (mm_of d).mem x < 256)
    (frame : HasFrame (mm_of d) (win_at (wins_of d) i))
    (pages : 0 < (win_at (wins_of d) i).pages) where
  abbrev gw : GuiWin
  gw = win_at (wins_of d) i

  moved_to :
      (p : ℕ) (mm : Mm)
      → bad_size w h ≡ false
      → mm_alloc_pages (pages_for w h) (mm_of d) ≡ (some p, mm)
      → let mm' = record mm { mem = kmemset mm.mem p 0 (pages_for w h * page_size % word) } in
        Shows
          (mm_of d)
          gw
          w
          h
          (free_pixels gw (copied p w h gw mm'))
          (record gw { pixels = p; pages = pages_for w h; w = w; h = h; damage = true })
  moved_to p mm size got = record {
    wide = refl;
    high = refl;
    frame = record {
      room = new_room (mm_of d) mm gw p w h bitmap bytes frame pages size got;
      held = freed-Held (mm_of d) mm gw p w h bitmap bytes frame pages size got;
    };
    pixel = λ y x b ly lx lb.
        freed_lem (mm_of d) mm gw p w h bitmap bytes frame pages size got y x b ly lx lb
        ∙ copied_lem (mm_of d) mm gw p w h bitmap bytes frame pages size got y x b ly lx lb;
  }

  resize_with-Result :
      (p : ℕ) (mm : Mm)
      → bad_size w h ≡ false
      → is_server d ≡ true
      → mm_alloc_pages (pages_for w h) (mm_of d) ≡ (some p, mm)
      → Result d i w h (
          resize_with i id w h d
            (some p, record mm { mem = kmemset mm.mem p 0 (pages_for w h * page_size % word) }))
  unfolding resize_with
  resize_with-Result p mm size server got =
      let (lt, u, same) = found id i d hit in
      let mm' = record mm { mem = kmemset mm.mem p 0 (pages_for w h * page_size % word) } in
      let new : GuiWin = record gw {
        pixels = p;
        pages = pages_for w h;
        w = w;
        h = h;
        damage = true;
      } in
      let e : GuiEvt = record { evt_type = inp_resize; key = 0; x = w; y = h; buttons = 0 } in
      let after =
        display_post_event_after d id i e new (free_pixels gw (copied p w h gw mm')) hit server refl
          refl in
      let at = get_or-set (wins_of d) i i (post_evt e new).1 cleared_win lt in
      let here : win_at (set (wins_of d) i (post_evt e new).1) i ≡ (post_evt e new).1 =
        ground (arith, at) in
      rw (after, here) (λ ok. post_evt-Shows (mm_of d) gw w h _ new e (moved_to p mm size got))

  resize_at-Result :
      bad_size w h ≡ false → is_server d ≡ true → Result d i w h (resize_at i id w h d)
  unfolding resize_at
  resize_at-Result size server = elim (Option-cases (mm_alloc_pages (pages_for w h) (mm_of d)).0) [
    | inl null ↦
        rw (zeroed_none (pages_for w h) (mm_of d) null)
          (unfold resize_with in (λ e. absurd (ground arith)))
    | inr (p, done) ↦
        let mm = (mm_alloc_pages (pages_for w h) (mm_of d)).1 in
        rw (zeroed_some (pages_for w h) (mm_of d) p done)
          (resize_with-Result p mm size server (ap (λ a. (a, mm)) done))
  ]

  same_size : w ≡ gw.w → h ≡ gw.h → Shows (mm_of d) gw w h (mm_of d) gw
  same_size ew eh = record {
    wide = sym ew;
    high = sym eh;
    frame = frame;
    pixel = λ y x b ly lx lb. rw ew (ground arith);
  }

  -- For a window that has pages in use for all its pixels: when the resize succeeds, the window has
  -- the new size and pages in use for all its pixels, too. Byte by byte they show the old picture
  -- where both sizes have pixels, and zeros elsewhere; freeing the old pages did not touch them.
  pub display_resize-Shows :
      (display_resize id w h d).0 ≡ true
      → Shows
          (mm_of d)
          (win_at (wins_of d) i)
          w
          h
          (mm_of (display_resize id w h d).1)
          (win_at (wins_of (display_resize id w h d).1) i)
  unfolding display_resize
  display_resize-Shows = elim (Bool-cases (not (is_server d) || bad_size w h)) [
    | inl no' ↦ rw (display_resize, hit, no') (λ e. absurd (ground arith))
    | inr well ↦ elim (Bool-cases ((w == gw.w) && (h == gw.h))) [
      | inl same ↦
          rw (display_resize, hit, well, same) (λ e. same_size (ground arith) (ground arith))
      | inr other ↦
          rw (display_resize, hit, well, other) (resize_at-Result (ground arith) (ground arith))
    ]
  ]
