-- ===== src/Gui/Windows/Picture.antt =====
-- What is in the pixels of a window that `display_resize` has given new ones.
use zeros_i.Base.{
  ℕ, ◌+◌, ◌-◌, ◌*◌, ◌/◌, ◌%◌, ◌<◌, ◌≤◌, ◌≡◌, sym, ap, ◌∙◌, true, false, ◌&&◌, some, ◌⊎◌, inl, inr,
  ltb, ltb→lt, leb, arith, Bool-cases, if◌then◌else◌,
}
use zeros_i.Memory.{word, kmemset}
use zeros_i.Memory.Blocks.{kmemset_lem}
use zeros_i.Mm.{
  Mm, page_size, page_count, kernel_heap_start, heap_end, mm_alloc_pages, mm_free_pages,
}
use zeros_i.Mm.Runs.{IsBitmap, IsRun, inside}
use zeros_i.Mm.Alloc.{used, allocated, used-mm_free_pages}
use zeros_i.Proc.Swap.Held.{Held, apart, mem-mm_alloc_pages}
use zeros_i.Gui.Window.{GuiWin}
use zeros_i.Gui.Windows.{bad_size, pages_for, smaller, copied, free_pixels}
use zeros_i.Gui.Windows.Pixels.{
  copy_rows_outside, copy_rows_right, copy_rows_lem, below_row, not_above_row,
}

-- The pages of a window hold its pixels, and are in use.
pub record HasFrame (m : Mm) (gw : GuiWin) : Type 0 where
  pub room : gw.w * gw.h * 4 ≤ gw.pages * page_size
  pub held : (t : ℕ) → t < gw.pages * page_size → Held m (gw.pixels + t)

-- A block whose pages are in use, beside a free run.
blocks_apart :
    (m : Mm) (n r a size p : ℕ)
    → IsRun m.page_bitmap page_count r n
    → 0 < n
    → p ≡ kernel_heap_start + r * page_size
    → ((t : ℕ) → t < size → Held m (a + t))
    → 0 < size
    → (p + n * page_size ≤ a) ⊎ (a + size ≤ p)
blocks_apart m n r a size p run some_page at held nonempty =
    elim (apart m n r (a + 0) run (held 0 nonempty) p at) [
      | inr after ↦ inl (omega arith)
      | inl before ↦ elim (Bool-cases (leb (a + size) p)) [
        | inl done ↦ inr (ground arith)
        | inr over ↦
            let e : a + (p - a) ≡ p = ground arith in
            elim (apart m n r (a + (p - a)) run (held (p - a) (ground arith)) p at) [
              | inl no' ↦ absurd (omega arith)
              | inr no' ↦ absurd (omega arith)
            ]
      ]
    ]

module _ (m mm : Mm) (gw : GuiWin) (p w h : ℕ) (bitmap : IsBitmap m.page_bitmap)
    (bytes : (x : ℕ) → m.mem x < 256) (frame : HasFrame m gw) (pages : 0 < gw.pages)
    (size : bad_size w h ≡ false) (got : mm_alloc_pages (pages_for w h) m ≡ (some p, mm)) where
  abbrev n : ℕ
  n = pages_for w h

  abbrev zeroed : Mm
  zeroed = record mm { mem = kmemset mm.mem p 0 (n * page_size % word) }

  abbrev copy_w : ℕ
  copy_w = smaller w gw.w

  abbrev copy_h : ℕ
  copy_h = smaller h gw.h

  abbrev offset : ℕ → ℕ → ℕ → ℕ → ℕ
  offset width y x b = (y * width + x) * 4 + b

  some_page : 0 < n
  some_page =
      let wide : (32 ≤ w) × (32 ≤ h) = (ground arith, ground arith) in
      omega (arith, wide.0, wide.1, below_row 0 h w (omega (arith, wide.1)))

  facts :
      (p + n * page_size ≤ heap_end)
      × (kernel_heap_start ≤ p)
      × ((p + n * page_size ≤ gw.pixels) ⊎ (gw.pixels + gw.pages * page_size ≤ p))
      × (h * w * 4 ≤ n * page_size)
      × (gw.pixels + gw.pages * page_size ≤ heap_end)
  facts =
      let (r, at, run, low, marks, bits) = allocated m mm n p bitmap some_page got in
      let last = frame.held (gw.pages * page_size - 1) (omega arith) in
      (
        omega (arith, at, run.within),
        omega (arith, at),
        blocks_apart m n r gw.pixels (gw.pages * page_size) p run some_page at frame.held
            (omega arith),
        omega arith,
        omega (arith, last.below),
      )

  pub new_room : w * h * 4 ≤ n * page_size
  new_room = omega arith

  zeroed_lem :
      (x : ℕ) → zeroed.mem x ≡ (if leb p x && ltb x (p + n * page_size) then 0 else m.mem x)
  zeroed_lem x =
      let (top, low, apart', room, old_top) = facts in
      let e : n * page_size % word ≡ n * page_size = omega arith in
      let same : mm.mem ≡ m.mem = rw got at (mem-mm_alloc_pages n m) in
      rw (e, same) (kmemset_lem m.mem p 0 (n * page_size) x (omega arith))

  zeroed_bytes : (x : ℕ) → zeroed.mem x < 256
  zeroed_bytes x = ground (arith, zeroed_lem x, bytes x)

  abbrev row_top : ℕ
  row_top = p + copy_h * w * 4

  abbrev frame_end : ℕ
  frame_end = gw.pixels + gw.pages * page_size

  narrow : (copy_w ≤ w) × (copy_w ≤ gw.w) × (copy_h ≤ h) × (copy_h ≤ gw.h)
  narrow = (ground arith, ground arith, ground arith, ground arith)

  low_rows :
      (row_top ≤ word)
      × (frame_end ≤ word)
      × ((row_top ≤ gw.pixels) ⊎ (frame_end ≤ p))
      × (p + (0 + copy_h) * w * 4 ≤ row_top)
      × (gw.pixels + (0 + copy_h) * gw.w * 4 ≤ frame_end)
  low_rows =
      let (top, low, apart', room, old_top) = facts in
      let (cw, cw', ch, ch') = narrow in
      let a = not_above_row copy_h h w ch in
      let b = not_above_row copy_h gw.h gw.w ch' in
      (omega arith, omega arith, ground arith, omega arith, omega (arith, frame.room))

  -- The pixel at column `x` of row `y`, once the rows are copied.
  pub copied_lem :
      (y x b : ℕ)
      → y < h
      → x < w
      → b < 4
      → (copied p w h gw zeroed).mem (p + offset w y x b)
        ≡ (if ltb y gw.h && ltb x gw.w then m.mem (gw.pixels + offset gw.w y x b) else 0)
  copied_lem y x b ly lx lb =
      let (top, low, apart', room, old_top) = facts in
      let row = below_row y h w ly in
      let (cw, cw', ch, ch') = narrow in
      let (rows_low, frame_low, rows_apart, fits, old_fits) = low_rows in
      let at : p + offset w y x b ≡ p + (0 + y) * w * 4 + (x * 4 + b) = omega arith in
      let blank : zeroed.mem (p + offset w y x b) ≡ 0 =
        ground (arith, zeroed_lem (p + offset w y x b)) in
      elim (Bool-cases (ltb y copy_h)) [
        | inr below ↦
            copy_rows_outside p w gw.pixels gw.w copy_w row_top frame_end cw cw' rows_low frame_low
              rows_apart copy_h zeroed.mem 0 (p + offset w y x b) fits
              (inr (omega (arith, not_above_row copy_h y w (ground arith))))
            ∙ blank
            ∙ ground arith
        | inl inside ↦ elim (Bool-cases (ltb x copy_w)) [
          | inr right ↦
              let right' =
                copy_rows_right p w gw.pixels gw.w copy_w row_top frame_end cw cw' rows_low
                  frame_low rows_apart copy_h zeroed.mem 0 y (x * 4 + b) fits (ground arith)
                  (omega arith) in
              let at' : p + offset w y x b ≡ p + y * w * 4 + (x * 4 + b) = omega arith in
              ap (λ t. (copied p w h gw zeroed).mem t) at'
              ∙ right'
              ∙ ap zeroed.mem (sym at')
              ∙ blank
              ∙ ground arith
          | inl both ↦
              let taken =
                copy_rows_lem p w gw.pixels gw.w copy_w row_top frame_end cw cw' rows_low frame_low
                  rows_apart copy_h zeroed.mem 0 y (x * 4 + b) zeroed_bytes fits old_fits
                  (ground arith) (ground arith) in
              let old = gw.pixels + offset gw.w y x b in
              let at' : gw.pixels + (0 + y) * gw.w * 4 + (x * 4 + b) ≡ old = omega arith in
              let old_low : old < frame_end =
                omega
                  (arith, below_row y gw.h gw.w (ground arith), frame.room, ltb→lt x copy_w both) in
              let same : zeroed.mem old ≡ m.mem old = ground (arith, zeroed_lem old) in
              ap (λ t. (copied p w h gw zeroed).mem t) at
              ∙ taken
              ∙ ap zeroed.mem at'
              ∙ same
              ∙ ground arith
        ]
      ]

  pub freed_lem :
      (y x b : ℕ)
      → y < h
      → x < w
      → b < 4
      → (free_pixels gw (copied p w h gw zeroed)).mem (p + offset w y x b)
        ≡ (copied p w h gw zeroed).mem (p + offset w y x b)
  unfolding mm_free_pages
  freed_lem y x b ly lx lb =
      let (top, low, apart', room, old_top) = facts in
      let row = below_row y h w ly in
      let e : gw.pages * page_size % word ≡ gw.pages * page_size = omega arith in
      let pixel = p + offset w y x b in
      let inside : pixel < p + n * page_size = omega arith in
      ground (
        arith,
        e,
        kmemset_lem (copied p w h gw zeroed).mem gw.pixels 0xA5 (gw.pages * page_size) pixel
            (omega arith),
      )

  abbrev freed : Mm
  freed = free_pixels gw (copied p w h gw zeroed)

  pub freed-Held : (t : ℕ) → t < n * page_size → Held freed (p + t)
  freed-Held t lt =
      let (top, low, apart', room, old_top) = facts in
      let (r, at, run, least, marks, bits) = allocated m mm n p bitmap some_page got in
      let q = (p + t - kernel_heap_start) / page_size in
      let first = (gw.pixels - kernel_heap_start) / page_size in
      let new : used (copied p w h gw zeroed) q ≡ true = ground (arith, marks q, at) in
      record {
        above = omega arith;
        below = omega arith;
        taken = elim (Bool-cases (inside first gw.pages q)) [
          | inl old ↦
              let k = q - first in
              let kt : k * page_size < gw.pages * page_size =
                let k' : k < gw.pages = ground arith in omega arith in
              let there = frame.held (k * page_size) kt in
              let base = (frame.held 0 (omega arith)).above in
              let le : first ≤ q = ground arith in
              let e : (gw.pixels + k * page_size - kernel_heap_start) / page_size ≡ q =
                omega arith in
              let e' : r + (q - r) ≡ q = omega (arith, at) in
              let free : used m q ≡ false = rw e' at (run.free (q - r) (omega (arith, at))) in
              let taken : used m q ≡ true = rw e at there.taken in absurd (ground arith)
          | inr other ↦
              ground
                (arith, new, used-mm_free_pages (copied p w h gw zeroed) gw.pixels gw.pages q bits)
        ];
      }
