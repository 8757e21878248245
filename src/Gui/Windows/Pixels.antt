-- ===== src/Gui/Windows/Pixels.antt =====
-- The loops of `display_resize` that copy the old pixels.
use zeros_i.Base.{
  ℕ, zero, suc, ◌+◌, ◌*◌, ◌<◌, ◌≤◌, ◌≡◌, refl, sym, ap, ◌∙◌, ◌⊎◌, inl, inr, ◌==◌, ltb, arith,
  Bool-cases,
}
use zeros_i.Memory.{word, Mem, store, load, kmemcpy}
use zeros_i.Memory.Blocks.{kmemcpy_outside, kmemcpy_lem}
use zeros_i.Proc.Swap.Held.{kmemcpy_bytes}
use zeros_i.Gui.Windows.{copy_pixels, copy_rows}

kmemcpy-add :
    (n k : ℕ) (m : Mem) (d s : ℕ)
    → kmemcpy m d s (n + k) ≡ kmemcpy (kmemcpy m d s n) (d + n) (s + n) k
unfolding kmemcpy
kmemcpy-add zero k m d s =
    let e : 0 + k ≡ k = omega arith in
    let ed : d + 0 ≡ d = omega arith in let es : s + 0 ≡ s = omega arith in rw (e, ed, es) refl
kmemcpy-add (suc n) k m d s =
    let e : suc n + k ≡ suc (n + k) = omega arith in
    let ed : d + suc n ≡ d + 1 + n = omega arith in
    let es : s + suc n ≡ s + 1 + n = omega arith in
    rw (e, ed, es) (kmemcpy-add n k (store m d (load m s)) (d + 1) (s + 1))

-- A pixel at a time is 4 bytes at a time.
copy_pixels_lem :
    (k : ℕ) (m : Mem) (to from : ℕ) → copy_pixels m to from k ≡ kmemcpy m to from (k * 4)
unfolding copy_pixels
copy_pixels_lem zero m to from = unfold kmemcpy in refl
copy_pixels_lem (suc k) m to from =
    let e : suc k * 4 ≡ 4 + k * 4 = omega arith in
    copy_pixels_lem k (kmemcpy m to from 4) (to + 4) (from + 4)
    ∙ sym (kmemcpy-add 4 (k * 4) m to from)
    ∙ ap (λ n. kmemcpy m to from n) (sym e)

pub below_row : (a b w : ℕ) → a < b → a * w + w ≤ b * w
below_row a zero w h = absurd (omega arith)
below_row a (suc b) w h = elim (Bool-cases (a == b)) [
  | inl same ↦ let e : a ≡ b = ground arith in omega (arith, ap (λ t. t * w) e)
  | inr other ↦ omega (arith, below_row a b w (ground arith))
]

pub not_above_row : (a b w : ℕ) → a ≤ b → a * w ≤ b * w
not_above_row a b w h = elim (Bool-cases (a == b)) [
  | inl same ↦ let e : a ≡ b = ground arith in omega (arith, ap (λ t. t * w) e)
  | inr other ↦ omega (arith, below_row a b w (ground arith))
]

-- Rows of `w` pixels at `to`, up to `top`, and rows of `old_w` pixels at `from`, up to `old_top`; the
-- two blocks do not overlap.
module _ (to w from old_w copy_w top old_top : ℕ) (narrow : copy_w ≤ w)
    (old_narrow : copy_w ≤ old_w) (low : top ≤ word) (old_low : old_top ≤ word)
    (apart : (top ≤ from) ⊎ (old_top ≤ to)) where
  abbrev rows : Mem → ℕ → ℕ → Mem
  rows m y k = copy_rows m to w from old_w copy_w y k

  abbrev row : Mem → ℕ → Mem
  row m y = copy_pixels m (to + y * w * 4) (from + y * old_w * 4) copy_w

  row_outside :
      (m : Mem) (y x : ℕ)
      → to + (y + 1) * w * 4 ≤ top
      → (x < to + y * w * 4) ⊎ (to + y * w * 4 + copy_w * 4 ≤ x)
      → row m y x ≡ m x
  row_outside m y x fits out =
      rw (copy_pixels_lem copy_w m (to + y * w * 4) (from + y * old_w * 4))
        (kmemcpy_outside m (to + y * w * 4) (from + y * old_w * 4) (copy_w * 4) x (omega arith) out)

  -- Bytes that no row from `y` on covers.
  pub copy_rows_outside :
      (k : ℕ) (m : Mem) (y x : ℕ)
      → to + (y + k) * w * 4 ≤ top
      → (x < to + y * w * 4) ⊎ (top ≤ x)
      → rows m y k x ≡ m x
  unfolding copy_rows
  copy_rows_outside zero m y x fits out = refl
  copy_rows_outside (suc k) m y x fits out =
      copy_rows_outside k (row m y) (y + 1) x (omega arith) (ground arith)
      ∙ row_outside m y x (omega arith) (ground arith)

  -- Bytes of the rows that are right of what is copied.
  pub copy_rows_right :
      (k : ℕ) (m : Mem) (y r c : ℕ)
      → to + (y + k) * w * 4 ≤ top
      → copy_w * 4 ≤ c
      → c < w * 4
      → rows m y k (to + r * w * 4 + c) ≡ m (to + r * w * 4 + c)
  unfolding copy_rows
  copy_rows_right zero m y r c fits right inside = refl
  copy_rows_right (suc k) m y r c fits right inside =
      copy_rows_right k (row m y) (y + 1) r c (omega arith) right inside
      ∙ row_outside m y (to + r * w * 4 + c) (omega arith) (elim (Bool-cases (ltb r y)) [
        | inl above ↦ inl (omega (arith, below_row r y w (ground arith)))
        | inr other ↦ inr (omega (arith, not_above_row y r w (ground arith)))
      ])

  row_bytes : (m : Mem) (y : ℕ) → ((x : ℕ) → m x < 256) → (x : ℕ) → row m y x < 256
  row_bytes m y ok =
      rw (copy_pixels_lem copy_w m (to + y * w * 4) (from + y * old_w * 4))
        (kmemcpy_bytes (copy_w * 4) m (to + y * w * 4) (from + y * old_w * 4) ok)

  row_copied :
      (m : Mem) (y c : ℕ)
      → ((x : ℕ) → m x < 256)
      → to + (y + 1) * w * 4 ≤ top
      → from + (y + 1) * old_w * 4 ≤ old_top
      → c < copy_w * 4
      → row m y (to + y * w * 4 + c) ≡ m (from + y * old_w * 4 + c)
  row_copied m y c ok fits old_fits inside =
      rw (copy_pixels_lem copy_w m (to + y * w * 4) (from + y * old_w * 4)) (
        kmemcpy_lem m (to + y * w * 4) (from + y * old_w * 4) (copy_w * 4) c ok (omega arith)
          (omega arith) (ground arith) inside)

  -- The rows from `y` on get the bytes of the old rows.
  pub copy_rows_lem :
      (k : ℕ) (m : Mem) (y j c : ℕ)
      → ((x : ℕ) → m x < 256)
      → to + (y + k) * w * 4 ≤ top
      → from + (y + k) * old_w * 4 ≤ old_top
      → j < k
      → c < copy_w * 4
      → rows m y k (to + (y + j) * w * 4 + c) ≡ m (from + (y + j) * old_w * 4 + c)
  unfolding copy_rows
  copy_rows_lem zero m y j c ok fits old_fits lt inside = absurd (omega arith)
  copy_rows_lem (suc k) m y zero c ok fits old_fits lt inside =
      let e : y + 0 ≡ y = omega arith in
      rw e (
        copy_rows_outside k (row m y) (y + 1) (to + y * w * 4 + c) (omega arith) (inl (omega arith))
        ∙ row_copied m y c ok (omega (arith, not_above_row (y + 1) (y + suc k) w (omega arith)))
            (omega (arith, not_above_row (y + 1) (y + suc k) old_w (omega arith))) inside)
  copy_rows_lem (suc k) m y (suc j) c ok fits old_fits lt inside =
      let e : y + suc j ≡ y + 1 + j = omega arith in
      let below = below_row (y + 1 + j) (y + suc k) old_w (omega arith) in
      rw e (
        copy_rows_lem k (row m y) (y + 1) j c (row_bytes m y ok) (omega arith) (omega arith)
          (omega arith) inside
        ∙ row_outside m y (from + (y + 1 + j) * old_w * 4 + c)
            (omega (arith, not_above_row (y + 1) (y + suc k) w (omega arith)))
            (elim apart [
              | inl before ↦ inr (omega (arith, not_above_row (y + 1) (y + suc k) w (omega arith)))
              | inr after ↦ inl (omega arith)
            ]))
