-- ===== src/Mm/Bitmap.antt =====
-- Reading a bit of the page bitmap after a write.
use zeros_i.Base.{
  ℕ, zero, suc, ◌-◌, ◌*◌, ◌/◌, ◌%◌, ◌^◌, ◌<◌, ◌≡◌, refl, Bool, true, false, ◌&&◌, not, List, [],
  ◌∷◌, bit_and, bit_or, ◌==◌, ltb, ltb→lt, length-set, if◌then◌else◌, get_or, set, length,
  range_passes, range_passes_below, arith,
}
use zeros_i.Mm.{bitmap_get, bitmap_set}

abbrev pub IsBytes : List ℕ → Type 0
IsBytes [] = Unit
IsBytes (b ∷ bs) = (b < 256) × IsBytes bs

abbrev bit : ℕ → ℕ → Bool
bit b k = bit_and (b / 2 ^ k) 1 == 1

abbrev same : Bool → Bool → Bool
same true b = b
same false b = not b

same-eq : (a b : Bool) → same a b ≡ true → a ≡ b
same-eq a b h = ground arith

byte_ok : ℕ → ℕ → ℕ → Bool
byte_ok b k j =
    same (bit (bit_or b (2 ^ k)) j) (if k == j then true else bit b j)
    && (same (bit (bit_and b (255 - 2 ^ k)) j) (if k == j then false else bit b j))

byte_table :
    range_passes (λ b. range_passes (λ k. range_passes (λ j. byte_ok b k j) 0 8) 0 8) 0 256 ≡ true
unfolding range_passes byte_ok
byte_table = refl

byte_ok_all : (b k j : ℕ) → b < 256 → k < 8 → j < 8 → byte_ok b k j ≡ true
byte_ok_all b k j hb hk hj =
    range_passes_below (λ j. byte_ok b k j) 8 j
      (range_passes_below (λ k. range_passes (λ j. byte_ok b k j) 0 8) 8 k
        (range_passes_below _ 256 b byte_table hb) hk)
      hj

and_left : (a b : Bool) → (a && b) ≡ true → a ≡ true
and_left a b h = ground arith

and_right : (a b : Bool) → (a && b) ≡ true → b ≡ true
and_right a b h = ground arith

bit-or :
    (b k j : ℕ)
    → b < 256
    → k < 8
    → j < 8
    → bit (bit_or b (2 ^ k)) j ≡ (if k == j then true else bit b j)
unfolding byte_ok
bit-or b k j hb hk hj = same-eq _ _ (and_left _ _ (byte_ok_all b k j hb hk hj))

bit-and :
    (b k j : ℕ)
    → b < 256
    → k < 8
    → j < 8
    → bit (bit_and b (255 - 2 ^ k)) j ≡ (if k == j then false else bit b j)
unfolding byte_ok
bit-and b k j hb hk hj = same-eq _ _ (and_right _ _ (byte_ok_all b k j hb hk hj))

range_ok : ℕ → ℕ → Bool
range_ok b k = ltb (bit_or b (2 ^ k)) 256 && ltb (bit_and b (255 - 2 ^ k)) 256

range_table : range_passes (λ b. range_passes (λ k. range_ok b k) 0 8) 0 256 ≡ true
unfolding range_passes range_ok
range_table = refl

bit_range : (b k : ℕ) → b < 256 → k < 8 → (bit_or b (2 ^ k) < 256) × (bit_and b (255 - 2 ^ k) < 256)
unfolding range_ok
bit_range b k hb hk =
    let ok : range_ok b k ≡ true =
      range_passes_below (λ k. range_ok b k) 8 k (range_passes_below _ 256 b range_table hb) hk in
    (ltb→lt _ _ (and_left _ _ ok), ltb→lt _ _ (and_right _ _ ok))

get_or-IsBytes : (bm : List ℕ) (i : ℕ) → IsBytes bm → get_or bm i 0 < 256
get_or-IsBytes [] i h = omega arith
get_or-IsBytes (b ∷ bs) zero h = h.0
get_or-IsBytes (b ∷ bs) (suc i) h = get_or-IsBytes bs i h.1

set-IsBytes : (bm : List ℕ) (i v : ℕ) → IsBytes bm → v < 256 → IsBytes (set bm i v)
set-IsBytes [] i v h hv = h
set-IsBytes (b ∷ bs) zero v h hv = (hv, h.1)
set-IsBytes (b ∷ bs) (suc i) v h hv = (h.0, set-IsBytes bs i v h.1 hv)

get_or-set :
    (bm : List ℕ) (i j v : ℕ)
    → i < length bm
    → get_or (set bm i v) j 0 ≡ (if i == j then v else get_or bm j 0)
get_or-set [] i j v h = absurd (omega arith)
get_or-set (b ∷ bs) zero zero v h = ground arith
get_or-set (b ∷ bs) zero (suc j) v h = ground arith
get_or-set (b ∷ bs) (suc i) zero v h = ground arith
get_or-set (b ∷ bs) (suc i) (suc j) v h = ground (arith, get_or-set bs i j v)

-- The bits after a write: the one written, and the others as they were.
pub bitmap_get-set :
    (bm : List ℕ) (i j : ℕ) (v : Bool)
    → IsBytes bm
    → i < 8 * length bm
    → bitmap_get (bitmap_set bm i v) j ≡ (if i == j then v else bitmap_get bm j)
unfolding bitmap_get bitmap_set
bitmap_get-set bm i j true b h = ground (
  arith,
  get_or-set bm (i / 8) (j / 8) (bit_or (get_or bm (i / 8) 0) (2 ^ (i % 8))),
  bit-or (get_or bm (i / 8) 0) (i % 8) (j % 8) (get_or-IsBytes bm (i / 8) b),
)
bitmap_get-set bm i j false b h = ground (
  arith,
  get_or-set bm (i / 8) (j / 8) (bit_and (get_or bm (i / 8) 0) (255 - 2 ^ (i % 8))),
  bit-and (get_or bm (i / 8) 0) (i % 8) (j % 8) (get_or-IsBytes bm (i / 8) b),
)

pub bitmap_set-IsBytes : (bm : List ℕ) (i : ℕ) (v : Bool) → IsBytes bm → IsBytes (bitmap_set bm i v)
unfolding bitmap_set
bitmap_set-IsBytes bm i true b =
    set-IsBytes bm (i / 8) _ b
      (bit_range (get_or bm (i / 8) 0) (i % 8) (get_or-IsBytes bm (i / 8) b) (omega arith)).0
bitmap_set-IsBytes bm i false b =
    set-IsBytes bm (i / 8) _ b
      (bit_range (get_or bm (i / 8) 0) (i % 8) (get_or-IsBytes bm (i / 8) b) (omega arith)).1

pub length-bitmap_set : (bm : List ℕ) (i : ℕ) (v : Bool) → length (bitmap_set bm i v) ≡ length bm
unfolding bitmap_set
length-bitmap_set bm i true = length-set bm (i / 8) _
length-bitmap_set bm i false = length-set bm (i / 8) _
