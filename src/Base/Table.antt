-- ===== src/Base/Table.antt =====
-- A finite range of numbers, checked value by value.
use Prim.Native.Nat.{ℕ, zero, suc, ◌+◌, ◌<◌}
use mathlib.Core.Path.{◌≡◌}
use mathlib.Core.Bool.{Bool, true, ◌&&◌}
use native.Mathlib.Omega.{arith}

-- Does the test hold of the `count` numbers from `at` on?
unfoldable pub range_passes : (ℕ → Bool) → ℕ → ℕ → Bool
range_passes test at zero = true
range_passes test at (suc count) = test at && range_passes test (at + 1) count

pub range_passes_at :
    (test : ℕ → Bool) (count at offset : ℕ)
    → range_passes test at count ≡ true
    → offset < count
    → test (at + offset) ≡ true
unfolding range_passes
range_passes_at test (suc count) at zero passed inside = ground arith
range_passes_at test (suc count) at (suc offset) passed inside =
    let e : at + suc offset ≡ at + 1 + offset = omega arith in
    rw e (range_passes_at test count (at + 1) offset (ground arith) (omega arith))
range_passes_at test zero at offset passed inside = absurd (omega arith)

-- The same from 0 on.
pub range_passes_below :
    (test : ℕ → Bool) (count x : ℕ) → range_passes test 0 count ≡ true → x < count → test x ≡ true
range_passes_below test count x passed inside =
    let e : 0 + x ≡ x = omega arith in rw e at (range_passes_at test count 0 x passed inside)
