-- ===== src/Base/Bitmap.antt =====
-- Arrays of `uint32_t` that hold one bit for each index, as kern/env.c and fs/fs.c use them.
use Prim.Native.Nat.{ℕ, ◌/◌, ◌%◌, ◌^◌, bit_and}
use mathlib.Core.Path.{◌≡◌}
use mathlib.Core.Bool.{Bool, true, false, not}
use native.Mathlib.Omega.{arith}
use os_challenging_mission.Base.Tests.{◌==◌, if◌then◌else◌}
use os_challenging_mission.Base.Maps.{update}
use os_challenging_mission.Base.Bits.{
  bit, bit_test, bit-le-one, set_bit, clear_bit, bit-set_bit, bit-clear_bit,
}

-- The words of the array.
abbrev pub Bitmap : Type 0
Bitmap = ℕ → ℕ

-- `bitmap[i / 32] & (1 << (i % 32))`
abbrev pub is_set : Bitmap → ℕ → Bool
is_set b i = not (bit_and (b (i / 32)) (2 ^ (i % 32)) == 0)

-- `bitmap[i / 32] |= 1 << (i % 32)`
abbrev pub set_at : ℕ → Bitmap → Bitmap
set_at i b = update b (i / 32) (set_bit (b (i / 32)) (i % 32))

-- `bitmap[i / 32] &= ~(1 << (i % 32))`
abbrev pub clear_at : ℕ → Bitmap → Bitmap
clear_at i b = update b (i / 32) (clear_bit (b (i / 32)) (i % 32))

test_bit : (b : Bitmap) (i : ℕ) → is_set b i ≡ (bit (b (i / 32)) (i % 32) == 1)
test_bit b i = ground (arith, bit_test (b (i / 32)) (i % 32), bit-le-one (b (i / 32)) (i % 32))

pub is_set-set_at :
    (b : Bitmap) (i j : ℕ) → is_set (set_at i b) j ≡ (if j == i then true else is_set b j)
is_set-set_at b i j =
    ground
      (arith, test_bit (set_at i b) j, test_bit b j, bit-set_bit (b (i / 32)) (i % 32) (j % 32))

pub is_set-clear_at :
    (b : Bitmap) (i j : ℕ) → is_set (clear_at i b) j ≡ (if j == i then false else is_set b j)
is_set-clear_at b i j = ground (
  arith,
  test_bit (clear_at i b) j,
  test_bit b j,
  bit-clear_bit (b (i / 32)) (i % 32) (j % 32) (omega arith) (omega arith),
)
