-- ===== src/Base/Bits.antt =====
-- The bits of a word, and what `|`, `&` and a complement do to them.
use Prim.Native.Nat.{
  ℕ, zero, suc, ◌+◌, ◌-◌, ◌*◌, ◌/◌, ◌%◌, ◌^◌, ◌≤◌, ◌<◌, min, max, bit_and, bit_or, digits,
  bit_and-bitwise, bit_or-bitwise,
}
use mathlib.Core.Path.{◌≡◌, refl, sym}
use native.Mathlib.Omega.{arith}
use native.Mathlib.Nat.{
  mul_comm, mul_assoc, pow-suc, pow-succ', one-le-pow, div-one, div-div-eq-div-mul,
}
use os_challenging_mission.Base.Tests.{◌==◌, if◌then◌else◌}

-- Bit `k` of `w`, as 0 or 1.
abbrev pub bit : ℕ → ℕ → ℕ
bit w zero = w % 2
bit w (suc k) = bit (w / 2) k

pub bit-le-one : (w k : ℕ) → bit w k ≤ 1
bit-le-one w zero = omega arith
bit-le-one w (suc k) = bit-le-one (w / 2) k

-- Two fuels that cover the first number give the same digits.
enough :
    (z : ℕ → ℕ) (op : ℕ → ℕ → ℕ) (i j x y : ℕ)
    → x ≤ i
    → x ≤ j
    → digits z op i x y ≡ digits z op j x y
enough z op zero zero x y u v = refl
enough z op zero (suc j) zero y u v = refl
enough z op zero (suc j) (suc x) y u v = absurd (omega arith)
enough z op (suc i) j zero y u v = zero_first j
  where
    zero_first : (j : ℕ) → digits z op (suc i) zero y ≡ digits z op j zero y
    zero_first zero = refl
    zero_first (suc j) = refl
enough z op (suc i) zero (suc x) y u v = absurd (omega arith)
enough z op (suc i) (suc j) (suc x) y u v =
    omega (arith, enough z op i j (suc x / 2) (y / 2) (omega arith) (omega arith))

low_or : (x y : ℕ) → bit_or x y ≡ bit_or (x / 2) (y / 2) * 2 + max (x % 2) (y % 2)
low_or zero y = omega (arith, bit_or-bitwise 0 y, bit_or-bitwise 0 (y / 2))
low_or (suc x) y = omega (
  arith,
  bit_or-bitwise (suc x) y,
  bit_or-bitwise (suc x / 2) (y / 2),
  enough (λ y. y) max x (suc x / 2) (suc x / 2) (y / 2) (omega arith) (omega arith),
)

low_and : (x y : ℕ) → bit_and x y ≡ bit_and (x / 2) (y / 2) * 2 + min (x % 2) (y % 2)
low_and zero y = omega (arith, bit_and-bitwise 0 y, bit_and-bitwise 0 (y / 2))
low_and (suc x) y = omega (
  arith,
  bit_and-bitwise (suc x) y,
  bit_and-bitwise (suc x / 2) (y / 2),
  enough (λ y. 0) min x (suc x / 2) (suc x / 2) (y / 2) (omega arith) (omega arith),
)

half_or : (x y : ℕ) → bit_or x y / 2 ≡ bit_or (x / 2) (y / 2)
half_or x y = omega (arith, low_or x y)

half_and : (x y : ℕ) → bit_and x y / 2 ≡ bit_and (x / 2) (y / 2)
half_and x y = omega (arith, low_and x y)

-- `|` takes the larger bit at every place.
pub bit-or : (x y k : ℕ) → bit (bit_or x y) k ≡ max (bit x k) (bit y k)
bit-or x y zero = omega (arith, low_or x y)
bit-or x y (suc k) = rw (half_or x y) (bit-or (x / 2) (y / 2) k)

-- `&` takes the smaller bit at every place.
pub bit-and : (x y k : ℕ) → bit (bit_and x y) k ≡ min (bit x k) (bit y k)
bit-and x y zero = omega (arith, low_and x y)
bit-and x y (suc k) = rw (half_and x y) (bit-and (x / 2) (y / 2) k)

half_two_pow : (j : ℕ) → 2 ^ suc j / 2 ≡ 2 ^ j
half_two_pow j = omega (arith, pow-suc 2 j)

pub bit-zero : (k : ℕ) → bit 0 k ≡ 0
bit-zero zero = refl
bit-zero (suc k) = bit-zero k

-- `1 << j` has bit `j` alone.
pub bit-two_pow : (j k : ℕ) → bit (2 ^ j) k ≡ (if k == j then 1 else 0)
bit-two_pow zero zero = refl
bit-two_pow zero (suc k) = ground (arith, bit-zero k)
bit-two_pow (suc j) zero = ground (arith, pow-suc 2 j)
bit-two_pow (suc j) (suc k) = rw (half_two_pow j) (ground (arith, bit-two_pow j k))

two_pow_pos : (w : ℕ) → 1 ≤ 2 ^ w
two_pow_pos w = one-le-pow w 2 (omega arith)

-- A power below another is at most its half.
two_pow_lt : (j w : ℕ) → j < w → 2 ^ j * 2 ≤ 2 ^ w
two_pow_lt j zero h = absurd (omega arith)
two_pow_lt zero (suc w) h = omega (arith, pow-suc 2 w, two_pow_pos w)
two_pow_lt (suc j) (suc w) h = omega (arith, pow-suc 2 w, pow-suc 2 j, two_pow_lt j w (omega arith))

half_ones : (w : ℕ) → (2 ^ suc w - 1) / 2 ≡ 2 ^ w - 1
half_ones w = omega (arith, pow-suc 2 w, two_pow_pos w)

pub bit-ones : (w k : ℕ) → k < w → bit (2 ^ w - 1) k ≡ 1
bit-ones zero k h = absurd (omega arith)
bit-ones (suc w) zero h = omega (arith, pow-suc 2 w, two_pow_pos w)
bit-ones (suc w) (suc k) h = rw (half_ones w) (bit-ones w k (omega arith))

half_mask_zero : (w : ℕ) → (2 ^ suc w - 1 - 1) / 2 ≡ 2 ^ w - 1
half_mask_zero w = omega (arith, pow-suc 2 w, two_pow_pos w)

half_mask : (w j : ℕ) → j < w → (2 ^ suc w - 1 - 2 ^ suc j) / 2 ≡ 2 ^ w - 1 - 2 ^ j
half_mask w j h = omega (arith, pow-suc 2 w, pow-suc 2 j, two_pow_lt j w h, two_pow_pos j)

-- `~(1 << j)` in `w` bits has every bit but `j`.
pub bit-mask : (w j k : ℕ) → j < w → k < w → bit (2 ^ w - 1 - 2 ^ j) k ≡ (if k == j then 0 else 1)
bit-mask zero j k hj hk = absurd (omega arith)
bit-mask (suc w) zero zero hj hk = ground (arith, pow-suc 2 w)
bit-mask (suc w) zero (suc k) hj hk =
    rw (half_mask_zero w) (ground (arith, bit-ones w k (omega arith)))
bit-mask (suc w) (suc j) zero hj hk =
    ground (arith, pow-suc 2 w, pow-suc 2 j, two_pow_lt j w (omega arith), two_pow_pos j)
bit-mask (suc w) (suc j) (suc k) hj hk =
    rw (half_mask w j (omega arith)) (ground (arith, bit-mask w j k (omega arith) (omega arith)))

eq_of_bits_fuel : (n a b : ℕ) → a ≤ n → b ≤ n → ((k : ℕ) → bit a k ≡ bit b k) → a ≡ b
eq_of_bits_fuel zero a b p q h = omega arith
eq_of_bits_fuel (suc n) a b p q h =
    omega
      (arith, h 0, eq_of_bits_fuel n (a / 2) (b / 2) (omega arith) (omega arith) (λ k. h (suc k)))

-- Equal bits, equal numbers.
pub eq_of_bits : (a b : ℕ) → ((k : ℕ) → bit a k ≡ bit b k) → a ≡ b
eq_of_bits a b h = eq_of_bits_fuel (a + b) a b (omega arith) (omega arith) h

and_two_pow_unset : (w k : ℕ) → bit w k ≡ 0 → bit_and w (2 ^ k) ≡ 0
and_two_pow_unset w k h =
    eq_of_bits _ _
      λ j. ground (arith, bit-and w (2 ^ k) j, bit-two_pow k j, bit-zero j, bit-le-one w j)

-- The test `w & (1 << k)`.
pub bit_test : (w k : ℕ) → (bit_and w (2 ^ k) == 0) ≡ (bit w k == 0)
bit_test w k =
    ground (
      arith,
      and_two_pow_unset w k,
      bit-and w (2 ^ k) k,
      bit-two_pow k k,
      bit-zero k,
      bit-le-one w k,
    )

-- `w |= 1 << k` and `w &= ~(1 << k)` on a `uint32_t`.
abbrev pub set_bit : ℕ → ℕ → ℕ
set_bit w k = bit_or w (2 ^ k)

abbrev pub clear_bit : ℕ → ℕ → ℕ
clear_bit w k = bit_and w (2 ^ 32 - 1 - 2 ^ k)

pub bit-set_bit : (w k j : ℕ) → bit (set_bit w k) j ≡ (if j == k then 1 else bit w j)
bit-set_bit w k j = ground (arith, bit-or w (2 ^ k) j, bit-two_pow k j, bit-le-one w j)

pub bit-clear_bit :
    (w k j : ℕ) → k < 32 → j < 32 → bit (clear_bit w k) j ≡ (if j == k then 0 else bit w j)
bit-clear_bit w k j hk hj =
    ground (arith, bit-and w (2 ^ 32 - 1 - 2 ^ k) j, bit-mask 32 k j hk hj, bit-le-one w j)

shift_suc : (x k : ℕ) → x / 2 ^ suc k ≡ x / 2 / 2 ^ k
shift_suc x k = rw (pow-succ' 2 k) (sym (div-div-eq-div-mul x 2 (2 ^ k)))

-- `|` commutes with a shift to the right.
pub shift_or : (k x y : ℕ) → bit_or x y / 2 ^ k ≡ bit_or (x / 2 ^ k) (y / 2 ^ k)
shift_or zero x y = simp div-one
shift_or (suc k) x y =
    rw (shift_suc (bit_or x y) k, shift_suc x k, shift_suc y k, half_or x y)
      (shift_or k (x / 2) (y / 2))

pub bit_or-zero : (x : ℕ) → bit_or x 0 ≡ x
bit_or-zero x = eq_of_bits _ _ λ k. omega (arith, bit-or x 0 k, bit-zero k)

-- `|` of a shifted number and one below the shift is their sum.
pub or_add : (k x e : ℕ) → e < 2 ^ k → bit_or (2 ^ k * x) e ≡ 2 ^ k * x + e
or_add zero x e h = rw (sym (zero_of e h)) (omega (arith, bit_or-zero (1 * x)))
  where
    zero_of : (e : ℕ) → e < 2 ^ 0 → 0 ≡ e
    zero_of e h = omega arith
or_add (suc k) x e h =
    let twice : 2 ^ suc k * x ≡ 2 * (2 ^ k * x) =
      rw (pow-suc 2 k, mul_comm (2 ^ k) 2) (mul_assoc 2 (2 ^ k) x) in
    let half : 2 ^ suc k * x / 2 ≡ 2 ^ k * x = omega (arith, twice) in
    let rest : bit_or (2 ^ k * x) (e / 2) ≡ 2 ^ k * x + e / 2 =
      or_add k x (e / 2) (omega (arith, pow-suc 2 k)) in
    let high : bit_or (2 ^ suc k * x) e / 2 ≡ 2 ^ k * x + e / 2 =
      rw (half_or (2 ^ suc k * x) e, half) rest in
    omega (arith, low_or (2 ^ suc k * x) e, high, twice)

pub bit_or_comm : (x y : ℕ) → bit_or x y ≡ bit_or y x
bit_or_comm x y = eq_of_bits _ _ λ k. omega (arith, bit-or x y k, bit-or y x k)
