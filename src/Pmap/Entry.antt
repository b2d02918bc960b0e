-- ===== src/Pmap/Entry.antt =====
-- kern/pmap.c: what the words that `page_insert` and `pgdir_walk` write say.
use Prim.Native.Nat.{bit_or}
use os_challenging_mission.Base.{ℕ, ◌+◌, ◌/◌, ◌^◌, ◌<◌, ◌≡◌, true, arith}
use os_challenging_mission.Base.Bits.{bit-or, bit-le-one, shift_or, bit_or-zero}
use os_challenging_mission.Pmap.{ppn, is_valid, page2pa, pte_for, pte_c_cacheable, pte_v}

frame : (pp : ℕ) → pp < 2 ^ 20 → page2pa pp / 2 ^ 12 ≡ pp
frame pp h = omega arith

-- The entry points to the page, with the bits of `perm` above the flags put in.
pub ppn-pte_for : (pp perm : ℕ) → pp < 2 ^ 20 → ppn (pte_for pp perm) ≡ bit_or pp (perm / 4096)
unfolding pte_for
ppn-pte_for pp perm h =
    rw
      (
        shift_or 12 (bit_or (bit_or (page2pa pp) perm) pte_c_cacheable) pte_v,
        shift_or 12 (bit_or (page2pa pp) perm) pte_c_cacheable,
        shift_or 12 (page2pa pp) perm,
      )
      (simp bit_or-zero (rw (frame pp h)))

pub pte_for-valid : (pp perm : ℕ) → is_valid (pte_for pp perm) ≡ true
unfolding pte_for
pte_for-valid pp perm = ground (
  arith,
  bit-or (bit_or (bit_or (page2pa pp) perm) pte_c_cacheable) pte_v 7,
  bit-le-one (bit_or (bit_or (page2pa pp) perm) pte_c_cacheable) 7,
)

-- The directory entry of a new page table.
pub ppn-pde : (pp : ℕ) → pp < 2 ^ 20 → ppn (bit_or (page2pa pp) (pte_c_cacheable + pte_v)) ≡ pp
ppn-pde pp h =
    rw (shift_or 12 (page2pa pp) (pte_c_cacheable + pte_v)) (simp bit_or-zero (frame pp h))

pub pde-valid : (pp : ℕ) → is_valid (bit_or (page2pa pp) (pte_c_cacheable + pte_v)) ≡ true
pde-valid pp =
    ground (arith, bit-or (page2pa pp) (pte_c_cacheable + pte_v) 7, bit-le-one (page2pa pp) 7)
