-- ===== src/Asid.antt =====
-- kern/env.c: the allocator of address space identifiers. `asid_lock` makes each call one step.
pub mod Laws
mod Examples
use os_challenging_mission.Base.{ℕ, zero, suc, if◌then◌else◌, Option, none, some}
use os_challenging_mission.Base.Bitmap.{Bitmap, is_set, set_at, clear_at}
use os_challenging_mission.Errors.{M, ok, err, no_free_env}

abbrev pub nasid : ℕ
nasid = 256

-- The loop of `asid_alloc`: the first clear bit in `n` rounds from `i`.
unfoldable pub asid_scan : ℕ → ℕ → Bitmap → Option ℕ
asid_scan zero i b = none
asid_scan (suc n) i b = let rest = asid_scan n (suc i) b in if is_set b i then rest else some i

unfoldable pub asid_alloc : M Bitmap ℕ
unfolding asid_scan
asid_alloc b = elim (asid_scan nasid 0 b) [
  | none ↦ (err no_free_env, b)
  | some i ↦ (ok i, set_at i b)
]

unfoldable pub asid_free : ℕ → Bitmap → Bitmap
asid_free i b = clear_at i b
