-- ===== src/Asid/Examples.antt =====
-- The identifiers on bitmaps of a few bits.
use os_challenging_mission.Base.{ℕ, ◌<◌, ◌≡◌, ◌⊎◌, refl, true, false, ◌==◌, if◌then◌else◌}
use os_challenging_mission.Errors.{ok, err, no_free_env}
use os_challenging_mission.Base.Bitmap.{Bitmap, is_set}
use os_challenging_mission.Asid.{asid_alloc, nasid, asid_scan}
use os_challenging_mission.Asid.Laws.{asid_alloc_lem}

-- 0, 1 and 2 are in use.
abbrev three : Bitmap
three i = if i == 0 then 7 else 0

next_is_three : (asid_alloc three).0 ≡ ok 3
unfolding asid_alloc asid_scan
next_is_three = refl

asid_alloc_example :
    ((i : ℕ) × (i < nasid)
      × (is_set three i ≡ false)
      × ((j : ℕ) → j < i → is_set three j ≡ true)
      × ((asid_alloc three).0 ≡ ok i)
      × ((j : ℕ) → is_set (asid_alloc three).1 j ≡ (if j == i then true else is_set three j)))
    ⊎ (((j : ℕ) → j < nasid → is_set three j ≡ true)
        × (asid_alloc three ≡ (err no_free_env, three)))
asid_alloc_example = asid_alloc_lem three
