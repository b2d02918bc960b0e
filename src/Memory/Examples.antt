-- ===== src/Memory/Examples.antt =====
-- Copies of a few bytes.
use os_challenging_mission.Base.{
  ◌+◌, ◌-◌, ◌≡◌, inl, refl, ◌&&◌, arith, ltb, leb, if◌then◌else◌, ◌%◌,
}
use os_challenging_mission.Memory.Fill.{memset, memset_lem}
use os_challenging_mission.Memory.{memcpy, align, copy_words, copy_bytes}
use os_challenging_mission.Memory.Copy.{memcpy_lem}

-- Nine bytes to an address that is aligned as the source is: three bytes, a word and two bytes.
copies_nine : memcpy 1001 2001 9 (λ a. a) 1009 ≡ 2009
unfolding memcpy align copy_words copy_bytes
copies_nine = refl

memcpy_example :
    memcpy 1001 2001 9 (λ a. a) 1005
    ≡ (if leb 1001 1005 && ltb 1005 (1001 + 9) then 2001 + (1005 - 1001) else 1005)
memcpy_example = memcpy_lem 1001 2001 9 (λ a. a) (inl (ground arith)) 1005

-- Ten bytes from an odd address.
memset_example :
    memset 1001 511 10 (λ a. a) 1006
    ≡ (if leb 1001 1006 && ltb 1006 (1001 + 10) then 511 % 256 else 1006)
memset_example = memset_lem 1001 511 10 (λ a. a) 1006
