-- ===== src/Kernel/Device/Examples.antt =====
-- Accesses to the disk and past all devices.
use os_challenging_mission.Base.{◌+◌, ◌%◌, ◌^◌, ◌≤◌, ◌≡◌, ◌⊎◌, inr, refl, false, arith}
use os_challenging_mission.Kernel.Device.{
  is_illegal_dev_range, in_device, InDevice, Width, is_illegal_dev_range_lem,
  is_illegal_dev_range_passes,
}

-- A word at the start of the disk's registers passes, and so does the last word of all.
disk_word_passes : is_illegal_dev_range 0x180001f0 4 ≡ false
unfolding is_illegal_dev_range in_device
disk_word_passes = refl

is_illegal_dev_range_example :
    (0x180001f0 % 4 ≡ 0) × (InDevice 0x180001f0 4 ⊎ (2 ^ 32 ≤ 0x180001f0 + 4))
is_illegal_dev_range_example =
    is_illegal_dev_range_lem 0x180001f0 4 Width.word (ground arith) disk_word_passes

last_word_example : is_illegal_dev_range 0xfffffffc 4 ≡ false
last_word_example =
    is_illegal_dev_range_passes 0xfffffffc 4 Width.word (ground arith) refl (inr refl)
