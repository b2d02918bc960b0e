-- ===== src/Format/Examples.antt =====
-- Tests of the model of tools/fsformat.c, and its theorems at small images.
use os_challenging_mission.Errors.{ok, Outcome}
use os_challenging_mission.Fs.File.{f_direct}
use os_challenging_mission.Format.{
  Image, byte_of, reverse_block, put, set_type, block_super, zeroed, super_root, init_disk,
}
use os_challenging_mission.Format.Files.{Node, directory, entry, regular, closed, last, format}
use os_challenging_mission.Base.{◌≡◌, refl, [], ◌∷◌, arith}
use os_challenging_mission.Format.Served.{Mounts, finish_fs-Mounts}
use os_challenging_mission.Format.Turned.{IsTurned, reverse_block_lem}
use os_challenging_mission.Format.Mount.{init_disk-Formatted}

-- A directory "d" with the files "a", of one read, and "..", which is passed over.
abbrev tree : Node
tree =
    directory (
      entry (0x61 ∷ []) (regular 2 ((0x68 ∷ 0x69 ∷ []) ∷ []))
        (entry (0x2e ∷ 0x2e ∷ []) closed last))

abbrev run : Outcome (Unit {0}) × Image
run = format (λ path. path) ((0x64 ∷ [], tree) ∷ []) zeroed

-- Block 3 is the root's, with the entry of "d"; block 4 is that of "d", with the entry of "a", whose
-- data is block 5.
run_image :
    (run.0 ≡ ok tt)
    × (run.1.nextbno ≡ 6)
    × (run.1.words (f_direct super_root 0) ≡ 3)
    × (run.1.words 3072 ≡ 0x64)
    × (run.1.words (f_direct 3072 0) ≡ 4)
    × (run.1.words 4096 ≡ 0x61)
    × (run.1.words (f_direct 4096 0) ≡ 5)
    × (run.1.words 5120 ≡ 0x6968)
    × (run.1.words 2048 ≡ 0xffffffc0)
unfolding format
run_image = (refl, refl, refl, refl, refl, refl, refl, refl, refl)

-- A superblock as block 1.
abbrev labelled : Image
labelled = put 1024 0x01020304 (set_type 1 block_super zeroed)

-- The first byte of its magic number is the last afterwards.
reverse_block_example :
    (IsTurned 1 labelled 1024 → byte_of (reverse_block 1 labelled) 4099 ≡ byte_of labelled 4096)
    × (¬ IsTurned 1 labelled 1024 → (reverse_block 1 labelled).words 1024 ≡ 0x01020304)
reverse_block_example = reverse_block_lem 1 labelled 1024 3 (omega arith)

finish_fs_example : Mounts (init_disk zeroed) 2
finish_fs_example = finish_fs-Mounts (init_disk zeroed) 2 init_disk-Formatted (omega arith)
