-- ===== src/Fs/Examples.antt =====
-- A small file system: 64 blocks, of which blocks 0 to 3 are in use and in the cache, and the root
-- directory has the empty file "a" in block 3.
use os_challenging_mission.Base.{
  ℕ, ◌+◌, ◌*◌, ◌/◌, ◌≡◌, refl, true, false, ◌&&◌, List, [], ◌∷◌, arith, ◌==◌, ltb, if◌then◌else◌,
  none,
}
use os_challenging_mission.Errors.{ok}
use os_challenging_mission.Fs.{
  Fs, fs_magic, diskmap, block_is_mapped, block_is_free, block_is_dirty, write_block, map_block,
  mem_alloc, unmap_block, read_block,
}
use os_challenging_mission.Fs.Blocks.{
  find_free, take_block, alloc_block_num, map_done, map_or_free, alloc_block,
}
use os_challenging_mission.Fs.File.{
  f_dir, file_block_walk, map_slot, file_map_block, file_get_block,
}
use os_challenging_mission.Fs.Dir.{
  strcmp, has_name, find_entry, lookup_found, lookup_blocks, dir_lookup,
}
use os_challenging_mission.Fs.Path.{s_root, slash, walk_path}
use os_challenging_mission.Fs.Ops.{fs_sync}
use os_challenging_mission.Fs.Allocation.{HasBitmap, Numbered, alloc_block_num_lem}
use os_challenging_mission.Fs.Allocating.{Allocated, alloc_block_lem}
use os_challenging_mission.Fs.Cache.{fs_sync_lem, read_block-unmap_block}
use os_challenging_mission.Fs.Walk.{walk_names, walk_path-names}
use os_challenging_mission.Fs.Lookup.{IsString, dir_lookup_lem}

-- The word and the value of each word that is not 0.
abbrev words : List (ℕ × ℕ)
words =
    (1024, fs_magic)
    ∷ (1025, 64)
    ∷ (1058, 4096)
    ∷ (1059, 1)
    ∷ (1060, 3)
    ∷ (2048, 0xfffffff0)
    ∷ (2049, 0xffffffff)
    ∷ (3072, 97)
    ∷ []

abbrev word_of : List (ℕ × ℕ) → ℕ → ℕ
word_of [] w = 0
word_of ((a, v) ∷ l) w = let rest = word_of l w in if w == a then v else rest

abbrev pub small : Fs
small = record {
  mem = word_of words;
  disk = λ _. 0;
  is_mapped = λ b. ltb b 4;
  is_dirty = λ b. b == 3;
  frames = 1;
  has_super = true;
  has_bitmap = true;
  is_locked = false;
}

-- The entry of "a".
abbrev entry : ℕ
entry = 3072

abbrev a_name : List ℕ
a_name = 97 ∷ []

small-HasBitmap : HasBitmap small
unfolding block_is_mapped
small-HasBitmap b h = ground (arith, h)

taken : (alloc_block_num small).0 ≡ ok 4
unfolding alloc_block_num find_free take_block write_block block_is_mapped
taken = refl

mapped : (file_map_block entry 0 true small).0 ≡ ok 4
unfolding file_map_block file_block_walk map_slot alloc_block alloc_block_num find_free take_block
    write_block block_is_mapped map_or_free map_done map_block mem_alloc
mapped = refl

looked_up : (dir_lookup s_root a_name small).0 ≡ ok entry
unfolding dir_lookup lookup_blocks file_get_block file_map_block file_block_walk map_slot read_block
    block_is_free block_is_mapped find_entry has_name strcmp lookup_found
looked_up = refl

in_use : block_is_free 3 small ≡ false
unfolding block_is_free
in_use = refl

in_cache : block_is_mapped 3 small ≡ true
unfolding block_is_mapped
in_cache = refl

is_clean : block_is_dirty 3 small ≡ false → (w : ℕ) → w / 1024 ≡ 3 → small.disk w ≡ small.mem w
unfolding block_is_dirty
is_clean h = absurd (ground (arith, h))

alloc_block_num_example : Numbered small (alloc_block_num small)
alloc_block_num_example = alloc_block_num_lem small small-HasBitmap

alloc_block_example : Allocated small (alloc_block small)
alloc_block_example = alloc_block_lem small small-HasBitmap

dir_lookup_example :
    IsString a_name (4 * entry) (dir_lookup s_root a_name small).1
    × ((dir_lookup s_root a_name small).1.mem (f_dir entry) ≡ diskmap + 4 * s_root)
dir_lookup_example = dir_lookup_lem s_root a_name small entry (omega arith) looked_up

abbrev slash_a : List ℕ
slash_a = slash ∷ slash ∷ 97 ∷ slash ∷ []

walk_path_example : walk_path slash_a small ≡ walk_names (a_name ∷ []) none s_root small
walk_path_example = walk_path-names slash_a small

fs_sync_example :
    (fs_sync small ≡ (ok tt, record small { disk = (fs_sync small).1.disk }))
    × ((w : ℕ)
        → (fs_sync small).1.disk w
          ≡ (if ltb (w / 1024) 64 && block_is_dirty (w / 1024) small then small.mem w else 0))
fs_sync_example = fs_sync_lem small refl

read_block_example :
    ((unmap_block 3 small).0 ≡ ok tt)
    × ((read_block 3 (unmap_block 3 small).1).0 ≡ ok true)
    × ((w : ℕ) → (read_block 3 (unmap_block 3 small).1).1.mem w ≡ small.mem w)
read_block_example =
    read_block-unmap_block 3 small in_cache in_use (omega arith) (omega arith) is_clean
