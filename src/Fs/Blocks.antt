-- ===== src/Fs/Blocks.antt =====
-- fs/fs.c: which blocks are in use.
use os_challenging_mission.Base.{
  ℕ, zero, suc, ◌+◌, ◌-◌, ◌/◌, ◌%◌, ◌||◌, ◌==◌, leb, if◌then◌else◌, Option, none, some,
}
use os_challenging_mission.Base.Bitmap.{is_set}
use os_challenging_mission.Base.Bits.{set_bit, clear_bit}
use os_challenging_mission.Errors.{M, ok, err, panicked, no_disk, ◌>>=◌, ◌>>◌, Outcome}
use os_challenging_mission.Fs.{Fs, s_nblocks, bitmap, store, write_block, map_block, block_size_bit}

-- `bitmap[b / 32] |= 1 << (b & 0x1f)`
abbrev pub mark_free : ℕ → Fs → Fs
mark_free b s = store (2048 + b / 32) (set_bit (bitmap s (b / 32)) (b % 32)) s

-- `bitmap[b / 32] &= ~(1 << (b % 32))`
abbrev pub mark_used : ℕ → Fs → Fs
mark_used b s = store (2048 + b / 32) (clear_bit (bitmap s (b / 32)) (b % 32)) s

unfoldable pub free_block : ℕ → Fs → Fs
free_block b s = if b == 0 || leb (s_nblocks s) b then s else mark_free b s

-- The loop of `alloc_block_num`: the first free block in `n` rounds from `b`.
unfoldable pub find_free : ℕ → ℕ → Fs → Option ℕ
find_free zero b s = none
find_free (suc n) b s =
    let rest = find_free n (suc b) s in if is_set (bitmap s) b then some b else rest

-- What follows the loop: the block is marked and its bitmap block written to the disk.
unfoldable pub take_block : Option ℕ → M Fs ℕ
unfolding write_block
take_block none s = (err no_disk, s)
take_block (some b) s = (do write_block (b / block_size_bit + 2); λ t. (ok b, t)) (mark_used b s)

unfoldable pub alloc_block_num : M Fs ℕ
unfolding find_free take_block
alloc_block_num s = take_block (find_free (s_nblocks s - 3) 3 s) s

-- `if ((r = map_block(bno)) < 0) { free_block(bno); return r; }`, with what `map_block` returns
unfoldable pub map_done : ℕ → Outcome (Unit {0}) → M Fs ℕ
unfolding free_block
map_done b (ok _) s = (ok b, s)
map_done b (err e) s = (err e, free_block b s)
map_done b _ s = (panicked, s)

unfoldable pub map_or_free : ℕ → M Fs ℕ
unfolding map_block map_done
map_or_free b s = map_done b (map_block b s).0 (map_block b s).1

unfoldable pub alloc_block : M Fs ℕ
unfolding alloc_block_num map_or_free
alloc_block = do b ← alloc_block_num; map_or_free b
