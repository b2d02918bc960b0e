-- ===== src/Fs/Ops.antt =====
-- fs/fs.c: sizes, and writing files back to the disk.
use os_challenging_mission.Base.{
  ℕ, zero, suc, ◌+◌, ◌-◌, ◌*◌, ◌/◌, ◌%◌, ◌^◌, false, ◌&&◌, List, ◌==◌, ltb, leb, if◌then◌else◌,
}
use os_challenging_mission.Errors.{M, Outcome, ok, err, panicked, ◌>>=◌, ◌>>◌, pure}
use os_challenging_mission.Fs.{
  Fs, store, block_size, diskmap, s_nblocks, block_is_dirty, write_block, dirty_block, read_block,
  user_spin_lock, user_spin_unlock,
}
use os_challenging_mission.Fs.Blocks.{free_block}
use os_challenging_mission.Fs.File.{
  f_size, f_dir, f_indirect, file_clear_block, file_map_block, ndirect,
}
use os_challenging_mission.Fs.Dir.{store_byte}
use os_challenging_mission.Fs.Path.{file_open}

-- `ROUND(size, BLOCK_SIZE) / BLOCK_SIZE` on 32 bits
unfoldable pub blocks_of : ℕ → ℕ
blocks_of size = (size + (block_size - 1)) % 2 ^ 32 / block_size

-- A `struct File *` that a word holds.
abbrev pub file_at : ℕ → ℕ
file_at p = (p - diskmap) / 4

-- `panic_on(...)`, and what follows it
unfoldable pub panic_on : M Fs (Unit {0}) → Outcome (Unit {0}) → M Fs (Unit {0})
panic_on rest (ok _) s = rest s
panic_on rest _ s = (panicked, s)

-- `panic_on(file_clear_block(f, bno))`: `n` rounds from `bno`.
unfoldable pub clear_blocks : ℕ → ℕ → ℕ → M Fs (Unit {0})
unfolding file_clear_block panic_on
clear_blocks f zero bno s = (ok tt, s)
clear_blocks f (suc n) bno s =
    let rest = clear_blocks f n (suc bno) in
    panic_on rest (file_clear_block f bno s).0 (file_clear_block f bno s).1

-- `if (f->f_indirect) { free_block(f->f_indirect); f->f_indirect = 0; }`
unfoldable pub drop_indirect : ℕ → Fs → Fs
unfolding free_block
drop_indirect f s =
    if s.mem (f_indirect f) == 0
    then s
    else store (f_indirect f) 0 (free_block (s.mem (f_indirect f)) s)

-- What follows the loop of `file_truncate`.
abbrev pub end_truncate : (f newsize new_nblocks : ℕ) → M Fs (Unit {0})
end_truncate f newsize new_nblocks s =
    (ok tt, store (f_size f) newsize (if leb new_nblocks ndirect then drop_indirect f s else s))

unfoldable pub file_truncate : ℕ → ℕ → M Fs (Unit {0})
unfolding blocks_of clear_blocks drop_indirect
file_truncate f newsize s =
    let old_nblocks = blocks_of (s.mem (f_size f)) in
    let new_nblocks = if newsize == 0 then 0 else blocks_of newsize in
    (do clear_blocks f (old_nblocks - new_nblocks) new_nblocks; end_truncate f newsize new_nblocks)
      s

-- `if (block_is_dirty(diskbno)) write_block(diskbno);`
unfoldable pub write_if_dirty : ℕ → M Fs (Unit {0})
unfolding block_is_dirty write_block
write_if_dirty b s = if block_is_dirty b s then write_block b s else (ok tt, s)

-- What follows `file_map_block` in `file_flush`. A block that is not there is passed over.
unfoldable pub flush_found : M Fs (Unit {0}) → Outcome ℕ → M Fs (Unit {0})
unfolding write_if_dirty
flush_found rest (ok diskbno) s = (do write_if_dirty diskbno; rest) s
flush_found rest (err _) s = rest s
flush_found rest _ s = (panicked, s)

-- The loop of `file_flush`: `n` rounds from `bno`.
unfoldable pub flush_blocks : ℕ → ℕ → ℕ → M Fs (Unit {0})
unfolding file_map_block flush_found
flush_blocks f zero bno s = (ok tt, s)
flush_blocks f (suc n) bno s =
    let rest = flush_blocks f n (suc bno) in
    flush_found rest (file_map_block f bno false s).0 (file_map_block f bno false s).1

unfoldable pub file_flush : ℕ → M Fs (Unit {0})
unfolding flush_blocks blocks_of
file_flush f s = flush_blocks f (blocks_of (s.mem (f_size f))) 0 s

-- `if (f->f_dir) file_flush(f->f_dir);`
unfoldable pub flush_dir : ℕ → M Fs (Unit {0})
unfolding file_flush
flush_dir f s =
    if s.mem (f_dir f) == 0 then (ok tt, s) else file_flush (file_at (s.mem (f_dir f))) s

-- `if (f->f_size > newsize) file_truncate(f, newsize);`
abbrev pub truncate_to : ℕ → ℕ → M Fs (Unit {0})
truncate_to f newsize s =
    if ltb newsize (s.mem (f_size f)) then file_truncate f newsize s else (ok tt, s)

abbrev pub set_f_size : ℕ → ℕ → M Fs (Unit {0})
set_f_size f newsize s = (ok tt, store (f_size f) newsize s)

unfoldable pub file_set_size : ℕ → ℕ → M Fs (Unit {0})
unfolding file_truncate flush_dir
file_set_size f newsize = do truncate_to f newsize; set_f_size f newsize; flush_dir f

-- The loop of `fs_sync`: `n` blocks from block `i`.
unfoldable pub sync_blocks : ℕ → ℕ → M Fs (Unit {0})
unfolding write_if_dirty
sync_blocks zero i s = (ok tt, s)
sync_blocks (suc n) i s = let rest = sync_blocks n (suc i) in (do write_if_dirty i; rest) s

unfoldable pub fs_sync : M Fs (Unit {0})
unfolding sync_blocks user_spin_lock user_spin_unlock
fs_sync = do user_spin_lock; λ s. sync_blocks (s_nblocks s) 0 s; user_spin_unlock

-- What a round of the loop of `file_close` does with the directory block that it has read: the one
-- with `f` is marked, and an error ends the loop.
unfoldable pub mark_found : ℕ → M Fs (Unit {0}) → Outcome ℕ → M Fs (Unit {0})
unfolding dirty_block
mark_found f rest (ok b) s =
    if leb (1024 * b) f && ltb f (1024 * b + 1024) then (ok tt, (dirty_block b s).1) else rest s
mark_found f rest (err e) s = (ok tt, s)
mark_found f rest _ s = (panicked, s)

-- `file_map_block(dir, i, &diskbno, 0)` and `read_block(diskbno, &files, 0)`; the result is `diskbno`.
abbrev pub dir_block : ℕ → ℕ → M Fs ℕ
dir_block dir i = do diskbno ← file_map_block dir i false; read_block diskbno; pure diskbno

-- The loop of `file_close` over the blocks of the directory: `n` blocks from block `i`.
unfoldable pub mark_entry : ℕ → ℕ → ℕ → ℕ → M Fs (Unit {0})
unfolding file_map_block read_block mark_found
mark_entry f dir zero i s = (ok tt, s)
mark_entry f dir (suc n) i s =
    let rest = mark_entry f dir n (suc i) in
    mark_found f rest (dir_block dir i s).0 (dir_block dir i s).1

-- `if (f->f_dir)` in `file_close`
unfoldable pub close_in : ℕ → ℕ → M Fs (Unit {0})
unfolding mark_entry file_flush
close_in f dir s =
    if dir == 0
    then (ok tt, s)
    else (do
      λ t. mark_entry f (file_at dir) (t.mem (f_size (file_at dir)) / block_size) 0 t
      file_flush (file_at dir))
        s

unfoldable pub file_close : ℕ → M Fs (Unit {0})
unfolding file_flush close_in
file_close f = do file_flush f; λ s. close_in f (s.mem (f_dir f)) s

-- Steps 2 to 4 of `file_remove`.
unfoldable pub remove_file : ℕ → M Fs (Unit {0})
unfolding file_truncate file_flush flush_dir
remove_file f = do
  file_truncate f 0
  λ s. (ok tt, store_byte (4 * f) 0 s)
  file_flush f
  flush_dir f

unfoldable pub file_remove : List ℕ → M Fs (Unit {0})
unfolding file_open remove_file
file_remove path = do f ← file_open path; remove_file f
