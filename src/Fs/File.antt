-- ===== src/Fs/File.antt =====
-- fs/fs.c: the blocks of a file. A `struct File *` is the word where the structure begins.
use os_challenging_mission.Base.{ℕ, ◌+◌, ◌*◌, ◌/◌, Bool, true, false, not, ◌==◌, ltb, if◌then◌else◌}
use os_challenging_mission.Errors.{M, ok, err, not_found, inval, ◌>>=◌, ◌>>◌, pure}
use os_challenging_mission.Fs.{Fs, store, read_block, dirty_block, block_size}
use os_challenging_mission.Fs.Blocks.{alloc_block, free_block}

abbrev pub ndirect : ℕ
ndirect = 10

abbrev pub nindirect : ℕ
nindirect = 1024

-- The words of `f->f_size`, `f->f_type`, `f->f_direct[i]`, `f->f_indirect` and `f->f_dir`.
abbrev pub f_size : ℕ → ℕ
f_size f = f + 32

abbrev pub f_type : ℕ → ℕ
f_type f = f + 33

abbrev pub f_direct : ℕ → ℕ → ℕ
f_direct f i = f + 34 + i

abbrev pub f_indirect : ℕ → ℕ
f_indirect f = f + 44

abbrev pub f_dir : ℕ → ℕ
f_dir f = f + 45

-- Step 2 of `file_block_walk`.
unfoldable pub make_indirect : ℕ → Bool → M Fs (Unit {0})
unfolding alloc_block
make_indirect f alloc s =
    if not (s.mem (f_indirect f) == 0)
    then (ok tt, s)
    else if not alloc
    then (err not_found, s)
    else (do r ← alloc_block; λ t. (ok tt, store (f_indirect f) r t)) s

-- Step 3: the block number's word in the indirect block.
unfoldable pub indirect_slot : ℕ → ℕ → M Fs ℕ
unfolding read_block
indirect_slot f filebno s =
    (do read_block (s.mem (f_indirect f)); λ t. (ok (1024 * s.mem (f_indirect f) + filebno), t)) s

unfoldable pub file_block_walk : ℕ → ℕ → Bool → M Fs ℕ
unfolding make_indirect indirect_slot
file_block_walk f filebno alloc s =
    if ltb filebno ndirect
    then (ok (f_direct f filebno), s)
    else if ltb filebno nindirect
    then (do make_indirect f alloc; indirect_slot f filebno) s
    else (err inval, s)

-- Steps 2 and 3 of `file_map_block`, with the slot `p`.
unfoldable pub map_slot : Bool → ℕ → M Fs ℕ
unfolding alloc_block
map_slot alloc p s =
    if not (s.mem p == 0)
    then (ok (s.mem p), s)
    else if not alloc
    then (err not_found, s)
    else (do r ← alloc_block; λ t. (ok r, store p r t)) s

unfoldable pub file_map_block : ℕ → ℕ → Bool → M Fs ℕ
unfolding file_block_walk map_slot
file_map_block f filebno alloc = do p ← file_block_walk f filebno alloc; map_slot alloc p

unfoldable pub clear_slot : ℕ → M Fs (Unit {0})
unfolding free_block
clear_slot p s = if s.mem p == 0 then (ok tt, s) else (ok tt, store p 0 (free_block (s.mem p) s))

unfoldable pub file_clear_block : ℕ → ℕ → M Fs (Unit {0})
unfolding file_block_walk clear_slot
file_clear_block f filebno = do p ← file_block_walk f filebno false; clear_slot p

-- The result is the first word of the block.
unfoldable pub file_get_block : ℕ → ℕ → M Fs ℕ
unfolding file_map_block read_block
file_get_block f filebno = do
  diskbno ← file_map_block f filebno true
  read_block diskbno
  pure (1024 * diskbno)

unfoldable pub file_dirty : ℕ → ℕ → M Fs (Unit {0})
unfolding file_map_block dirty_block
file_dirty f offset = do diskbno ← file_map_block f (offset / block_size) false; dirty_block diskbno
