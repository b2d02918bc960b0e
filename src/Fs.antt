-- ===== src/Fs.antt =====
-- fs/fs.c: the block cache of the file system server.
-- Word `w` of the cache stands at DISKMAP + 4 * w, so block `b` is the 1024 words from 1024 * b, and a
-- pointer into the cache is the number of its word. `disk` numbers the words of the disk alike:
-- `ide_read` and `ide_write` move the eight sectors of a block. `is_mapped` and `is_dirty` are the
-- PTE_V and PTE_DIRTY of the cache's pages, `frames` how many pages `syscall_mem_alloc` can still
-- give, `has_super` and `has_bitmap` whether the two pointers are set, and `is_locked` the spin lock
-- `fs_lock`.
pub mod Blocks
pub mod File
pub mod Dir
pub mod Path
pub mod Ops
mod Allocation
mod Allocating
mod Cache
mod Walk
mod Mapping
mod Lookup
pub mod Sizes
pub mod Examples
use os_challenging_mission.Base.{
  ℕ, zero, suc, ◌+◌, ◌-◌, ◌*◌, ◌/◌, ◌%◌, ◌^◌, ◌≤◌, ◌<◌, ◌≡◌, ◌≢◌, ◌⊎◌, ◌↔◌, inl, inr, refl, sym, ap,
  ◌∙◌, subst, Bool, true, false, not, ◌&&◌, ◌||◌, List, [], ◌∷◌, ◌++◌, arith, ◌==◌, ltb, leb,
  if◌then◌else◌, Option, none, some, Bool-cases, Option-cases, List-cases, update, count, length,
}
use os_challenging_mission.Base.Bitmap.{Bitmap, is_set}
use os_challenging_mission.Errors.{M, ok, err, panicked, waiting, no_mem, not_found, ◌>>=◌, ◌>>◌}

pub record Fs : Type 0 where
  pub mem : ℕ → ℕ
  pub disk : ℕ → ℕ
  pub is_mapped : ℕ → Bool
  pub is_dirty : ℕ → Bool
  pub frames : ℕ
  pub has_super : Bool
  pub has_bitmap : Bool
  pub is_locked : Bool

abbrev pub diskmap : ℕ
diskmap = 0x10000000

abbrev pub diskmax : ℕ
diskmax = 0x40000000

abbrev pub block_size : ℕ
block_size = 4096

-- BLOCK_SIZE_BIT
abbrev pub block_size_bit : ℕ
block_size_bit = 32768

abbrev pub fs_magic : ℕ
fs_magic = 0x68286097

-- The words of block `b` from `from`, the others from `to`.
abbrev pub copy_block : (b : ℕ) (from to : ℕ → ℕ) → ℕ → ℕ
copy_block b from to w = if w / 1024 == b then from w else to w

abbrev pub store : ℕ → ℕ → Fs → Fs
store w v s = record s { mem = update s.mem w v }

-- A call that finds `fs_lock` taken spins. Only the one server takes it, so the spin does not end.
unfoldable pub user_spin_lock : M Fs (Unit {0})
user_spin_lock s = if s.is_locked then (waiting, s) else (ok tt, record s { is_locked = true })

unfoldable pub user_spin_unlock : M Fs (Unit {0})
user_spin_unlock s = (ok tt, record s { is_locked = false })

-- `super->s_magic` and `super->s_nblocks`: the superblock is block 1.
abbrev pub s_magic : Fs → ℕ
s_magic s = s.mem 1024

abbrev pub s_nblocks : Fs → ℕ
s_nblocks s = s.mem 1025

-- `bitmap[i]`: the bitmap begins at block 2.
abbrev pub bitmap : Fs → Bitmap
bitmap s i = s.mem (2048 + i)

unfoldable pub block_is_mapped : ℕ → Fs → Bool
block_is_mapped b s = s.is_mapped b

unfoldable pub block_is_dirty : ℕ → Fs → Bool
block_is_dirty b s = s.is_mapped b && s.is_dirty b

unfoldable pub dirty_block : ℕ → M Fs (Unit {0})
dirty_block b s =
    if not (s.is_mapped b)
    then (err not_found, s)
    else if s.is_dirty b
    then (ok tt, s)
    else (ok tt, record s { is_dirty = update s.is_dirty b true })

unfoldable pub write_block : ℕ → M Fs (Unit {0})
unfolding block_is_mapped
write_block b s =
    if not (block_is_mapped b s)
    then (panicked, s)
    else (ok tt, record s { disk = copy_block b s.mem s.disk })

-- `syscall_mem_alloc(0, disk_addr(b), PTE_D)`: a page of zeros, not dirty.
unfoldable pub mem_alloc : ℕ → M Fs (Unit {0})
mem_alloc b s = if s.frames == 0 then (err no_mem, s) else (
  ok tt,
  record s {
    frames = s.frames - 1;
    is_mapped = update s.is_mapped b true;
    is_dirty = update s.is_dirty b false;
    mem = copy_block b (λ _. 0) s.mem;
  },
)

unfoldable pub map_block : ℕ → M Fs (Unit {0})
unfolding block_is_mapped mem_alloc
map_block b s = if block_is_mapped b s then (ok tt, s) else mem_alloc b s

-- `bitmap[b / 32] & (1 << (b % 32))` is set for a free block.
unfoldable pub block_is_free : ℕ → Fs → Bool
block_is_free b s = if not s.has_super || leb (s_nblocks s) b then false else is_set (bitmap s) b

-- `ide_read` of a block that has just been given a page
abbrev pub load_block : ℕ → M Fs (Unit {0})
load_block b s = (ok tt, record s { mem = copy_block b s.disk s.mem })

-- The result is `isnew`; `*blk` is always word 1024 * b.
unfoldable pub read_block : ℕ → M Fs Bool
unfolding block_is_free block_is_mapped mem_alloc
read_block b s =
    if s.has_super && leb (s_nblocks s) b
    then (panicked, s)
    else if s.has_bitmap && block_is_free b s
    then (panicked, s)
    else if block_is_mapped b s
    then (ok false, s)
    else (do mem_alloc b; load_block b; λ t. (ok true, t)) s

-- `syscall_mem_unmap(0, va)`: what the page held is lost.
unfoldable pub mem_unmap : ℕ → M Fs (Unit {0})
mem_unmap b s = (
  ok tt,
  record s {
    frames = if s.is_mapped b then s.frames + 1 else s.frames;
    is_mapped = update s.is_mapped b false;
    is_dirty = update s.is_dirty b false;
    mem = copy_block b (λ _. 0) s.mem;
  },
)

-- A block that is not mapped makes `va` 0, and the kernel refuses to unmap that.
unfoldable pub unmap_block : ℕ → M Fs (Unit {0})
unfolding block_is_mapped block_is_free block_is_dirty write_block
unmap_block b s =
    (do
      λ t. if not (block_is_free b t) && block_is_dirty b t then write_block b t else (ok tt, t)
      λ t. if block_is_mapped b s then mem_unmap b t else (panicked, t))
      s

-- `read_super`; `blk` is block 1.
unfoldable pub read_super : M Fs (Unit {0})
unfolding read_block
read_super s = elim (read_block 1 s).0 [
  | ok _ ↦
      let t = record ((read_block 1 s).1) { has_super = true } in
      if not (s_magic t == fs_magic)
      then (panicked, t)
      else if ltb (diskmax / block_size) (s_nblocks t)
      then (panicked, t)
      else (ok tt, t)
  | _ ↦ (panicked, (read_block 1 s).1)
]

-- `for (i = 0; i < nbitmap; i++) read_block(i + 2, blk, 0)`: `n` rounds from `i`. An error is passed
-- over, as the code does not look at it.
unfoldable pub read_bitmap_blocks : ℕ → ℕ → M Fs (Unit {0})
unfolding read_block
read_bitmap_blocks zero i s = (ok tt, s)
read_bitmap_blocks (suc n) i s =
    let rest = read_bitmap_blocks n (suc i) in
    elim (read_block (i + 2) s).0 [
      | panicked ↦ (panicked, (read_block (i + 2) s).1)
      | _ ↦ rest (read_block (i + 2) s).1
    ]

-- `user_assert(!block_is_free(i + 2))`
unfoldable pub bitmap_in_use : ℕ → ℕ → Fs → Bool
unfolding block_is_free
bitmap_in_use zero i s = true
bitmap_in_use (suc n) i s =
    let rest = bitmap_in_use n (suc i) s in not (block_is_free (i + 2) s) && rest

unfoldable pub read_bitmap : M Fs (Unit {0})
unfolding read_bitmap_blocks bitmap_in_use block_is_free
read_bitmap s =
    let nbitmap = s_nblocks s / block_size_bit + 1 in
    (do
      read_bitmap_blocks nbitmap 0
      λ t.
          let u = record t { has_bitmap = true } in
          if not (block_is_free 0 u) && not (block_is_free 1 u) && bitmap_in_use nbitmap 0 u
          then (ok tt, u)
          else (panicked, u))
      s
