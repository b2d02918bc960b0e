-- ===== src/Fs/Cache.antt =====
-- fs/fs.c: blocks between the cache and the disk.
use os_challenging_mission.Base.{
  ℕ, zero, suc, ◌+◌, ◌-◌, ◌/◌, ◌<◌, ◌≡◌, inl, inr, refl, ap, ◌∙◌, subst, true, false, ◌&&◌, arith,
  ◌==◌, ltb, leb, if◌then◌else◌, Bool-cases, update, ℕ_discrete, update_same,
}
use os_challenging_mission.Errors.{ok, and_then}
use os_challenging_mission.Fs.{
  Fs, bitmap, s_nblocks, copy_block, block_size_bit, mem_unmap, mem_alloc, block_is_mapped,
  block_is_dirty, block_is_free, write_block, unmap_block, read_block, user_spin_lock,
  user_spin_unlock,
}
use os_challenging_mission.Fs.Ops.{fs_sync, sync_blocks, write_if_dirty}

-- The disk with the blocks from `i` that are dirty written to it: `n` blocks.
written : ℕ → ℕ → Fs → (ℕ → ℕ) → ℕ → ℕ
written zero i s d = d
written (suc n) i s d = written n (suc i) s (if block_is_dirty i s then copy_block i s.mem d else d)

abbrev with_disk : Fs → (ℕ → ℕ) → Fs
with_disk s d = record s { disk = d }

write_if_dirty-with_disk :
    (b : ℕ) (s : Fs) (d : ℕ → ℕ)
    → write_if_dirty b (with_disk s d)
      ≡ (ok tt, with_disk s (if block_is_dirty b s then copy_block b s.mem d else d))
unfolding write_if_dirty write_block block_is_dirty block_is_mapped
write_if_dirty-with_disk b s d = elim (Bool-cases (s.is_mapped b)) [
  | inl e ↦ elim (Bool-cases (s.is_dirty b)) [ inl f ↦ rw (e, f) refl | inr f ↦ rw (e, f) refl ]
  | inr e ↦ rw e refl
]

sync_blocks-with_disk :
    (n i : ℕ) (s : Fs) (d : ℕ → ℕ)
    → sync_blocks n i (with_disk s d) ≡ (ok tt, with_disk s (written n i s d))
unfolding sync_blocks written
sync_blocks-with_disk zero i s d = refl
sync_blocks-with_disk (suc n) i s d =
    ap (λ r. and_then r (λ _. sync_blocks n (suc i))) (write_if_dirty-with_disk i s d)
    ∙ sync_blocks-with_disk n (suc i) s (if block_is_dirty i s then copy_block i s.mem d else d)

-- A word of the disk when the `n` blocks from `i` that are dirty have been written over `d`.
abbrev synced : ℕ → ℕ → Fs → (ℕ → ℕ) → ℕ → ℕ
synced n i s d w =
    if leb i (w / 1024) && ltb (w / 1024) (i + n) && block_is_dirty (w / 1024) s
    then s.mem w
    else d w

synced-suc :
    (n i : ℕ) (s : Fs) (d : ℕ → ℕ) (w : ℕ)
    → synced n (suc i) s (if block_is_dirty i s then copy_block i s.mem d else d) w
      ≡ synced (suc n) i s d w
synced-suc n i s d w = elim (ℕ_discrete (w / 1024) i) [
  | yes e ↦
      subst
        (λ i.
          synced n (suc i) s (if block_is_dirty i s then copy_block i s.mem d else d) w
          ≡ synced (suc n) i s d w)
        e (ground arith)
  | no h ↦ elim (Bool-cases (block_is_dirty i s)) [
    | inl f ↦ rw f (ground (arith, h))
    | inr f ↦ rw f (ground (arith, h))
  ]
]

written-synced : (n i : ℕ) (s : Fs) (d : ℕ → ℕ) (w : ℕ) → written n i s d w ≡ synced n i s d w
unfolding written
written-synced zero i s d w = ground arith
written-synced (suc n) i s d w =
    written-synced n (suc i) s (if block_is_dirty i s then copy_block i s.mem d else d) w
    ∙ synced-suc n i s d w

-- If `fs_lock` is free, `fs_sync` returns. It changes nothing but the disk, where each word of a block
-- of the file system that is dirty becomes what the cache has, and each other word stays.
pub fs_sync_lem :
    (s : Fs)
    → s.is_locked ≡ false
    → (fs_sync s ≡ (ok tt, record s { disk = (fs_sync s).1.disk }))
      × ((w : ℕ)
          → (fs_sync s).1.disk w ≡ (
              if ltb (w / 1024) (s_nblocks s) && block_is_dirty (w / 1024) s
              then s.mem w
              else s.disk w))
unfolding fs_sync user_spin_lock user_spin_unlock block_is_dirty
fs_sync_lem s h =
    let done = sync_blocks-with_disk (s_nblocks s) 0 (record s { is_locked = true }) s.disk in
    rw (h, done)
      (
        refl,
        λ w. written-synced (s_nblocks s) 0 (record s { is_locked = true }) s.disk w ∙ ground arith,
      )

-- The cache without block `b`, which was mapped.
abbrev gone : ℕ → Fs → Fs
gone b s = record s {
  frames = if s.is_mapped b then s.frames + 1 else s.frames;
  is_mapped = update s.is_mapped b false;
  is_dirty = update s.is_dirty b false;
  mem = copy_block b (λ _. 0) s.mem;
}

abbrev flushed : ℕ → Fs → ℕ → ℕ
flushed b s = if block_is_dirty b s then copy_block b s.mem s.disk else s.disk

unmap_block-gone :
    (b : ℕ) (s : Fs)
    → block_is_mapped b s ≡ true
    → block_is_free b s ≡ false
    → unmap_block b s ≡ mem_unmap b (with_disk s (flushed b s))
unfolding unmap_block block_is_dirty block_is_mapped write_block
unmap_block-gone b s h k = elim (Bool-cases (s.is_dirty b)) [
  | inl e ↦ rw (h, k, e) refl
  | inr e ↦ rw (h, k, e) refl
]

abbrev loaded : ℕ → Fs → Fs
loaded b t = record t {
  frames = t.frames - 1;
  is_mapped = update t.is_mapped b true;
  is_dirty = update t.is_dirty b false;
  mem = copy_block b t.disk (copy_block b (λ _. 0) t.mem);
}

read_block-loaded :
    (b : ℕ) (t : Fs)
    → t.has_super && leb (s_nblocks t) b ≡ false
    → t.has_bitmap && block_is_free b t ≡ false
    → t.is_mapped b ≡ false
    → (t.frames == 0) ≡ false
    → read_block b t ≡ (ok true, loaded b t)
unfolding read_block block_is_mapped mem_alloc
read_block-loaded b t p q m f = rw (p, q, m, f) refl

module _ (b : ℕ) (s : Fs) (h : b < s_nblocks s) (k : s_nblocks s / block_size_bit + 2 < b) where
  nblocks-gone : s_nblocks (gone b s) ≡ s_nblocks s
  nblocks-gone = ground (arith, k)

  bitmap-gone : bitmap (gone b s) (b / 32) ≡ bitmap s (b / 32)
  bitmap-gone = ground (arith, h, k)

  is_free-gone : block_is_free b s ≡ false → block_is_free b (gone b s) ≡ false
  unfolding block_is_free
  is_free-gone f = rw (nblocks-gone, bitmap-gone) f

  read_block-gone :
      s.is_mapped b ≡ true
      → block_is_free b s ≡ false
      → read_block b (gone b s) ≡ (ok true, loaded b (gone b s))
  read_block-gone m f =
      read_block-loaded b (gone b s) (rw nblocks-gone (ground (arith, h)))
        (rw (is_free-gone f) (ground arith)) (update_same s.is_mapped b false) (rw m (ground arith))

-- A block in use that is mapped, and not one of the superblock and the bitmap, has after `unmap_block`
-- and `read_block` the words that it had, and so has every other block, if it was dirty or as on the
-- disk. Both calls return, the second with `isnew`.
pub read_block-unmap_block :
    (b : ℕ) (s : Fs)
    → block_is_mapped b s ≡ true
    → block_is_free b s ≡ false
    → b < s_nblocks s
    → s_nblocks s / block_size_bit + 2 < b
    → (block_is_dirty b s ≡ false → (w : ℕ) → w / 1024 ≡ b → s.disk w ≡ s.mem w)
    → ((unmap_block b s).0 ≡ ok tt)
      × ((read_block b (unmap_block b s).1).0 ≡ ok true)
      × ((w : ℕ) → (read_block b (unmap_block b s).1).1.mem w ≡ s.mem w)
unfolding block_is_mapped block_is_free mem_unmap
read_block-unmap_block b s m f h k c =
    let back : read_block b (gone b (with_disk s (flushed b s)))
        ≡ (ok true, loaded b (gone b (with_disk s (flushed b s)))) =
      read_block-gone b (with_disk s (flushed b s)) h k m f in
    rw (unmap_block-gone b s m f, back)
      (
        refl,
        refl,
        λ w. elim (Bool-cases (block_is_dirty b s)) [
          | inl e ↦ rw e (ground arith)
          | inr e ↦ rw e (ground (arith, c e w))
        ],
      )
