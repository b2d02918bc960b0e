-- ===== src/Format/Served.antt =====
-- tools/fsformat.c and fs/fs.c: the file system server reads the image.
use os_challenging_mission.Base.{
  ℕ, ◌+◌, ◌-◌, ◌/◌, ◌≤◌, ◌<◌, ◌≡◌, ◌≢◌, refl, ap, ◌∙◌, Bool, true, false, not, ◌&&◌, arith, ◌==◌,
  ltb, leb, if◌then◌else◌, update, ==_ne,
}
use os_challenging_mission.Fs.{
  fs_magic, read_block, Fs, copy_block, block_is_mapped, s_nblocks, mem_alloc, read_super,
  read_bitmap, block_is_free, read_bitmap_blocks, bitmap_in_use, s_magic, diskmax,
}
use os_challenging_mission.Format.{nblock, ok, block_size, Image, finish_fs, flush_bitmap}
use os_challenging_mission.Base.Bitmap.{is_set}
use os_challenging_mission.Errors.{Outcome, and_then, panicked}
use os_challenging_mission.Format.Mount.{Formatted, image-magic, image-size, image-is_set, image}

-- The server before it has read anything, with the image as its disk.
abbrev pub unmounted : (ℕ → ℕ) → ℕ → Fs
unmounted d frames = record {
  mem = λ w. 0;
  disk = d;
  is_mapped = λ b. false;
  is_dirty = λ b. false;
  frames = frames;
  has_super = false;
  has_bitmap = false;
  is_locked = false;
}

-- A block that is not in the cache yet.
abbrev loaded : ℕ → Fs → Fs
loaded b s = record s {
  frames = s.frames - 1;
  is_mapped = update s.is_mapped b true;
  is_dirty = update s.is_dirty b false;
  mem = copy_block b s.disk (copy_block b (λ _. 0) s.mem);
}

read_block-loaded :
    (b : ℕ) (s : Fs)
    → (s.has_super && leb (s_nblocks s) b) ≡ false
    → s.has_bitmap ≡ false
    → s.is_mapped b ≡ false
    → s.frames ≢ 0
    → read_block b s ≡ (ok true, loaded b s)
unfolding read_block block_is_mapped mem_alloc block_is_free
read_block-loaded b s h m n f = rw (h, m, n, ==_ne s.frames 0 f) refl

-- `read_super` and `read_bitmap` after they have read their blocks.
super_read : Outcome Bool × Fs → Outcome (Unit {0}) × Fs
super_read r = elim r.0 [
  | ok _ ↦
      let t = record (r.1) { has_super = true } in
      if not (s_magic t == fs_magic)
      then (panicked, t)
      else if ltb (diskmax / block_size) (s_nblocks t)
      then (panicked, t)
      else (ok tt, t)
  | _ ↦ (panicked, r.1)
]

blocks_read : Outcome Bool × Fs → Outcome (Unit {0}) × Fs
blocks_read r = elim r.0 [ panicked ↦ (panicked, r.1) | _ ↦ (ok tt, r.1) ]

bitmap_read : ℕ → Outcome (Unit {0}) × Fs → Outcome (Unit {0}) × Fs
unfolding bitmap_in_use
bitmap_read nbitmap r = and_then r (λ _ t.
    let u = record t { has_bitmap = true } in
    if not (block_is_free 0 u) && not (block_is_free 1 u) && bitmap_in_use nbitmap 0 u
    then (ok tt, u)
    else (panicked, u))

module _ (d : ℕ → ℕ) (frames : ℕ) (magic : d 1024 ≡ fs_magic) (size : d 1025 ≡ nblock)
    (enough : 2 ≤ frames) where
  abbrev with_super : Fs
  with_super = record (loaded 1 (unmounted d frames)) { has_super = true }

  read_super-loaded : read_super (unmounted d frames) ≡ (ok tt, with_super)
  unfolding read_super super_read
  read_super-loaded =
      ap super_read
        (read_block-loaded 1 (unmounted d frames) refl refl refl (omega (arith, enough)))
      ∙ rw (magic, size) refl

  abbrev with_bitmap : Fs
  with_bitmap = record (loaded 2 with_super) { has_bitmap = true }

  free-loaded : (b : ℕ) → b < nblock → block_is_free b with_bitmap ≡ is_set (λ j. d (2048 + j)) b
  unfolding block_is_free
  free-loaded b h =
      let word : (2048 + b / 32) / 1024 ≡ 2 = omega (arith, h) in
      let inside : leb nblock b ≡ false = ground (arith, h) in rw (size, word, inside) refl

  read_bitmap-loaded :
      ((b : ℕ) → b < 3 → is_set (λ j. d (2048 + j)) b ≡ false)
      → read_bitmap with_super ≡ (ok tt, with_bitmap)
  unfolding read_bitmap read_bitmap_blocks bitmap_read blocks_read
  read_bitmap-loaded used =
      ap (λ n. bitmap_read n (read_bitmap_blocks n 0 with_super)) one
      ∙ ap (bitmap_read 1) (
          ap blocks_read
            (read_block-loaded 2 with_super (rw size refl) refl refl (omega (arith, enough))))
      ∙ in_use
    where
      one : s_nblocks with_super / 32768 + 1 ≡ 1
      one = rw size refl

      in_use : bitmap_read 1 (ok tt, loaded 2 with_super) ≡ (ok tt, with_bitmap)
      in_use =
          rw
            (
              free-loaded 0 (omega arith) ∙ used 0 (omega arith),
              free-loaded 1 (omega arith) ∙ used 1 (omega arith),
              free-loaded 2 (omega arith) ∙ used 2 (omega arith),
            )
            refl

-- The server reads the superblock and the bitmap without a panic, and takes for free exactly the
-- blocks that were not given out.
abbrev pub Mounts : Image → ℕ → Type 0
Mounts s frames =
    let m = unmounted (finish_fs false (flush_bitmap s)) frames in
    ((read_super m).0 ≡ ok tt)
    × ((read_bitmap (read_super m).1).0 ≡ ok tt)
    × ((b : ℕ) → b < nblock → block_is_free b (read_bitmap (read_super m).1).1 ≡ leb s.nextbno b)

-- An image whose superblock and bitmap are as `init_disk` left them when `flush_bitmap` and
-- `finish_fs` come is read by the file system server, if it can get two pages: `read_super` and
-- `read_bitmap` return, and a block is free for the server exactly if `next_block` has not given it
-- out.
pub finish_fs-Mounts : (s : Image) (frames : ℕ) → Formatted s → 2 ≤ frames → Mounts s frames
finish_fs-Mounts s frames f enough =
    rw (super_read_, bitmap_read_)
      (
        refl,
        refl,
        λ b h. free-loaded (image s f) frames magic size enough b h ∙ image-is_set s f b h,
      )
  where
    magic : finish_fs false (flush_bitmap s) 1024 ≡ fs_magic
    magic = image-magic s f

    size : finish_fs false (flush_bitmap s) 1025 ≡ nblock
    size = image-size s f

    used : (b : ℕ) → b < 3 → is_set (λ j. finish_fs false (flush_bitmap s) (2048 + j)) b ≡ false
    used b l = image-is_set s f b (omega (arith, l)) ∙ ground (arith, f.first_block, l)

    super_read_ :
        read_super (unmounted (finish_fs false (flush_bitmap s)) frames)
        ≡ (ok tt, with_super (finish_fs false (flush_bitmap s)) frames magic size enough)
    super_read_ = read_super-loaded (finish_fs false (flush_bitmap s)) frames magic size enough

    bitmap_read_ :
        read_bitmap (with_super (finish_fs false (flush_bitmap s)) frames magic size enough)
        ≡ (ok tt, with_bitmap (finish_fs false (flush_bitmap s)) frames magic size enough)
    bitmap_read_ =
        read_bitmap-loaded (finish_fs false (flush_bitmap s)) frames magic size enough used
