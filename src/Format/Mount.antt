-- ===== src/Format/Mount.antt =====
-- tools/fsformat.c and fs/fs.c: the file system server mounts the image.
use os_challenging_mission.Base.{
  ℕ, zero, suc, ◌+◌, ◌-◌, ◌*◌, ◌/◌, ◌%◌, ◌^◌, ◌≤◌, ◌<◌, ◌≡◌, refl, ap, ◌∙◌, Bool, true, false, not,
  ◌&&◌, arith, ◌==◌, ltb, leb, if◌then◌else◌, update,
}
use os_challenging_mission.Base.Bitmap.{is_set, is_set-clear_at}
use os_challenging_mission.Format.{
  flush_from, Image, dump_from, nblock, super_magic, clear_bit, copy_block, finish_fs, flush_bitmap,
  fs_magic, place_super, super_nblocks, init_disk, zeroed,
}
use Prim.Native.Nat.{bit_and}
use os_challenging_mission.Base.Bits.{bit_test, bit-ones}

-- What `init_disk` leaves and the writing of files is to keep: the superblock, and a bitmap in which
-- no block is in use.
pub record Formatted (s : Image) : Type 0 where
  pub magic : s.words super_magic ≡ fs_magic
  pub size : s.words super_nblocks ≡ nblock
  pub free_bits : (b : ℕ) → b < nblock → is_set (λ j. s.words (2048 + j)) b ≡ true
  pub first_block : 3 ≤ s.nextbno
  pub last_block : s.nextbno ≤ nblock

init-word : (j : ℕ) → j < 32 → (init_disk zeroed).words (2048 + j) ≡ 2 ^ 32 - 1
unfolding init_disk
init-word j h = ground (arith, h)

-- `init_disk` leaves such an image.
pub init_disk-Formatted : Formatted (init_disk zeroed)
unfolding init_disk
init_disk-Formatted = record {
  magic = refl;
  size = refl;
  free_bits = λ b h.
      rw
        (
          init-word (b / 32) (omega (arith, h)),
          bit_test (2 ^ 32 - 1) (b % 32),
          bit-ones 32 (b % 32) (omega arith),
        )
        refl;
  first_block = omega arith;
  last_block = omega arith;
}

bitmap_word : (i : ℕ) → i < nblock → 1024 * (2 + i / 32768) + i % 32768 / 32 ≡ 2048 + i / 32
bitmap_word i h = omega (arith, h)

flush_from-other :
    (n i : ℕ) (words : ℕ → ℕ) (w : ℕ) → i + n ≤ nblock → 2080 ≤ w → flush_from n i words w ≡ words w
unfolding flush_from
flush_from-other zero i words w h l = refl
flush_from-other (suc n) i words w h l =
    let at_word = bitmap_word i (omega (arith, h)) in
    flush_from-other n (suc i)
      (update words (1024 * (2 + i / 32768) + i % 32768 / 32)
        (clear_bit (words (1024 * (2 + i / 32768) + i % 32768 / 32)) (i % 32)))
      w (omega (arith, h)) l
    ∙ ground (arith, h, l)

clear-is_set :
    (i b w : ℕ) (words : ℕ → ℕ)
    → w ≡ 2048 + i / 32
    → is_set (λ j. update words w (clear_bit (words w) (i % 32)) (2048 + j)) b
      ≡ (if b == i then false else is_set (λ j. words (2048 + j)) b)
clear-is_set i b w words e = rw e (
    ap (λ x. not (bit_and x (2 ^ (b % 32)) == 0)) ground arith
    ∙ is_set-clear_at (λ j. words (2048 + j)) i b)

outside : (i b : ℕ) (z : Bool) → z ≡ (if leb i b && ltb b (i + 0) then false else z)
outside i b z = ground arith

longer :
    (n i b : ℕ) (z : Bool)
    → (if leb (suc i) b && ltb b (suc i + n) then false else if b == i then false else z)
      ≡ (if leb i b && ltb b (i + suc n) then false else z)
longer n i b z = ground arith

flush_from-is_set :
    (n i : ℕ) (words : ℕ → ℕ) (b : ℕ)
    → i + n ≤ nblock
    → is_set (λ j. flush_from n i words (2048 + j)) b
      ≡ (if leb i b && ltb b (i + n) then false else is_set (λ j. words (2048 + j)) b)
unfolding flush_from
flush_from-is_set zero i words b h = outside i b (is_set (λ j. words (2048 + j)) b)
flush_from-is_set (suc n) i words b h =
    let w = 1024 * (2 + i / 32768) + i % 32768 / 32 in
    flush_from-is_set n (suc i) (update words w (clear_bit (words w) (i % 32))) b (omega (arith, h))
    ∙ ap (λ z. if leb (suc i) b && ltb b (suc i + n) then false else z)
        (clear-is_set i b w words (bitmap_word i (omega (arith, h))))
    ∙ longer n i b (is_set (λ j. words (2048 + j)) b)

dump_from-words :
    (n i : ℕ) (s : Image) (out : ℕ → ℕ) (w : ℕ)
    → dump_from false n i s out w
      ≡ (if leb (1024 * i) w && ltb w (1024 * (i + n)) then s.words w else out w)
unfolding dump_from
dump_from-words zero i s out w = ground arith
dump_from-words (suc n) i s out w =
    dump_from-words n (suc i) s (copy_block i s.words out) w ∙ ground arith

module _ (s : Image) (f : Formatted s) where
  abbrev pub image : ℕ → ℕ
  image = finish_fs false (flush_bitmap s)

  pub image-words : (w : ℕ) → w < 1048576 → image w ≡ (place_super (flush_bitmap s)).words w
  unfolding finish_fs
  image-words w h =
      dump_from-words nblock 0 (place_super (flush_bitmap s)) (λ v. 0) w ∙ ground (arith, h)

  pub image-magic : image 1024 ≡ fs_magic
  unfolding flush_bitmap
  image-magic =
      image-words 1024 (omega arith)
      ∙ flush_from-other s.nextbno 0 s.words super_magic (omega (arith, f.last_block)) (omega arith)
      ∙ f.magic

  pub image-size : image 1025 ≡ nblock
  unfolding flush_bitmap
  image-size =
      image-words 1025 (omega arith)
      ∙ flush_from-other s.nextbno 0 s.words super_nblocks (omega (arith, f.last_block))
          (omega arith)
      ∙ f.size

  pub image-is_set : (b : ℕ) → b < nblock → is_set (λ j. image (2048 + j)) b ≡ leb s.nextbno b
  unfolding flush_bitmap
  image-is_set b h =
      ap (λ x. not (bit_and x (2 ^ (b % 32)) == 0))
        (image-words (2048 + b / 32) (omega (arith, h)) ∙ ground arith)
      ∙ flush_from-is_set s.nextbno 0 s.words b (omega (arith, f.last_block))
      ∙ rw (f.free_bits b h) (ground arith)
