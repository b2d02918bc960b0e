-- ===== src/Format.antt =====
-- tools/fsformat.c: how a disk image is built. `words` are the words of `disk`, 1024 to a block, and
-- behind them, from word `super_at`, those of `super`; a `struct File *` is the number of the file's
-- first word, and byte `a` is in word a / 4, the low byte first. A write past the end of `disk`, which
-- C leaves undefined, stops the program here.
pub mod Files
pub mod Swap
pub mod Turned
pub mod Mount
pub mod Served
mod Examples
use os_challenging_mission.Base.{
  ℕ, zero, suc, ◌+◌, ◌-◌, ◌*◌, ◌/◌, ◌%◌, ◌^◌, ◌≤◌, ◌<◌, ◌≡◌, ◌≢◌, ◌⊎◌, ◌↔◌, inl, inr, refl, sym, ap,
  ◌∙◌, subst, Bool, true, false, not, ◌&&◌, ◌||◌, List, [], ◌∷◌, ◌++◌, arith, ◌==◌, ltb, leb,
  if◌then◌else◌, Option, none, some, Bool-cases, Option-cases, List-cases, update, count, length,
}
use os_challenging_mission.Fs.File.{f_indirect, f_type, ndirect, f_direct, f_size}
use os_challenging_mission.Fs.{copy_block, block_size_bit, block_size, fs_magic}
use os_challenging_mission.Fs.Dir.{file_words, file2blk}
use os_challenging_mission.Errors.{M, panicked, ok}
use os_challenging_mission.Base.Bits.{clear_bit}

abbrev pub nblock : ℕ
nblock = 1024

pub data BlockType : Type 0 where
  block_free block_boot block_bmap block_super block_data block_file block_index : BlockType

pub record Image : Type 0 where
  pub words : ℕ → ℕ
  pub types : ℕ → BlockType
  pub nbitblock : ℕ
  pub nextbno : ℕ

-- `super`, and its fields.
abbrev pub super_at : ℕ
super_at = 1048576

abbrev pub super_magic : ℕ
super_magic = super_at

abbrev pub super_nblocks : ℕ
super_nblocks = super_at + 1

abbrev pub super_root : ℕ
super_root = super_at + 2

-- Statics are zero.
abbrev pub zeroed : Image
zeroed = record { words = λ w. 0; types = λ b. block_free; nbitblock = 0; nextbno = 0 }

abbrev pub put : ℕ → ℕ → Image → Image
put w v s = record s { words = update s.words w v }

abbrev pub set_type : ℕ → BlockType → Image → Image
set_type b t s = record s { types = update s.types b t }

abbrev pub byte_of : Image → ℕ → ℕ
byte_of s a = s.words (a / 4) / 2 ^ (8 * (a % 4)) % 256

abbrev pub put_byte : ℕ → ℕ → Image → Image
put_byte a v s =
    put (a / 4) (s.words (a / 4) - byte_of s a * 2 ^ (8 * (a % 4)) + v * 2 ^ (8 * (a % 4))) s

-- The bytes of a string or of a `read`, from byte `a`.
unfoldable pub put_bytes : ℕ → List ℕ → Image → Image
put_bytes a [] s = s
put_bytes a (c ∷ l) s = put_bytes (a + 1) l (put_byte a c s)

-- `memset` of `n` whole words from word `w`.
abbrev pub fill : ℕ → ℕ → ℕ → (ℕ → ℕ) → ℕ → ℕ
fill w n v words i = if leb w i && ltb i (w + n) then v else words i

-- `reverse`: the other order of the bytes of a word.
unfoldable pub reverse : ℕ → ℕ
reverse y =
    y % 256 * 2 ^ 24 + y / 2 ^ 8 % 256 * 2 ^ 16 + y / 2 ^ 16 % 256 * 2 ^ 8 + y / 2 ^ 24 % 256

abbrev pub reverse_at : ℕ → (ℕ → ℕ) → ℕ → ℕ
reverse_at w words = update words w (reverse (words w))

-- `for (i = 0; i < n; ++i) reverse(u + i)`
unfoldable pub reverse_words : (n w : ℕ) → (ℕ → ℕ) → ℕ → ℕ
unfolding reverse
reverse_words zero w words = words
reverse_words (suc n) w words = reverse_words n (w + 1) (reverse_at w words)

-- The fields of a `struct File` that are numbers.
unfoldable pub reverse_file : ℕ → (ℕ → ℕ) → ℕ → ℕ
unfolding reverse reverse_words
reverse_file f words =
    reverse_at (f_indirect f)
      (reverse_words ndirect (f_direct f 0) (reverse_at (f_type f) (reverse_at (f_size f) words)))

-- The files of a directory block, `n` from `f` on, up to the first without a name.
unfoldable pub reverse_files : (n f : ℕ) → (ℕ → ℕ) → ℕ → ℕ
unfolding reverse_file
reverse_files zero f words = words
reverse_files (suc n) f words =
    let rest = reverse_files n (f + file_words) (reverse_file f words) in
    if words f % 256 == 0 then words else rest

unfoldable pub reverse_typed : BlockType → ℕ → (ℕ → ℕ) → ℕ → ℕ
unfolding reverse reverse_file reverse_files reverse_words
reverse_typed block_super b words =
    reverse_file (1024 * b + 2) (reverse_at (1024 * b + 1) (reverse_at (1024 * b) words))
reverse_typed block_file b words = reverse_files file2blk (1024 * b) words
reverse_typed block_index b words = reverse_words 1024 (1024 * b) words
reverse_typed block_bmap b words = reverse_words 1024 (1024 * b) words
reverse_typed _ b words = words

abbrev pub reverse_block : ℕ → Image → Image
reverse_block b s = record s { words = reverse_typed (s.types b) b s.words }

-- `disk[2 + i].type = BLOCK_BMAP` and the `memset` of the block, `n` blocks from `i`.
unfoldable pub init_bitmap : (n i : ℕ) → Image → Image
init_bitmap zero i s = s
init_bitmap (suc n) i s = init_bitmap n (suc i) (
    set_type (2 + i) block_bmap
      (record s { words = fill (1024 * (2 + i)) 1024 (2 ^ 32 - 1) s.words }))

-- The bits past the last block: `diff` bytes of the last bitmap block stay.
unfoldable pub trim_bitmap : ℕ → Image → Image
trim_bitmap n s =
    if nblock == n * block_size_bit
    then s
    else let diff = nblock % block_size_bit / 8 in
      record s {
        words = fill (1024 * (2 + (n - 1)) + diff / 4) ((block_size - diff) / 4) 0 s.words;
      }

unfoldable pub init_super : Image → Image
unfolding put_bytes
init_super s =
    put_bytes (4 * super_root) (0x2f ∷ 0 ∷ [])
      (put (f_type super_root) 1 (put super_nblocks nblock (put super_magic fs_magic s)))

unfoldable pub init_disk : Image → Image
unfolding init_bitmap trim_bitmap init_super
init_disk s =
    let n = (nblock + block_size_bit - 1) / block_size_bit in
    let t = record (set_type 0 block_boot s) { nbitblock = n; nextbno = 2 + n } in
    init_super (set_type 1 block_super (trim_bitmap n (init_bitmap n 0 t)))

unfoldable pub next_block : BlockType → M Image ℕ
next_block t s =
    if leb nblock s.nextbno
    then (panicked, s)
    else (ok s.nextbno, record (set_type s.nextbno t s) { nextbno = s.nextbno + 1 })

-- `&= ~(1 << (i % 32))` in the bitmap, for `n` blocks from `i`.
unfoldable pub flush_from : (n i : ℕ) → (ℕ → ℕ) → ℕ → ℕ
flush_from zero i words = words
flush_from (suc n) i words =
    let w = 1024 * (2 + i / block_size_bit) + i % block_size_bit / 32 in
    flush_from n (suc i) (update words w (clear_bit (words w) (i % 32)))

unfoldable pub flush_bitmap : Image → Image
unfolding flush_from
flush_bitmap s = record s { words = flush_from s.nextbno 0 s.words }

-- `memcpy(disk[1].data, &super, sizeof(super))`: 66 words.
abbrev pub place_super : Image → Image
place_super s = record s {
  words = λ i. if leb 1024 i && ltb i 1090 then s.words (super_at + (i - 1024)) else s.words i;
}

-- The loop of `finish_fs` that writes the image `out`, `n` blocks from `i`; `swapped` is
-- CONFIG_REVERSE_ENDIAN.
unfoldable pub dump_from : Bool → (n i : ℕ) → Image → (ℕ → ℕ) → ℕ → ℕ
unfolding reverse_typed
dump_from swapped zero i s out = out
dump_from swapped (suc n) i s out =
    let t = if swapped then reverse_block i s else s in
    dump_from swapped n (suc i) t (copy_block i t.words out)

unfoldable pub finish_fs : Bool → Image → ℕ → ℕ
unfolding dump_from
finish_fs swapped s = dump_from swapped nblock 0 (place_super s) (λ w. 0)
