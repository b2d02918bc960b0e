-- ===== src/Format/Files.antt =====
-- tools/fsformat.c: how files and directories are put into the image.
use os_challenging_mission.Fs.Path.{maxnamelen}
use os_challenging_mission.Errors.{M, ok, panicked, ◌>>=◌, ◌>>◌, pure}
use os_challenging_mission.Base.{
  ℕ, zero, suc, ◌+◌, ◌-◌, ◌*◌, ◌/◌, ◌%◌, ◌^◌, Bool, false, not, ◌&&◌, List, [], ◌∷◌, ◌++◌, ◌==◌,
  ltb, leb, if◌then◌else◌, Option, none, some,
}
use os_challenging_mission.Format.{
  Image, next_block, put_bytes, f_indirect, file_words, ndirect, file2blk, f_size, byte_of,
  f_direct, block_size, put, block_index, block_file, block_data, f_type, super_root, init_disk,
  flush_bitmap,
}
use os_challenging_mission.Fs.File.{nindirect}

unfoldable pub save_block_link : ℕ → ℕ → ℕ → M Image (Unit {0})
unfolding next_block
save_block_link f nblk bno s =
    if leb nindirect nblk
    then (panicked, s)
    else if ltb nblk ndirect
    then (ok tt, put (f_direct f nblk) bno s)
    else if s.words (f_indirect f) == 0
    then (do
      b ← next_block block_index
      λ t. (ok tt, put (1024 * b + nblk) bno (put (f_indirect f) b t)))
        s
    else (ok tt, put (1024 * s.words (f_indirect f) + nblk) bno s)

unfoldable pub make_link_block : ℕ → ℕ → M Image ℕ
unfolding next_block save_block_link
make_link_block dirf nblk = do
  bno ← next_block block_file
  save_block_link dirf nblk bno
  λ t. (ok bno, put (f_size dirf) ((t.words (f_size dirf) + block_size) % 2 ^ 32) t)

-- A file without a name, among `n` from `f` on.
unfoldable pub find_unused : (n f : ℕ) → Image → Option ℕ
find_unused zero f s = none
find_unused (suc n) f s =
    let rest = find_unused n (f + file_words) s in if byte_of s (4 * f) == 0 then some f else rest

-- The number of the directory's block `i`.
abbrev pub block_of : ℕ → ℕ → Image → ℕ
block_of dirf i s =
    if ltb i ndirect
    then s.words (f_direct dirf i)
    else s.words (1024 * s.words (f_indirect dirf) + i)

-- The loop over the blocks of the directory, `n` from block `i` on.
unfoldable pub search_blocks : ℕ → (n i : ℕ) → Image → Option ℕ
unfolding find_unused
search_blocks dirf zero i s = none
search_blocks dirf (suc n) i s =
    let rest = search_blocks dirf n (suc i) s in
    elim (find_unused file2blk (1024 * block_of dirf i s) s) [ some f ↦ some f | none ↦ rest ]

unfoldable pub create_file : ℕ → M Image ℕ
unfolding search_blocks make_link_block
create_file dirf s =
    let nblk = s.words (f_size dirf) / block_size in
    elim (search_blocks dirf nblk 0 s) [
      | some f ↦ (ok f, s)
      | none ↦ (do bno ← make_link_block dirf nblk; λ t. (ok (1024 * bno), t)) s
    ]

-- `strrchr(path, '/')`: what follows the last slash, or all.
unfoldable pub file_name : List ℕ → List ℕ → List ℕ
file_name best [] = best
file_name best (c ∷ path) = if c == 0x2f then file_name path path else file_name best path

-- The loop that reads the file: the bytes of each `read` that returns some, from block `iblk` on.
unfoldable pub read_blocks : ℕ → List (List ℕ) → ℕ → M Image (Unit {0})
unfolding put_bytes next_block save_block_link
read_blocks target [] iblk s = (ok tt, s)
read_blocks target (r ∷ reads) iblk s =
    let rest = read_blocks target reads (suc iblk) in
    (do bno ← next_block block_data; save_block_link target iblk bno; rest)
      (put_bytes (4096 * s.nextbno) r s)

-- The entries of a directory of the host, with what `lseek` and the `read`s say of a file; a directory
-- may not open.
mutual
  pub data Node : Type 0 where
    regular : (size : ℕ) → (reads : List (List ℕ)) → Node
    closed : Node
    directory : Nodes → Node

  pub data Nodes : Type 0 where
    last : Nodes
    entry : (d_name : List ℕ) → Node → Nodes → Nodes

unfoldable pub write_file : ℕ → List ℕ → ℕ → List (List ℕ) → M Image (Unit {0})
unfolding create_file file_name put_bytes read_blocks
write_file dirf path size reads = do
  target ← create_file dirf
  λ s. read_blocks target reads 0 (
      put (f_type target) 0
        (put (f_size target) size (put_bytes (4 * target) (file_name path path ++ 0 ∷ []) s)))

-- `strncpy(dst, src, n)`: at most `n` bytes, with zeros to fill up.
unfoldable pub strncpy : ℕ → List ℕ → List ℕ
strncpy zero l = []
strncpy (suc n) [] = 0 ∷ strncpy n []
strncpy (suc n) (c ∷ l) = c ∷ strncpy n l

-- "." and ".."
abbrev pub is_dots : List ℕ → Bool
is_dots (c ∷ []) = c == 0x2e
is_dots (c ∷ d ∷ []) = (c == 0x2e) && (d == 0x2e)
is_dots _ = false

-- The directory's own entry; `exit(1)` if its name is found to be too long.
unfoldable pub make_directory : ℕ → List ℕ → M Image ℕ
unfolding create_file strncpy put_bytes
make_directory dirf name = do
  pdir ← create_file dirf
  λ s.
      let t = put_bytes (4 * pdir) (strncpy (maxnamelen - 1) name) s in
      if not (byte_of t (4 * pdir + (maxnamelen - 1)) == 0)
      then (panicked, t)
      else (ok pdir, put (f_type pdir) 1 t)

-- `basename` is the C library's. `write_node` is one round of the loop, or an argument of the program.
unfoldable mutual
  unfolding make_directory write_file

  pub write_node : (List ℕ → List ℕ) → ℕ → List ℕ → Node → M Image (Unit {0})
  write_node basename dirf path (regular size reads) = write_file dirf path size reads
  write_node basename dirf path closed = pure tt
  write_node basename dirf path (directory entries) = do
    pdir ← make_directory dirf (basename path)
    write_entries basename pdir path entries

  pub write_entries : (List ℕ → List ℕ) → ℕ → List ℕ → Nodes → M Image (Unit {0})
  write_entries basename pdir path last = pure tt
  write_entries basename pdir path (entry d_name node rest) =
      let others = write_entries basename pdir path rest in
      let this = write_node basename pdir (path ++ 0x2f ∷ d_name) node in
      if is_dots d_name then others else (do this; others)

-- The arguments of `main` after the name of the image.
unfoldable pub write_all : (List ℕ → List ℕ) → List (List ℕ × Node) → M Image (Unit {0})
unfolding write_node
write_all basename [] = pure tt
write_all basename ((name, node) ∷ args) = do
  write_node basename super_root name node
  write_all basename args

unfoldable pub format : (List ℕ → List ℕ) → List (List ℕ × Node) → M Image (Unit {0})
unfolding write_all init_disk flush_bitmap
format basename args s = (do write_all basename args; λ t. (ok tt, flush_bitmap t)) (init_disk s)
