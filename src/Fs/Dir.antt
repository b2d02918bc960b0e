-- ===== src/Fs/Dir.antt =====
-- fs/fs.c: directories, and the C strings in their entries. A string in the cache is given by the
-- number of its first byte, where byte `a` is in word a / 4, the low byte first. A string elsewhere is
-- the list of its bytes without the final 0.
use os_challenging_mission.Base.{
  ℕ, zero, suc, ◌+◌, ◌-◌, ◌*◌, ◌/◌, ◌%◌, ◌^◌, Bool, true, false, List, [], ◌∷◌, ◌==◌, if◌then◌else◌,
  Option, none, some,
}
use Prim.Native.Nat.{compare, Ordering}
use os_challenging_mission.Errors.{M, ok, err, not_found, ◌>>=◌}
use os_challenging_mission.Fs.{Fs, store, block_size, diskmap}
use os_challenging_mission.Fs.File.{f_size, f_dir, file_get_block}

abbrev pub byte_at : Fs → ℕ → ℕ
byte_at s a = s.mem (a / 4) / 2 ^ (8 * (a % 4)) % 256

abbrev pub store_byte : ℕ → ℕ → Fs → Fs
store_byte a v s =
    store (a / 4) (s.mem (a / 4) - byte_at s a * 2 ^ (8 * (a % 4)) + v * 2 ^ (8 * (a % 4))) s

-- lib/string.c: `strcmp(p, q)` for a list `p` and a string `q` in the cache
unfoldable pub strcmp : List ℕ → ℕ → Fs → Ordering
strcmp [] q s = compare 0 (byte_at s q)
strcmp (c ∷ p) q s =
    let rest = strcmp p (q + 1) s in if c == byte_at s q then rest else compare c (byte_at s q)

-- lib/string.c: `strcpy`
unfoldable pub strcpy : (dst : ℕ) → List ℕ → Fs → Fs
strcpy dst [] s = store_byte dst 0 s
strcpy dst (c ∷ src) s = strcpy (dst + 1) src (store_byte dst c s)

-- FILE2BLK, and the words of a `struct File`
abbrev pub file2blk : ℕ
file2blk = 16

abbrev pub file_words : ℕ
file_words = 64

unfoldable pub has_name : List ℕ → ℕ → Fs → Bool
unfolding strcmp
has_name name f s = elim (strcmp name (4 * f) s) [ Ordering.eq ↦ true | _ ↦ false ]

-- `for (f = files; f < files + FILE2BLK; ++f)`: `n` rounds from `f`
unfoldable pub find_entry : (ℕ → Fs → Bool) → ℕ → ℕ → Fs → Option ℕ
find_entry test zero f s = none
find_entry test (suc n) f s =
    let rest = find_entry test n (f + file_words) s in if test f s then some f else rest

-- What follows the search of one block: the entry, or the rest of the blocks.
unfoldable pub lookup_found : ℕ → M Fs ℕ → Option ℕ → M Fs ℕ
lookup_found dir rest none s = rest s
lookup_found dir rest (some f) s = (ok f, store (f_dir f) (diskmap + 4 * dir) s)

-- The loop of `dir_lookup`: `n` blocks from block `i`.
unfoldable pub lookup_blocks : ℕ → List ℕ → ℕ → ℕ → M Fs ℕ
unfolding file_get_block find_entry has_name lookup_found
lookup_blocks dir name zero i s = (err not_found, s)
lookup_blocks dir name (suc n) i s =
    let rest = lookup_blocks dir name n (suc i) in
    (do
      blk ← file_get_block dir i
      λ t. lookup_found dir rest (find_entry (has_name name) file2blk blk t) t)
      s

unfoldable pub dir_lookup : ℕ → List ℕ → M Fs ℕ
unfolding lookup_blocks
dir_lookup dir name s = lookup_blocks dir name (s.mem (f_size dir) / block_size) 0 s

-- `f[j].f_name[0] == '\0'`
abbrev pub is_unused : ℕ → Fs → Bool
is_unused f s = byte_at s (4 * f) == 0

unfoldable pub alloc_found : M Fs ℕ → Option ℕ → M Fs ℕ
alloc_found rest none s = rest s
alloc_found rest (some f) s = (ok f, s)

-- The loop of `dir_alloc_file`, and the new block after it.
unfoldable pub alloc_blocks : ℕ → ℕ → ℕ → M Fs ℕ
unfolding file_get_block find_entry alloc_found
alloc_blocks dir zero i s =
    file_get_block dir i (store (f_size dir) ((s.mem (f_size dir) + block_size) % 2 ^ 32) s)
alloc_blocks dir (suc n) i s =
    let rest = alloc_blocks dir n (suc i) in
    (do blk ← file_get_block dir i; λ t. alloc_found rest (find_entry is_unused file2blk blk t) t) s

unfoldable pub dir_alloc_file : ℕ → M Fs ℕ
unfolding alloc_blocks
dir_alloc_file dir s = alloc_blocks dir (s.mem (f_size dir) / block_size) 0 s
