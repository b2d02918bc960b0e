-- ===== src/Fs/Path.antt =====
-- fs/fs.c: `walk_path` and the calls that name a file by its path. A path is the list of its bytes.
use os_challenging_mission.Base.{
  ℕ, zero, suc, ◌*◌, Bool, true, false, not, List, [], ◌∷◌, ◌==◌, leb, if◌then◌else◌, Option, none,
  some, length,
}
use os_challenging_mission.Errors.{
  M, Outcome, ok, err, panicked, not_found, bad_path, file_exists, ◌>>=◌, fail,
}
use os_challenging_mission.Fs.{Fs}
use os_challenging_mission.Fs.File.{f_type}
use os_challenging_mission.Fs.Dir.{dir_lookup, dir_alloc_file, strcpy}

abbrev pub maxnamelen : ℕ
maxnamelen = 128

-- FTYPE_DIR
abbrev pub ftype_dir : ℕ
ftype_dir = 1

-- '/'
abbrev pub slash : ℕ
slash = 47

-- `&super->s_root`
abbrev pub s_root : ℕ
s_root = 1026

unfoldable pub skip_slash : List ℕ → List ℕ
skip_slash [] = []
skip_slash (c ∷ p) = let rest = skip_slash p in if c == slash then rest else c ∷ p

-- `while (*path != '/' && *path != '\0') path++`: what the loop passes, and where it ends.
unfoldable pub first_name : List ℕ → List ℕ
first_name [] = []
first_name (c ∷ p) = let rest = first_name p in if c == slash then [] else c ∷ rest

unfoldable pub after_name : List ℕ → List ℕ
after_name [] = []
after_name (c ∷ p) = let rest = after_name p in if c == slash then c ∷ p else rest

-- How `walk_path` ends when it does not fail: 0 with `*pdir` and `*pfile`, or -E_NOT_FOUND with
-- `*pdir` and `lastelem`, when only the last name is not there. A null `*pdir` is `none`.
pub data Walked : Type 0 where
  found : (pdir : Option ℕ) (pfile : ℕ) → Walked
  missing : (pdir : ℕ) (lastelem : List ℕ) → Walked

-- What follows `dir_lookup`: `walk` is the rest of the loop, `last` that no path is left.
unfoldable pub walk_found : ℕ → List ℕ → Bool → (ℕ → M Fs Walked) → Outcome ℕ → M Fs Walked
walk_found dir name last walk (ok file) s = walk file s
walk_found dir name last walk (err not_found) s =
    if last then (ok (missing dir name), s) else (err not_found, s)
walk_found dir name last walk (err e) s = (err e, s)
walk_found dir name last walk _ s = (panicked, s)

-- One round of the loop, for the name that the path begins with.
unfoldable pub walk_name : List ℕ → Bool → (ℕ → M Fs Walked) → ℕ → M Fs Walked
unfolding dir_lookup walk_found
walk_name name last walk dir s =
    if leb maxnamelen (length name)
    then (err bad_path, s)
    else if not (s.mem (f_type dir) == ftype_dir)
    then (err not_found, s)
    else walk_found dir name last walk (dir_lookup dir name s).0 (dir_lookup dir name s).1

abbrev pub is_empty : List ℕ → Bool
is_empty [] = true
is_empty (c ∷ p) = false

-- `while (*path != '\0')`, with `path`, `dir` and `file`; each round takes a byte at least.
unfoldable pub walk_from : (fuel : ℕ) → List ℕ → Option ℕ → ℕ → M Fs Walked
unfolding skip_slash first_name after_name walk_name
walk_from fuel [] dir file s = (ok (found dir file), s)
walk_from zero (c ∷ p) dir file s = (panicked, s)
walk_from (suc fuel) (c ∷ p) dir file s =
    let rest = skip_slash (after_name (c ∷ p)) in
    walk_name (first_name (c ∷ p)) (is_empty rest) (walk_from fuel rest (some file)) file s

unfoldable pub walk_path : List ℕ → M Fs Walked
unfolding walk_from skip_slash
walk_path path = walk_from (length path) (skip_slash path) none s_root

-- `walk_path(path, 0, file, 0)`
unfoldable pub file_open : List ℕ → M Fs ℕ
unfolding walk_path
file_open path = do
  w ← walk_path path
  elim w [ found _ f ↦ λ s. (ok f, s) | missing _ _ ↦ fail not_found ]

-- The rest of `file_create` when only the last name is not there. An error of `dir_alloc_file` is
-- not passed on: the code returns the -E_NOT_FOUND of `walk_path`.
unfoldable pub create_in : ℕ → List ℕ → M Fs ℕ
unfolding dir_alloc_file strcpy
create_in dir name s = elim (dir_alloc_file dir s).0 [
  | ok f ↦ (ok f, strcpy (4 * f) name (dir_alloc_file dir s).1)
  | err e ↦ (err not_found, (dir_alloc_file dir s).1)
  | _ ↦ (panicked, (dir_alloc_file dir s).1)
]

unfoldable pub file_create : List ℕ → M Fs ℕ
unfolding walk_path create_in
file_create path = do
  w ← walk_path path
  elim w [ found _ _ ↦ fail file_exists | missing dir name ↦ create_in dir name ]
