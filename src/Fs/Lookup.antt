-- ===== src/Fs/Lookup.antt =====
-- fs/fs.c: what `dir_lookup` finds.
use os_challenging_mission.Base.{
  ℕ, zero, suc, ◌+◌, ◌*◌, ◌/◌, ◌<◌, ◌≡◌, refl, sym, ap, ◌∙◌, subst, Bool, true, List, [], ◌∷◌,
  arith, Option, none, some, length, ℕ_discrete, update_same, if-cases, get_or,
}
use Prim.Native.Nat.{Ordering}
use os_challenging_mission.Errors.{M, Outcome, ok, and_then_ok}
use os_challenging_mission.Fs.{Fs, store, diskmap, block_size}
use os_challenging_mission.Fs.File.{f_dir, file_get_block, f_size}
use os_challenging_mission.Fs.Dir.{
  byte_at, strcmp, has_name, find_entry, lookup_found, lookup_blocks, dir_lookup, file2blk,
  file_words,
}
use os_challenging_mission.Fs.Path.{maxnamelen}

-- The C string at byte `q` of the cache is `p`.
abbrev pub IsString : List ℕ → ℕ → Fs → Type 0
IsString p q s =
    ((i : ℕ) → i < length p → byte_at s (q + i) ≡ get_or p i 0) × (byte_at s (q + length p) ≡ 0)

strcmp-IsString : (p : List ℕ) (q : ℕ) (s : Fs) → strcmp p q s ≡ Ordering.eq → IsString p q s
unfolding strcmp
strcmp-IsString [] q s h = ((λ i k. absurd (omega (arith, k))), ground (arith, h))
strcmp-IsString (c ∷ p) q s h = elim (ℕ_discrete c (byte_at s q)) [
  | yes e ↦ longer e (strcmp-IsString p (q + 1) s (ground (arith, h, e)))
  | no n ↦ absurd (ground (arith, h, n))
]
  where
    longer : c ≡ byte_at s q → IsString p (q + 1) s → IsString (c ∷ p) q s
    longer e (f, z) = (each, ap (byte_at s) (omega arith) ∙ z)
      where
        each : (i : ℕ) → i < length (c ∷ p) → byte_at s (q + i) ≡ get_or (c ∷ p) i 0
        each zero k = ground (arith, e)
        each (suc i) k = ap (byte_at s) (omega arith) ∙ f i (omega (arith, k))

has_name-IsString :
    (name : List ℕ) (f : ℕ) (s : Fs) → has_name name f s ≡ true → IsString name (4 * f) s
unfolding has_name
has_name-IsString name f s h = strcmp-IsString name (4 * f) s (ground (arith, h))

find_entry-test :
    (test : ℕ → Fs → Bool) (n from : ℕ) (s : Fs) (f : ℕ)
    → find_entry test n from s ≡ some f
    → test f s ≡ true
unfolding find_entry
find_entry-test test zero from s f h = absurd (ground (arith, h))
find_entry-test test (suc n) from s f h =
    if-cases (λ o. o ≡ some f → test f s ≡ true) (test from s)
      (λ e k. subst (λ g. test g s ≡ true) (ground (arith, k)) e)
      (λ _ k. find_entry-test test n (from + file_words) s f k) h

-- A word far from the name does not change it.
IsString-store :
    (name : List ℕ) (f v : ℕ) (s : Fs)
    → length name < maxnamelen
    → IsString name (4 * f) s
    → IsString name (4 * f) (store (f_dir f) v s)
IsString-store name f v s h (g, z) = ((λ i k. ground (arith, h, k, g i k)), ground (arith, h, z))

-- A file that a search in directory `dir` returns has the name, and points to the directory.
abbrev pub Found : ℕ → List ℕ → ℕ → Outcome ℕ × Fs → Type 0
Found dir name f r =
    r.0 ≡ ok f → IsString name (4 * f) r.1 × (r.1.mem (f_dir f) ≡ diskmap + 4 * dir)

lookup_found-Found :
    (dir : ℕ) (name : List ℕ) (rest : M Fs ℕ) (o : Option ℕ) (s : Fs) (f : ℕ)
    → length name < maxnamelen
    → Found dir name f (rest s)
    → ((g : ℕ) → o ≡ some g → IsString name (4 * g) s)
    → Found dir name f (lookup_found dir rest o s)
unfolding lookup_found
lookup_found-Found dir name rest none s f h r k e = r e
lookup_found-Found dir name rest (some g) s f h r k e =
    let same : g ≡ f = ground (arith, e) in
    subst
      (λ f.
        IsString name (4 * f) (store (f_dir g) (diskmap + 4 * dir) s)
        × ((store (f_dir g) (diskmap + 4 * dir) s).mem (f_dir f) ≡ diskmap + 4 * dir))
      same
      (
        IsString-store name g (diskmap + 4 * dir) s h (k g refl),
        update_same s.mem (f_dir g) (diskmap + 4 * dir),
      )

lookup_blocks-Found :
    (dir : ℕ) (name : List ℕ) (n i : ℕ) (s : Fs) (f : ℕ)
    → length name < maxnamelen
    → Found dir name f (lookup_blocks dir name n i s)
unfolding lookup_blocks
lookup_blocks-Found dir name zero i s f h e = absurd (ground (arith, e))
lookup_blocks-Found dir name (suc n) i s f h e =
    let (blk, e', same) = and_then_ok (file_get_block dir i s) _ e in
    let t = (file_get_block dir i s).1 in
    subst (Found dir name f) (sym same)
      (lookup_found-Found dir name (lookup_blocks dir name n (suc i))
        (find_entry (has_name name) file2blk blk t) t f h
        (lookup_blocks-Found dir name n (suc i) t f h)
        (λ g k. has_name-IsString name g t (find_entry-test (has_name name) file2blk blk t g k)))
      e

-- A file that `dir_lookup` returns for a name of less than 128 bytes has in its entry exactly this
-- name, as a C string, and its `f_dir` points to the directory.
pub dir_lookup_lem :
    (dir : ℕ) (name : List ℕ) (s : Fs) (f : ℕ)
    → length name < maxnamelen
    → (dir_lookup dir name s).0 ≡ ok f
    → IsString name (4 * f) (dir_lookup dir name s).1
      × ((dir_lookup dir name s).1.mem (f_dir f) ≡ diskmap + 4 * dir)
unfolding dir_lookup
dir_lookup_lem dir name s f h e =
    lookup_blocks-Found dir name (s.mem (f_size dir) / block_size) 0 s f h e
