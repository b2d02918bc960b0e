-- ===== src/Fs/Walk.antt =====
-- fs/fs.c: `walk_path` walks the names between the slashes of its path.
use os_challenging_mission.Base.{
  ℕ, zero, suc, ◌≤◌, ◌≡◌, inl, inr, refl, sym, ap, ◌∙◌, Bool, true, false, List, [], ◌∷◌, ◌++◌,
  arith, ◌==◌, if◌then◌else◌, Option, none, some, Bool-cases, length, if-cases,
}
use mathlib.Core.List.{append-nil, append_assoc}
use os_challenging_mission.Errors.{M, ok}
use os_challenging_mission.Fs.{Fs}
use os_challenging_mission.Fs.Path.{
  Walked, found, slash, s_root, skip_slash, first_name, after_name, is_empty, walk_name, walk_from,
  walk_path,
}

-- The names of a path: what stands between slashes, less what is empty.
abbrev named : List ℕ → List (List ℕ)
named [] = []
named (c ∷ name) = (c ∷ name) ∷ []

-- The names of a path, when `name` stands before it.
abbrev names_from : (name : List ℕ) → List ℕ → List (List ℕ)
names_from name [] = named name
names_from name (c ∷ p) =
    let rest = names_from [] p in
    let longer = names_from (name ++ c ∷ []) p in if c == slash then named name ++ rest else longer

abbrev pub names : List ℕ → List (List ℕ)
names path = names_from [] path

abbrev none_left : List (List ℕ) → Bool
none_left [] = true
none_left (n ∷ ns) = false

-- The walk along a list of names.
pub walk_names : List (List ℕ) → Option ℕ → ℕ → M Fs Walked
walk_names [] dir file s = (ok (found dir file), s)
walk_names (n ∷ ns) dir file s = walk_name n (none_left ns) (walk_names ns (some file)) file s

names-skip_slash : (p : List ℕ) → names p ≡ names (skip_slash p)
unfolding skip_slash
names-skip_slash [] = refl
names-skip_slash (c ∷ p) =
    if-cases (λ r. names (c ∷ p) ≡ names r) (c == slash) (λ e. rw e (names-skip_slash p))
      (λ e. refl)

names_from-first_name :
    (x : ℕ) (name p : List ℕ)
    → names_from (x ∷ name) p ≡ (x ∷ name ++ first_name p) ∷ names (skip_slash (after_name p))
unfolding skip_slash first_name after_name
names_from-first_name x name [] = ap (λ l. (x ∷ l) ∷ []) (sym (append-nil name))
names_from-first_name x name (c ∷ p) = elim (Bool-cases (c == slash)) [
  | inl e ↦ rw (e, e, append-nil name) (ap (λ l. (x ∷ name) ∷ l) (names-skip_slash p))
  | inr e ↦ rw e (
      names_from-first_name x (name ++ c ∷ []) p
      ∙ ap (λ l. (x ∷ l) ∷ names (skip_slash (after_name p)))
          (append_assoc name (c ∷ []) (first_name p)))
]

-- What `skip_slash` leaves does not begin with a slash.
abbrev Skipped : List ℕ → Type 0
Skipped [] = Unit {0}
Skipped (c ∷ p) = (c == slash) ≡ false

skip_slash-Skipped : (p : List ℕ) → Skipped (skip_slash p)
unfolding skip_slash
skip_slash-Skipped [] = tt
skip_slash-Skipped (c ∷ p) = if-cases Skipped (c == slash) (λ _. skip_slash-Skipped p) (λ h. h)

length-skip_slash : (p : List ℕ) → length (skip_slash p) ≤ length p
unfolding skip_slash
length-skip_slash [] = omega arith
length-skip_slash (c ∷ p) = ground (arith, length-skip_slash p)

length-after_name : (p : List ℕ) → length (after_name p) ≤ length p
unfolding after_name
length-after_name [] = omega arith
length-after_name (c ∷ p) = ground (arith, length-after_name p)

-- A path that does not begin with a slash is its first name and the names after it.
names-first_name :
    (c : ℕ) (p : List ℕ)
    → (c == slash) ≡ false
    → names (c ∷ p) ≡ first_name (c ∷ p) ∷ names (skip_slash (after_name (c ∷ p)))
unfolding first_name after_name
names-first_name c p h = rw h (names_from-first_name c [] p)

none_left-is_empty : (p : List ℕ) → Skipped p → none_left (names p) ≡ is_empty p
none_left-is_empty [] h = refl
none_left-is_empty (c ∷ p) h = ap none_left (names-first_name c p h)

shorter :
    {fuel : ℕ} (c : ℕ) (p : List ℕ)
    → length p ≤ fuel
    → (c == slash) ≡ false
    → length (skip_slash (after_name (c ∷ p))) ≤ fuel
unfolding after_name
shorter c p n h = rw h (omega (arith, n, length-skip_slash (after_name p), length-after_name p))

walk_from-names :
    (fuel : ℕ) (p : List ℕ) (dir : Option ℕ) (file : ℕ) (s : Fs)
    → length p ≤ fuel
    → Skipped p
    → walk_from fuel p dir file s ≡ walk_names (names p) dir file s
unfolding walk_from walk_names
walk_from-names fuel [] dir file s n h = refl
walk_from-names zero (c ∷ p) dir file s n h = absurd (omega (arith, n))
walk_from-names (suc fuel) (c ∷ p) dir file s n h =
    let rest = skip_slash (after_name (c ∷ p)) in
    let name = first_name (c ∷ p) in
    let skipped : Skipped rest = skip_slash-Skipped (after_name (c ∷ p)) in
    ap (λ w. walk_name name (is_empty rest) w file s)
      (λ i f t.
        walk_from-names fuel rest (some file) f t (shorter c p (omega (arith, n)) h) skipped i)
    ∙ ap (λ e. walk_name name e (walk_names (names rest) (some file)) file s)
        (sym (none_left-is_empty rest skipped))
    ∙ ap (λ l. walk_names l dir file s) (sym (names-first_name c p h))

-- `walk_path` is the walk along the names of the path from the root directory, whatever the slashes
-- between them: the rounds of its loop are enough.
pub walk_path-names :
    (path : List ℕ) (s : Fs) → walk_path path s ≡ walk_names (names path) none s_root s
unfolding walk_path
walk_path-names path s =
    walk_from-names (length path) (skip_slash path) none s_root s (length-skip_slash path)
      (skip_slash-Skipped path)
    ∙ ap (λ l. walk_names l none s_root s) (sym (names-skip_slash path))
