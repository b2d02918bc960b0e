-- ===== src/Format/Swap.antt =====
-- tools/fsformat.c: which words of a block `reverse_block` turns.
use os_challenging_mission.Base.{
  ℕ, zero, suc, ◌+◌, ◌*◌, ◌%◌, ◌≤◌, ◌<◌, ◌≡◌, ◌⊎◌, inl, inr, refl, ap, ◌∙◌, subst, Bool, false,
  ◌&&◌, ◌||◌, arith, ◌==◌, ltb, leb, if◌then◌else◌, dec_lt, if-cases,
}
use os_challenging_mission.Format.{
  reverse, reverse_words, reverse_file, reverse_files, f_direct, reverse_at, f_type, f_size,
  f_indirect, ndirect, BlockType, reverse_typed, file2blk, block_super, block_file, block_index,
  block_bmap, block_free, block_boot, block_data,
}

-- The words from `lo` to before `hi`.
abbrev pub span : ℕ → ℕ → ℕ → Bool
span lo hi i = leb lo i && ltb i hi

abbrev pub flip : Bool → ℕ → ℕ
flip b y = if b then reverse y else y

reverse_words-flip :
    (n w : ℕ) (words : ℕ → ℕ) (i : ℕ)
    → reverse_words n w words i ≡ flip (span w (w + n) i) (words i)
unfolding reverse_words
reverse_words-flip zero w words i = ground arith
reverse_words-flip (suc n) w words i =
    ground (arith, reverse_words-flip n (w + 1) (reverse_at w words) i)

reverse_at-flip :
    (w : ℕ) (words : ℕ → ℕ) (i : ℕ) → reverse_at w words i ≡ flip (span w (w + 1) i) (words i)
reverse_at-flip w words i = ground arith

join_spans :
    (a b b' c i y : ℕ)
    → a ≤ b
    → b' ≡ b
    → b ≤ c
    → flip (span b' c i) (flip (span a b i) y) ≡ flip (span a c i) y
join_spans a b b' c i y h e l = ground arith

span_file :
    (f i y : ℕ)
    → flip (span (f + 44) (f + 44 + 1) i) (
        flip
          (span (f + 34 + 0) (f + 34 + 0 + 10) i)
          (flip (span (f + 33) (f + 33 + 1) i) (flip (span (f + 32) (f + 32 + 1) i) y)))
      ≡ flip (span (f + 32) (f + 45) i) y
span_file f i y =
    ap (λ x. flip (span (f + 44) (f + 44 + 1) i) (flip (span (f + 34 + 0) (f + 34 + 0 + 10) i) x))
      (join_spans (f + 32) (f + 32 + 1) (f + 33) (f + 33 + 1) i y (omega arith) (omega arith)
        (omega arith))
    ∙ ap (flip (span (f + 44) (f + 44 + 1) i)) (
        join_spans (f + 32) (f + 33 + 1) (f + 34 + 0) (f + 34 + 0 + 10) i y (omega arith)
          (omega arith) (omega arith))
    ∙ join_spans (f + 32) (f + 34 + 0 + 10) (f + 44) (f + 44 + 1) i y (omega arith) (omega arith)
        (omega arith)
    ∙ ap (λ x. flip (span (f + 32) x i) y) last_end
  where
    last_end : f + 44 + 1 ≡ f + 45
    last_end = omega arith

reverse_file-flip :
    (f : ℕ) (words : ℕ → ℕ) (i : ℕ)
    → reverse_file f words i ≡ flip (span (f + 32) (f + 45) i) (words i)
unfolding reverse_file
reverse_file-flip f words i =
    reverse_at-flip (f_indirect f)
      (reverse_words ndirect (f_direct f 0) (reverse_at (f_type f) (reverse_at (f_size f) words))) i
    ∙ rw
        (
          reverse_words-flip ndirect (f_direct f 0)
              (reverse_at (f_type f) (reverse_at (f_size f) words)) i,
          reverse_at-flip (f_type f) (reverse_at (f_size f) words) i,
          reverse_at-flip (f_size f) words i,
        )
        (span_file f i (words i))

-- The words that are turned in the `n` files from `f` on, up to the first without a name.
unfoldable pub live : (n f : ℕ) → (ℕ → ℕ) → ℕ → Bool
live zero f words i = false
live (suc n) f words i =
    let rest = live n (f + 64) words i in
    if words f % 256 == 0 then false else span (f + 32) (f + 45) i || rest

pub live-before : (n f : ℕ) (words : ℕ → ℕ) (i : ℕ) → i < f + 32 → live n f words i ≡ false
unfolding live
live-before zero f words i h = refl
live-before (suc n) f words i h = ground (arith, live-before n (f + 64) words i (omega (arith, h)))

-- It depends on the names only, which are not turned.
live-names :
    (n f : ℕ) (words other : ℕ → ℕ) (i : ℕ)
    → ((k : ℕ) → other (f + 64 * k) ≡ words (f + 64 * k))
    → live n f other i ≡ live n f words i
unfolding live
live-names zero f words other i h = refl
live-names (suc n) f words other i h =
    let same : other f ≡ words f = subst (λ x. other x ≡ words x) (omega arith) (h 0) in
    let ih =
      live-names n (f + 64) words other i
        (λ k. subst (λ x. other x ≡ words x) (omega arith) (h (suc k))) in
    rw (same, ih) refl

-- No word is turned twice.
either :
    (s l b : Bool) (y z : ℕ)
    → z ≡ flip s y
    → b ≡ l
    → (l ≡ false) ⊎ (s ≡ false)
    → flip b z ≡ flip (s || l) y
either s l b y z e h (inl x) = ground (arith, x)
either s l b y z e h (inr x) = ground (arith, x)

span-live :
    (n f : ℕ) (words : ℕ → ℕ) (i : ℕ)
    → (live n (f + 64) words i ≡ false) ⊎ (span (f + 32) (f + 45) i ≡ false)
span-live n f words i = elim (dec_lt i (f + 96)) [
  | yes l ↦ inl (live-before n (f + 64) words i (omega (arith, l)))
  | no l ↦ inr (ground (arith, l))
]

reverse_files-flip :
    (n f : ℕ) (words : ℕ → ℕ) (i : ℕ)
    → reverse_files n f words i ≡ flip (live n f words i) (words i)
unfolding reverse_files live
reverse_files-flip zero f words i = refl
reverse_files-flip (suc n) f words i =
    if-cases (λ (w : ℕ → ℕ). w i ≡ flip (live (suc n) f words i) (words i)) (words f % 256 == 0)
      (λ y. rw y refl)
      (λ m. rw m (
        reverse_files-flip n (f + 64) (reverse_file f words) i
        ∙ either (span (f + 32) (f + 45) i) (live n (f + 64) words i)
            (live n (f + 64) (reverse_file f words) i) (words i) (reverse_file f words i)
            (reverse_file-flip f words i)
            (live-names n (f + 64) words (reverse_file f words) i names) (span-live n f words i)))
  where
    names : (k : ℕ) → reverse_file f words (f + 64 + 64 * k) ≡ words (f + 64 + 64 * k)
    names k = reverse_file-flip f words (f + 64 + 64 * k) ∙ ground arith

-- Which words of a block `reverse_block` turns, by its type.
unfoldable pub turned : BlockType → ℕ → (ℕ → ℕ) → ℕ → Bool
turned block_super b words i =
    span (1024 * b) (1024 * b + 2) i || span (1024 * b + 34) (1024 * b + 47) i
turned block_file b words i = live file2blk (1024 * b) words i
turned block_index b words i = span (1024 * b) (1024 * b + 1024) i
turned block_bmap b words i = span (1024 * b) (1024 * b + 1024) i
turned _ b words i = false

magic_and_size :
    (w : ℕ) (words : ℕ → ℕ) (i : ℕ)
    → reverse_at (w + 1) (reverse_at w words) i ≡ flip (span w (w + 2) i) (words i)
magic_and_size w words i =
    reverse_at-flip (w + 1) (reverse_at w words) i
    ∙ ap (flip (span (w + 1) (w + 1 + 1) i)) (reverse_at-flip w words i)
    ∙ join_spans w (w + 1) (w + 1) (w + 1 + 1) i (words i) (omega arith) refl (omega arith)
    ∙ ap (λ x. flip (span w x i) (words i)) two
  where
    two : w + 1 + 1 ≡ w + 2
    two = omega arith

span_root : (w i : ℕ) → span (w + 2 + 32) (w + 2 + 45) i ≡ span (w + 34) (w + 47) i
span_root w i = ground arith

apart : (w i : ℕ) → (span (w + 34) (w + 47) i ≡ false) ⊎ (span w (w + 2) i ≡ false)
apart w i = elim (dec_lt i (w + 34)) [
  | yes l ↦ inl (ground (arith, l))
  | no l ↦ inr (ground (arith, l))
]

pub reverse_typed-flip :
    (t : BlockType) (b : ℕ) (words : ℕ → ℕ) (i : ℕ)
    → reverse_typed t b words i ≡ flip (turned t b words i) (words i)
unfolding reverse_typed turned
reverse_typed-flip block_super b words i =
    reverse_file-flip (1024 * b + 2) (reverse_at (1024 * b + 1) (reverse_at (1024 * b) words)) i
    ∙ either (span (1024 * b) (1024 * b + 2) i) (span (1024 * b + 34) (1024 * b + 47) i)
        (span (1024 * b + 2 + 32) (1024 * b + 2 + 45) i) (words i)
        (reverse_at (1024 * b + 1) (reverse_at (1024 * b) words) i)
        (magic_and_size (1024 * b) words i) (span_root (1024 * b) i) (apart (1024 * b) i)
reverse_typed-flip block_file b words i = reverse_files-flip file2blk (1024 * b) words i
reverse_typed-flip block_index b words i = reverse_words-flip 1024 (1024 * b) words i
reverse_typed-flip block_bmap b words i = reverse_words-flip 1024 (1024 * b) words i
reverse_typed-flip block_free b words i = refl
reverse_typed-flip block_boot b words i = refl
reverse_typed-flip block_data b words i = refl
