-- ===== src/Format/Turned.antt =====
-- tools/fsformat.c: what `reverse_block` does to each byte of the image.
use os_challenging_mission.Base.{
  ℕ, zero, suc, ◌+◌, ◌-◌, ◌*◌, ◌/◌, ◌%◌, ◌^◌, ◌≤◌, ◌<◌, ◌≡◌, ◌⊎◌, inl, inr, refl, sym, ap, ◌∙◌,
  subst, true, false, arith, ◌==◌, Bool-cases, dec_lt,
}
use os_challenging_mission.Format.{
  reverse, BlockType, Image, file2blk, reverse_block, block_super, block_file, block_index,
  block_bmap, block_free, block_boot, block_data, byte_of,
}
use os_challenging_mission.Format.Swap.{span, live, live-before, turned, reverse_typed-flip}

-- The word `o` of a block of files is a number of a file, and that file and those before it have
-- names.
abbrev pub InFile : ℕ → (ℕ → ℕ) → Type 0
InFile o block =
    (32 ≤ o % 64) × (o % 64 < 45) × ((j : ℕ) → j ≤ o / 64 → (block (64 * j) % 256 == 0) ≡ false)

-- The word `o` of a block of the type is a number: the magic number, the size and the root file of
-- a superblock, the files of a directory, and all of a bitmap or of an indirect block.
abbrev pub IsNumber : BlockType → ℕ → (ℕ → ℕ) → Type 0
IsNumber block_super o block = (o < 2) ⊎ ((34 ≤ o) × (o < 47))
IsNumber block_file o block = InFile o block
IsNumber block_index o block = Unit {0}
IsNumber block_bmap o block = Unit {0}
IsNumber _ o block = ⊥

-- The word `i` of the image is in the block `b`, and a number there.
abbrev pub IsTurned : ℕ → Image → ℕ → Type 0
IsTurned b s i =
    (1024 * b ≤ i)
    × (i < 1024 * b + 1024)
    × IsNumber (s.types b) (i - 1024 * b) (λ o. s.words (1024 * b + o))

-- `live`, for the word `o` from `f` on.
live-InFile :
    (n f o : ℕ) (words : ℕ → ℕ)
    → o < 64 * n
    → InFile o (λ w. words (f + w))
    → live n f words (f + o) ≡ true
unfolding live
live-InFile zero f o words h w = absurd (omega (arith, h))
live-InFile (suc n) f o words h (lo, hi, names) = elim (dec_lt o 64) [
  | yes l ↦
      let name : (words f % 256 == 0) ≡ false =
        subst (λ x. (words x % 256 == 0) ≡ false) (omega arith) (names 0 (omega arith)) in
      ground (arith, name, lo, hi, l)
  | no l ↦
      let name : (words f % 256 == 0) ≡ false =
        subst (λ x. (words x % 256 == 0) ≡ false) (omega arith) (names 0 (omega arith)) in
      let later : live n (f + 64) words (f + 64 + (o - 64)) ≡ true =
        live-InFile n (f + 64) (o - 64) words (omega (arith, h, l)) (
          omega (arith, lo, l),
          omega (arith, hi, l),
          λ j k.
              subst (λ x. (words x % 256 == 0) ≡ false) (omega arith)
                (names (suc j) (omega (arith, k, l))),
        ) in
      let same : f + 64 + (o - 64) ≡ f + o = omega (arith, l) in
      rw (name, subst (λ x. live n (f + 64) words x ≡ true) same later) (ground arith)
]

InFile-live :
    (n f o : ℕ) (words : ℕ → ℕ)
    → live n f words (f + o) ≡ true
    → (o < 64 * n) × InFile o (λ w. words (f + w))
unfolding live
InFile-live zero f o words h = absurd (ground (arith, h))
InFile-live (suc n) f o words h = elim (Bool-cases (words f % 256 == 0)) [
  | inl unnamed ↦ absurd (ground (arith, h, unnamed))
  | inr name ↦ elim (dec_lt o 64) [
    | yes l ↦
        let none_later = live-before n (f + 64) words (f + o) (omega (arith, l)) in
        let first : span (f + 32) (f + 45) (f + o) ≡ true = ground (arith, h, name, none_later) in
        (
          omega (arith, l),
          (
            ground (arith, first, l),
            ground (arith, first, l),
            λ j k. subst (λ x. (words x % 256 == 0) ≡ false) (omega (arith, k, l)) name,
          ),
        )
    | no l ↦
        let same : f + o ≡ f + 64 + (o - 64) = omega (arith, l) in
        let rest : live n (f + 64) words (f + o) ≡ true = ground (arith, h, name, l) in
        let (fits, (lo, hi, names)) =
          InFile-live n (f + 64) (o - 64) words
            (subst (λ x. live n (f + 64) words x ≡ true) same rest) in
        (
          omega (arith, fits, l),
          (omega (arith, lo, l), omega (arith, hi, l), λ j k. named f o words l name names j k),
        )
  ]
]
  where
    named :
        (f o : ℕ) (words : ℕ → ℕ)
        → ¬ (o < 64)
        → (words f % 256 == 0) ≡ false
        → ((j : ℕ) → j ≤ (o - 64) / 64 → (words (f + 64 + 64 * j) % 256 == 0) ≡ false)
        → (j : ℕ) → j ≤ o / 64
        → (words (f + 64 * j) % 256 == 0) ≡ false
    named f o words l name names zero k =
        subst (λ x. (words x % 256 == 0) ≡ false) (omega arith) name
    named f o words l name names (suc j) k =
        subst (λ x. (words x % 256 == 0) ≡ false) (omega arith) (names j (omega (arith, k, l)))

module _ (b : ℕ) (words : ℕ → ℕ) (i : ℕ) (lo : 1024 * b ≤ i) where
  there : 1024 * b + (i - 1024 * b) ≡ i
  there = omega (arith, lo)

  turned-IsNumber :
      (t : BlockType)
      → i < 1024 * b + 1024
      → IsNumber t (i - 1024 * b) (λ o. words (1024 * b + o))
      → turned t b words i ≡ true
  unfolding turned
  turned-IsNumber block_super hi (inl o) = ground (arith, o, lo)
  turned-IsNumber block_super hi (inr (x, y)) = ground (arith, x, y, lo)
  turned-IsNumber block_file hi w =
      subst (λ x. live file2blk (1024 * b) words x ≡ true) there
        (live-InFile file2blk (1024 * b) (i - 1024 * b) words (omega (arith, lo, hi)) w)
  turned-IsNumber block_index hi w = ground (arith, lo, hi)
  turned-IsNumber block_bmap hi w = ground (arith, lo, hi)
  turned-IsNumber block_free hi w = absurd w
  turned-IsNumber block_boot hi w = absurd w
  turned-IsNumber block_data hi w = absurd w

turned-starts :
    (b : ℕ) (words : ℕ → ℕ) (i : ℕ) (t : BlockType) → turned t b words i ≡ true → 1024 * b ≤ i
unfolding turned
turned-starts b words i block_super h = ground (arith, h)
turned-starts b words i block_file h = elim (dec_lt i (1024 * b)) [
  | yes l ↦
      let none_yet = live-before file2blk (1024 * b) words i (omega (arith, l)) in
      absurd (ground (arith, h, none_yet))
  | no l ↦ omega (arith, l)
]
turned-starts b words i block_index h = ground (arith, h)
turned-starts b words i block_bmap h = ground (arith, h)
turned-starts b words i block_free h = absurd (ground (arith, h))
turned-starts b words i block_boot h = absurd (ground (arith, h))
turned-starts b words i block_data h = absurd (ground (arith, h))

IsNumber-turned :
    (b : ℕ) (words : ℕ → ℕ) (i : ℕ) (t : BlockType)
    → 1024 * b ≤ i
    → turned t b words i ≡ true
    → (i < 1024 * b + 1024) × IsNumber t (i - 1024 * b) (λ o. words (1024 * b + o))
unfolding turned
IsNumber-turned b words i block_super lo h = elim (dec_lt i (1024 * b + 2)) [
  | yes l ↦ (omega (arith, l), inl (omega (arith, l, lo)))
  | no l ↦
      let second : span (1024 * b + 34) (1024 * b + 47) i ≡ true = ground (arith, h, l) in
      (ground (arith, second), inr (ground (arith, second), ground (arith, second)))
]
IsNumber-turned b words i block_file lo h =
    let (fits, w) =
      InFile-live file2blk (1024 * b) (i - 1024 * b) words
        (subst (λ x. live file2blk (1024 * b) words x ≡ true) (sym (there b words i lo)) h) in
    (omega (arith, fits, lo), w)
IsNumber-turned b words i block_index lo h = (ground (arith, h), tt)
IsNumber-turned b words i block_bmap lo h = (ground (arith, h), tt)
IsNumber-turned b words i block_free lo h = absurd (ground (arith, h))
IsNumber-turned b words i block_boot lo h = absurd (ground (arith, h))
IsNumber-turned b words i block_data lo h = absurd (ground (arith, h))

reverse-byte : (y k : ℕ) → k < 4 → reverse y / 2 ^ (8 * k) % 256 ≡ y / 2 ^ (8 * (3 - k)) % 256
unfolding reverse
reverse-byte y zero h = omega arith
reverse-byte y (suc zero) h = omega arith
reverse-byte y (suc (suc zero)) h = omega arith
reverse-byte y (suc (suc (suc zero))) h = omega arith
reverse-byte y (suc (suc (suc (suc k)))) h = absurd (omega (arith, h))

byte_in : (s : Image) (i k : ℕ) → k < 4 → byte_of s (4 * i + k) ≡ s.words i / 2 ^ (8 * k) % 256
byte_in s i k h =
    let word : (4 * i + k) / 4 ≡ i = omega (arith, h) in
    let byte : (4 * i + k) % 4 ≡ k = omega (arith, h) in rw (word, byte) refl

-- reverse_block of the block b puts the four bytes of each number of the block in the other order:
-- the magic number, the size and the numbers of the root file of a superblock, those of each file
-- of a directory up to the first without a name, and all words of a bitmap or of an indirect block.
-- Every other word of the image, of this block or of another, is left as it was.
pub reverse_block_lem :
    (b : ℕ) (s : Image) (i k : ℕ)
    → k < 4
    → (IsTurned b s i → byte_of (reverse_block b s) (4 * i + k) ≡ byte_of s (4 * i + (3 - k)))
      × (¬ IsTurned b s i → (reverse_block b s).words i ≡ s.words i)
reverse_block_lem b s i k h = elim (Bool-cases (turned (s.types b) b s.words i)) [
  | inl yes_ ↦
      let lo = turned-starts b s.words i (s.types b) yes_ in
      let word : (reverse_block b s).words i ≡ reverse (s.words i) =
        reverse_typed-flip (s.types b) b s.words i ∙ rw yes_ refl in
      (
        λ w.
            byte_in (reverse_block b s) i k h
            ∙ ap (λ y. y / 2 ^ (8 * k) % 256) word
            ∙ reverse-byte (s.words i) k h
            ∙ sym (byte_in s i (3 - k) (omega (arith, h))),
        λ n.
            let in_block = IsNumber-turned b s.words i (s.types b) lo yes_ in
            absurd (n (lo, in_block.0, in_block.1)),
      )
  | inr no_ ↦ (
    λ (lo, hi, w). absurd (ground (arith, no_, turned-IsNumber b s.words i lo (s.types b) hi w)),
    λ n. reverse_typed-flip (s.types b) b s.words i ∙ rw no_ refl,
  )
]
