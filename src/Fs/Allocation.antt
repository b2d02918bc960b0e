-- ===== src/Fs/Allocation.antt =====
-- fs/fs.c: which block `alloc_block_num` and `alloc_block` take, and what `free_block` undoes.
use os_challenging_mission.Base.{
  ℕ, zero, suc, ◌+◌, ◌/◌, ◌%◌, ◌^◌, ◌≤◌, ◌<◌, ◌≡◌, sym, ap, ◌∙◌, subst, true, false, not, arith,
  refl, ◌==◌, if◌then◌else◌, Option, none, some, ℕ_discrete, if-cases, ◌-◌, ◌≢◌, ◌||◌, leb,
}
use Prim.Native.Nat.{bit_and}
use os_challenging_mission.Base.Bitmap.{is_set, set_at, clear_at, is_set-set_at, is_set-clear_at}
use os_challenging_mission.Fs.{Fs, bitmap, s_nblocks, block_size_bit, block_is_mapped, write_block}
use os_challenging_mission.Fs.Blocks.{
  mark_used, mark_free, find_free, take_block, alloc_block_num, free_block,
}
use os_challenging_mission.Errors.{Outcome, ok, err, no_disk, panicked, switched, waiting}

pub is_set-same : (a b : ℕ → ℕ) (j : ℕ) → a (j / 32) ≡ b (j / 32) → is_set a j ≡ is_set b j
is_set-same a b j h = ap (λ w. not (bit_and w (2 ^ (j % 32)) == 0)) h

pub is_set-mark_used :
    (b : ℕ) (s : Fs) (j : ℕ)
    → is_set (bitmap (mark_used b s)) j ≡ (if j == b then false else is_set (bitmap s) j)
is_set-mark_used b s j =
    is_set-same (bitmap (mark_used b s)) (clear_at b (bitmap s)) j (ground arith)
    ∙ is_set-clear_at (bitmap s) b j

pub is_set-mark_free :
    (b : ℕ) (s : Fs) (j : ℕ)
    → is_set (bitmap (mark_free b s)) j ≡ (if j == b then true else is_set (bitmap s) j)
is_set-mark_free b s j =
    is_set-same (bitmap (mark_free b s)) (set_at b (bitmap s)) j (ground arith)
    ∙ is_set-set_at (bitmap s) b j

-- `b` is the lowest block from `from` that is free.
abbrev pub Lowest : ℕ → ℕ → Fs → Type 0
Lowest from b s =
    (from ≤ b)
    × (is_set (bitmap s) b ≡ true)
    × ((j : ℕ) → from ≤ j → j < b → is_set (bitmap s) j ≡ false)

-- What the search for a free block among the `n` blocks from `from` has found.
abbrev pub Search : ℕ → ℕ → Fs → Option ℕ → Type 0
Search n from s none = (j : ℕ) → from ≤ j → j < from + n → is_set (bitmap s) j ≡ false
Search n from s (some b) = (b < from + n) × Lowest from b s

later :
    (n from : ℕ) (s : Fs) (o : Option ℕ)
    → is_set (bitmap s) from ≡ false
    → Search n (suc from) s o
    → Search (suc n) from s o
later n from s none h r = λ j p q. elim (ℕ_discrete j from) [
  | yes e ↦ subst (λ i. is_set (bitmap s) i ≡ false) (sym e) h
  | no e ↦ r j (omega arith) (omega arith)
]
later n from s (some b) h (p, (q, r, u)) = (
  omega arith,
  (
    omega arith,
    r,
    λ j x y. elim (ℕ_discrete j from) [
      | yes e ↦ subst (λ i. is_set (bitmap s) i ≡ false) (sym e) h
      | no e ↦ u j (omega arith) (omega arith)
    ],
  ),
)

pub find_free-Search : (n from : ℕ) (s : Fs) → Search n from s (find_free n from s)
unfolding find_free
find_free-Search zero from s = λ j p q. absurd (omega arith)
find_free-Search (suc n) from s =
    if-cases (Search (suc n) from s) (is_set (bitmap s) from)
      (λ h. (omega arith, (omega arith, h, λ j p q. absurd (omega arith))))
      (λ h. later n from s (find_free n (suc from) s) h (find_free-Search n (suc from) s))

-- The pages of the bitmap are in the cache, as `read_bitmap` leaves them.
abbrev pub HasBitmap : Fs → Type 0
HasBitmap s = (b : ℕ) → b < s_nblocks s → block_is_mapped (b / block_size_bit + 2) s ≡ true

-- Block `b` alone has become used, and its bitmap block is on the disk.
abbrev pub Taken : ℕ → Fs → Fs → Type 0
Taken b s t =
    ((j : ℕ) → is_set (bitmap t) j ≡ (if j == b then false else is_set (bitmap s) j))
    × ((w : ℕ) → w / 1024 ≡ b / block_size_bit + 2 → t.disk w ≡ t.mem w)
    × ((w : ℕ) → w ≢ 2048 + b / 32 → t.mem w ≡ s.mem w)
    × (t.is_mapped ≡ s.is_mapped)

abbrev pub Numbered : Fs → Outcome ℕ × Fs → Type 0
Numbered s (ok b, t) = (b < s_nblocks s) × Lowest 3 b s × Taken b s t
Numbered s (err e, t) =
    (e ≡ no_disk) × (t ≡ s) × ((j : ℕ) → 3 ≤ j → j < s_nblocks s → is_set (bitmap s) j ≡ false)
Numbered s _ = ⊥

take_block-Numbered :
    (s : Fs) (o : Option ℕ)
    → HasBitmap s
    → Search (s_nblocks s - 3) 3 s o
    → Numbered s (take_block o s)
unfolding take_block write_block block_is_mapped
take_block-Numbered s none m h = (refl, refl, λ j p q. h j p (omega arith))
take_block-Numbered s (some b) m (p, q) = rw (m b (omega arith)) (
  omega arith,
  q,
  (is_set-mark_used b s, (λ w e. ground arith), (λ w n. ground (arith, n)), refl),
)

-- If the bitmap is in the cache, `alloc_block_num` returns the lowest free block from block 3; it
-- alone becomes used, its bitmap block is on the disk as it is in the cache, and no other word of the
-- cache and no mapping changes. If no block from 3 to the end is free it returns -E_NO_DISK and changes nothing.
pub alloc_block_num_lem : (s : Fs) → HasBitmap s → Numbered s (alloc_block_num s)
unfolding alloc_block_num
alloc_block_num_lem s m =
    take_block-Numbered s (find_free (s_nblocks s - 3) 3 s) m
      (find_free-Search (s_nblocks s - 3) 3 s)

nblocks-kept : (s t : Fs) (b : ℕ) → Taken b s t → s_nblocks t ≡ s_nblocks s
nblocks-kept s t b (p, q, r, m) = r 1025 (λ e. absurd (omega (arith, e)))

pub freed :
    (s t : Fs) (b : ℕ)
    → b < s_nblocks s
    → Lowest 3 b s
    → Taken b s t
    → (j : ℕ) → is_set (bitmap (free_block b t)) j ≡ is_set (bitmap s) j
unfolding free_block
freed s t b h (p, q, r) u j =
    let same = nblocks-kept s t b u in
    if-cases (λ (v : Fs). is_set (bitmap v) j ≡ is_set (bitmap s) j) (b == 0 || leb (s_nblocks t) b)
      (λ e. absurd (ground (arith, same, h, p, e)))
      (λ e. is_set-mark_free b t j ∙ back (ℕ_discrete j b) (u.0 j))
  where
    back :
        Dec (j ≡ b)
        → is_set (bitmap t) j ≡ (if j == b then false else is_set (bitmap s) j)
        → (if j == b then true else is_set (bitmap t) j) ≡ is_set (bitmap s) j
    back (yes e) k = rw e (ground (arith, q))
    back (no n) k = ground (arith, n, k)

freed_from :
    (s : Fs) (o : Outcome ℕ) (t : Fs) (b : ℕ)
    → o ≡ ok b
    → Numbered s (o, t)
    → (j : ℕ) → is_set (bitmap (free_block b t)) j ≡ is_set (bitmap s) j
freed_from s (ok c) t b h (p, q, u) =
    let same : c ≡ b = ground (arith, h) in
    subst (λ b. (j : ℕ) → is_set (bitmap (free_block b t)) j ≡ is_set (bitmap s) j) same
      (freed s t c p q u)
freed_from s (err e) t b h u = absurd (ground (arith, h))
freed_from s panicked t b h u = absurd u
freed_from s switched t b h u = absurd u
freed_from s waiting t b h u = absurd u

-- `free_block` after `alloc_block_num` leaves every block as free as it was, if the bitmap is in the
-- cache.
pub free_block-alloc_block_num :
    (s : Fs) (b : ℕ)
    → HasBitmap s
    → (alloc_block_num s).0 ≡ ok b
    → (j : ℕ) → is_set (bitmap (free_block b (alloc_block_num s).1)) j ≡ is_set (bitmap s) j
free_block-alloc_block_num s b m h =
    freed_from s (alloc_block_num s).0 (alloc_block_num s).1 b h (alloc_block_num_lem s m)
