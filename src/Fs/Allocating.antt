-- ===== src/Fs/Allocating.antt =====
-- fs/fs.c: `alloc_block` on success and on failure.
use os_challenging_mission.Base.{
  ℕ, ◌+◌, ◌/◌, ◌<◌, ◌≡◌, ◌≢◌, ◌⊎◌, inl, inr, refl, sym, ap, ◌∙◌, subst, Bool, true, false, arith,
  ◌==◌, if◌then◌else◌, Bool-cases, update_same,
}
use os_challenging_mission.Base.Bitmap.{is_set}
use os_challenging_mission.Fs.Allocation.{
  is_set-same, HasBitmap, Taken, Numbered, alloc_block_num_lem, Lowest, freed,
}
use os_challenging_mission.Fs.{
  Fs, block_is_mapped, map_block, mem_alloc, s_nblocks, copy_block, bitmap, block_size_bit,
}
use os_challenging_mission.Fs.Blocks.{
  map_or_free, alloc_block, alloc_block_num, free_block, map_done,
}
use os_challenging_mission.Errors.{
  Outcome, ok, and_then, err, no_disk, no_mem, panicked, switched, waiting,
}

-- What `alloc_block` does: its block is in use and in the cache, or no block has changed.
abbrev pub Allocated : Fs → Outcome ℕ × Fs → Type 0
Allocated s (ok b, t) =
    (b < s_nblocks s)
    × Lowest 3 b s
    × (block_is_mapped b t ≡ true)
    × ((j : ℕ)
        → j < s_nblocks s
        → is_set (bitmap t) j ≡ (if j == b then false else is_set (bitmap s) j))
Allocated s (err e, t) =
    ((e ≡ no_disk) ⊎ (e ≡ no_mem))
    × ((j : ℕ) → j < s_nblocks s → is_set (bitmap t) j ≡ is_set (bitmap s) j)
Allocated s _ = ⊥

apart : (m : ℕ → Bool) (b c : ℕ) → m b ≡ false → m c ≡ true → c ≢ b
apart m b c h k e = absurd (ground (arith, h, k, ap m e))

-- A new page is not where the bitmap is.
bitmap-mem_alloc :
    (s t : Fs) (b j : ℕ)
    → HasBitmap s
    → Taken b s t
    → t.is_mapped b ≡ false
    → j < s_nblocks s
    → copy_block b (λ _. 0) t.mem (2048 + j / 32) ≡ t.mem (2048 + j / 32)
unfolding block_is_mapped
bitmap-mem_alloc s t b j m (p, q, r, same) h k =
    let far : j / block_size_bit + 2 ≢ b =
      apart s.is_mapped b _ (subst (λ f. f b ≡ false) same h) (m j k) in
    ground (arith, far)

-- The three ways in which `map_or_free` ends.
map_or_free-mapped : (b : ℕ) (t : Fs) → t.is_mapped b ≡ true → map_or_free b t ≡ (ok b, t)
unfolding map_or_free map_done map_block block_is_mapped
map_or_free-mapped b t e = rw e refl

map_or_free-fails :
    (b : ℕ) (t : Fs)
    → t.is_mapped b ≡ false
    → (t.frames == 0) ≡ true
    → map_or_free b t ≡ (err no_mem, free_block b t)
unfolding map_or_free map_done map_block mem_alloc block_is_mapped
map_or_free-fails b t e f = rw (e, f) refl

map_or_free-new :
    (b : ℕ) (t : Fs)
    → t.is_mapped b ≡ false
    → (t.frames == 0) ≡ false
    → map_or_free b t ≡ (ok b, (mem_alloc b t).1)
unfolding map_or_free map_done map_block mem_alloc block_is_mapped
map_or_free-new b t e f = rw (e, f) refl

mem_alloc-Allocated :
    (s t : Fs) (b : ℕ)
    → HasBitmap s
    → b < s_nblocks s
    → Lowest 3 b s
    → Taken b s t
    → t.is_mapped b ≡ false
    → (t.frames == 0) ≡ false
    → Allocated s (ok b, (mem_alloc b t).1)
unfolding mem_alloc block_is_mapped
mem_alloc-Allocated s t b m h q u e f = rw f (
  h,
  q,
  update_same t.is_mapped b true,
  λ j k.
      is_set-same (λ i. copy_block b (λ _. 0) t.mem (2048 + i)) (bitmap t) j
        (bitmap-mem_alloc s t b j m u e k)
      ∙ u.0 j,
)

map_or_free-Allocated :
    (s t : Fs) (b : ℕ)
    → HasBitmap s
    → b < s_nblocks s
    → Lowest 3 b s
    → Taken b s t
    → Allocated s (map_or_free b t)
unfolding block_is_mapped
map_or_free-Allocated s t b m h q u = elim (Bool-cases (t.is_mapped b)) [
  | inl e ↦ subst (Allocated s) (sym (map_or_free-mapped b t e)) (h, q, e, λ j k. u.0 j)
  | inr e ↦ elim (Bool-cases (t.frames == 0)) [
    | inl f ↦
        subst (Allocated s) (sym (map_or_free-fails b t e f)) (inr refl, λ j k. freed s t b h q u j)
    | inr f ↦
        subst (Allocated s) (sym (map_or_free-new b t e f)) (mem_alloc-Allocated s t b m h q u e f)
  ]
]

and_then-Allocated :
    (s : Fs) (o : Outcome ℕ) (t : Fs)
    → HasBitmap s
    → Numbered s (o, t)
    → Allocated s (and_then (o, t) map_or_free)
and_then-Allocated s (ok b) t m (p, q, u) = map_or_free-Allocated s t b m p q u
and_then-Allocated s (err e) t m (p, same, q) =
    (inl p, λ j k. ap (λ (v : Fs). is_set (bitmap v) j) same)
and_then-Allocated s panicked t m u = absurd u
and_then-Allocated s switched t m u = absurd u
and_then-Allocated s waiting t m u = absurd u

-- If the bitmap is in the cache, `alloc_block` returns the lowest free block from block 3, mapped, and
-- of the blocks of the file system it alone becomes used; or it fails with -E_NO_DISK or -E_NO_MEM,
-- and each block of the file system is as free as before.
pub alloc_block_lem : (s : Fs) → HasBitmap s → Allocated s (alloc_block s)
unfolding alloc_block
alloc_block_lem s m =
    and_then-Allocated s (alloc_block_num s).0 (alloc_block_num s).1 m (alloc_block_num_lem s m)
