-- ===== src/Fs/Mapping.antt =====
-- fs/fs.c: what `file_map_block` and `file_clear_block` do with the direct blocks of a file.
use os_challenging_mission.Base.{
  ℕ, ◌+◌, ◌/◌, ◌<◌, ◌≡◌, ◌≢◌, ◌⊎◌, inl, inr, refl, sym, ap, ◌∙◌, subst, Bool, true, false, not,
  ◌||◌, arith, ◌==◌, ltb, leb, if-cases, ==_ne, update_same,
}
use os_challenging_mission.Base.Bitmap.{is_set}
use os_challenging_mission.Errors.{
  Outcome, ok, err, not_found, and_then_ok, and_then, panicked, switched, waiting,
}
use os_challenging_mission.Fs.{Fs, bitmap, s_nblocks, store}
use os_challenging_mission.Fs.Blocks.{alloc_block, free_block, mark_free}
use os_challenging_mission.Fs.File.{
  ndirect, f_direct, file_block_walk, map_slot, file_map_block, clear_slot, file_clear_block,
}
use os_challenging_mission.Fs.Allocation.{HasBitmap, is_set-same, is_set-mark_free}
use os_challenging_mission.Fs.Allocating.{Allocated, alloc_block_lem}

direct_walk :
    (f n : ℕ) (alloc : Bool) (s : Fs)
    → n < ndirect
    → file_block_walk f n alloc s ≡ (ok (f_direct f n), s)
unfolding file_block_walk
direct_walk f n alloc s h =
    if-cases (λ (r : Outcome ℕ × Fs). r ≡ (ok (f_direct f n), s)) (ltb n ndirect) (λ _. refl)
      (λ e. absurd (ground (arith, h, e)))

direct_map :
    (f n : ℕ) (alloc : Bool) (s : Fs)
    → n < ndirect
    → file_map_block f n alloc s ≡ map_slot alloc (f_direct f n) s
unfolding file_map_block
direct_map f n alloc s h = ap (λ r. and_then r (map_slot alloc)) (direct_walk f n alloc s h)

-- A slot that is not 0 is what `file_map_block` returns.
map_slot-full :
    (alloc : Bool) (p : ℕ) (s : Fs) → s.mem p ≢ 0 → map_slot alloc p s ≡ (ok (s.mem p), s)
unfolding map_slot
map_slot-full alloc p s h = rw (==_ne (s.mem p) 0 h) refl

map_slot-empty : (p : ℕ) (s : Fs) → s.mem p ≡ 0 → map_slot false p s ≡ (err not_found, s)
unfolding map_slot
map_slot-empty p s h = rw h refl

alloc_block-positive : (s : Fs) (b : ℕ) → HasBitmap s → (alloc_block s).0 ≡ ok b → b ≢ 0
alloc_block-positive s b m h = positive (alloc_block s).0 (alloc_block s).1 h (alloc_block_lem s m)
  where
    positive : (o : Outcome ℕ) (t : Fs) → o ≡ ok b → Allocated s (o, t) → b ≢ 0
    positive (ok c) t e u = λ z. absurd (ground (arith, e, u.1.0, z))
    positive (err x) t e u = absurd (ground (arith, e))
    positive panicked t e u = absurd u
    positive switched t e u = absurd u
    positive waiting t e u = absurd u

-- The slot that a call has returned is found again.
abbrev Again : ℕ → ℕ → Outcome ℕ × Fs → Type 0
Again p b r = r.0 ≡ ok b → map_slot false p r.1 ≡ (ok b, r.1)

stored-Again : (p a b : ℕ) (t : Fs) → a ≢ 0 → Again p b (ok a, store p a t)
stored-Again p a b t n e =
    map_slot-full false p (store p a t) (λ z. n (sym (update_same t.mem p a) ∙ z))
    ∙ ap (λ x. (x, store p a t)) (ap ok (update_same t.mem p a) ∙ e)

alloc_block-Again :
    (p b : ℕ) (s : Fs)
    → HasBitmap s
    → Again p b (and_then (alloc_block s) (λ a t. (ok a, store p a t)))
alloc_block-Again p b s m h =
    let (a, e, same) = and_then_ok (alloc_block s) (λ a t. (ok a, store p a t)) h in
    subst (Again p b) (sym same)
      (stored-Again p a b (alloc_block s).1 (alloc_block-positive s a m e)) h

map_slot-Again : (p b : ℕ) (s : Fs) → HasBitmap s → Again p b (map_slot true p s)
unfolding map_slot
map_slot-Again p b s m =
    if-cases (Again p b) (not (s.mem p == 0))
      (λ e h. map_slot-full false p s (λ z. absurd (ground (arith, e, z))) ∙ ap (λ x. (x, s)) h)
      (λ e. alloc_block-Again p b s m)

-- What `file_map_block` returns for a direct block, allocated or not, it returns again without `alloc`,
-- and changes nothing then, if the bitmap is in the cache.
pub file_map_block-again :
    (f n b : ℕ) (s : Fs)
    → n < ndirect
    → HasBitmap s
    → (file_map_block f n true s).0 ≡ ok b
    → file_map_block f n false (file_map_block f n true s).1 ≡ (ok b, (file_map_block f n true s).1)
file_map_block-again f n b s h m =
    rw (direct_map f n true s h, direct_map f n false (map_slot true (f_direct f n) s).1 h)
      (map_slot-Again (f_direct f n) b s m)

clear_slot-full :
    (p : ℕ) (s : Fs) → s.mem p ≢ 0 → clear_slot p s ≡ (ok tt, store p 0 (free_block (s.mem p) s))
unfolding clear_slot
clear_slot-full p s h = rw (==_ne (s.mem p) 0 h) refl

direct_clear :
    (f n : ℕ) (s : Fs) → n < ndirect → file_clear_block f n s ≡ clear_slot (f_direct f n) s
unfolding file_clear_block
direct_clear f n s h = ap (λ r. and_then r clear_slot) (direct_walk f n false s h)

free_block-is_set :
    (b p : ℕ) (s : Fs)
    → b ≢ 0
    → b < s_nblocks s
    → p < 2048 ⊎ (2048 + s_nblocks s / 32 < p)
    → is_set (bitmap (store p 0 (free_block b s))) b ≡ true
unfolding free_block
free_block-is_set b p s n h o =
    if-cases (λ (v : Fs). is_set (bitmap (store p 0 v)) b ≡ true) (b == 0 || leb (s_nblocks s) b)
      (λ e. absurd (ground (arith, n, h, e)))
      (λ e.
        is_set-same (bitmap (store p 0 (mark_free b s))) (bitmap (mark_free b s)) b (away o)
        ∙ is_set-mark_free b s b
        ∙ ground arith)
  where
    away :
        p < 2048 ⊎ (2048 + s_nblocks s / 32 < p)
        → bitmap (store p 0 (mark_free b s)) (b / 32) ≡ bitmap (mark_free b s) (b / 32)
    away (inl q) = ground (arith, q)
    away (inr q) = ground (arith, q, h)

-- `file_clear_block` of a direct block that the file has returns; the block is then marked free, and
-- `file_map_block` without `alloc` finds no block there and changes nothing. The block is one of the
-- file system, and the structure of the file is not in the bitmap.
pub file_map_block-file_clear_block :
    (f n : ℕ) (s : Fs)
    → n < ndirect
    → s.mem (f_direct f n) ≢ 0
    → s.mem (f_direct f n) < s_nblocks s
    → f_direct f n < 2048 ⊎ (2048 + s_nblocks s / 32 < f_direct f n)
    → ((file_clear_block f n s).0 ≡ ok tt)
      × (is_set (bitmap (file_clear_block f n s).1) (s.mem (f_direct f n)) ≡ true)
      × (file_map_block f n false (file_clear_block f n s).1
          ≡ (err not_found, (file_clear_block f n s).1))
file_map_block-file_clear_block f n s h k l o =
    let p = f_direct f n in
    let cleared : file_clear_block f n s ≡ (ok tt, store p 0 (free_block (s.mem p) s)) =
      direct_clear f n s h ∙ clear_slot-full p s k in
    subst
      (λ (r : Outcome (Unit {0}) × Fs).
        (r.0 ≡ ok tt)
        × (is_set (bitmap r.1) (s.mem p) ≡ true)
        × (file_map_block f n false r.1 ≡ (err not_found, r.1)))
      (sym cleared)
      (
        refl,
        free_block-is_set (s.mem p) p s k l o,
        direct_map f n false (store p 0 (free_block (s.mem p) s)) h
            ∙ map_slot-empty p (store p 0 (free_block (s.mem p) s))
                (update_same (free_block (s.mem p) s).mem p 0),
      )
