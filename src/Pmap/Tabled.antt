-- ===== src/Pmap/Tabled.antt =====
-- kern/pmap.c: the walk of a directory that has a page table for an address, and how it gets one.
use Prim.Native.Nat.{bit_or}
use os_challenging_mission.Base.{
  ◌⊎◌, ℕ, ◌/◌, ◌^◌, ◌≤◌, ◌<◌, ◌≡◌, ◌≢◌, refl, Bool, true, false, List, [], ◌∷◌, arith, count, none,
  some,
}
use os_challenging_mission.Errors.{ok, err, panicked, no_mem}
use os_challenging_mission.Pmap.{
  Pmap, pdx, ptx, ppn, page_alloc, page_decref, pgdir_walk, make_table, table_entry, page_lookup,
  pa2page, is_valid, lookup_at, write_word, pte_for,
}
use os_challenging_mission.Pmap.Entry.{ppn-pte_for, pte_for-valid, ppn-pde, pde-valid}
use os_challenging_mission.Pmap.Free.{FreeInv}

-- The directory `pgdir` has a page table for `va` in page `table`, which is not itself.
pub record Tabled (pgdir va table : ℕ) (s : Pmap) : Type 0 where
  pub valid : is_valid (s.memory pgdir (pdx va)) ≡ true
  pub points : ppn (s.memory pgdir (pdx va)) ≡ table
  pub inside : table < s.npage
  pub apart : table ≢ pgdir

module _ {pgdir va table : ℕ} {s : Pmap} (w : Tabled pgdir va table s) where
  pub pgdir_walk_tabled :
      (create : Bool) → pgdir_walk pgdir va create s ≡ (ok (some (table, ptx va)), s)
  unfolding pgdir_walk table_entry
  pgdir_walk_tabled create = rw w.valid (ground (arith, w.points, w.inside))

  pub Tabled-write : (v : ℕ) → Tabled pgdir va table (write_word (table, ptx va) v s)
  Tabled-write v = record {
    valid = ground (arith, w.valid, w.apart);
    points = ground (arith, w.points, w.apart);
    inside = w.inside;
    apart = w.apart;
  }

  -- The lookup reads the entry.
  pub page_lookup_entry :
      is_valid (s.memory table (ptx va)) ≡ true
      → ppn (s.memory table (ptx va)) < s.npage
      → (page_lookup pgdir va s).0 ≡ ok (some (ppn (s.memory table (ptx va)), table, ptx va))
  unfolding page_lookup lookup_at pa2page
  page_lookup_entry valid fits = rw (pgdir_walk_tabled false) (ground arith)

  pub page_lookup_cleared : s.memory table (ptx va) ≡ 0 → (page_lookup pgdir va s).0 ≡ ok none
  unfolding page_lookup lookup_at
  page_lookup_cleared zeroed = rw (pgdir_walk_tabled false) (ground arith)

-- A lookup of `va` finds page `q`.
abbrev pub Finds : ℕ → ℕ → ℕ → Pmap → Type 0
Finds pgdir va q s = (table : ℕ) × ((page_lookup pgdir va s).0 ≡ ok (some (q, table, ptx va)))

-- An entry that `page_insert` wrote leads to its page.
pub Finds-pte_for :
    {pgdir va table : ℕ} {s : Pmap} (pp perm : ℕ)
    → Tabled pgdir va table s
    → s.memory table (ptx va) ≡ pte_for pp perm
    → pp < 2 ^ 20
    → bit_or pp (perm / 4096) < s.npage
    → Finds pgdir va (bit_or pp (perm / 4096)) s
Finds-pte_for {pgdir} {va} {table} {s} pp perm w e small fits =
    let q : ppn (s.memory table (ptx va)) ≡ bit_or pp (perm / 4096) =
      rw e (ppn-pte_for pp perm small) in
    (table, rw (← q) (page_lookup_entry w (rw e (pte_for-valid pp perm)) (rw q fits)))

-- The directory entry of `va`, if valid, points to a page table other than the directory, and the
-- directory is not on the free list.
pub record Ready (pgdir va : ℕ) (s : Pmap) : Type 0 where
  pub table_inside :
      is_valid (s.memory pgdir (pdx va)) ≡ true → ppn (s.memory pgdir (pdx va)) < s.npage
  pub table_apart :
      is_valid (s.memory pgdir (pdx va)) ≡ true → ppn (s.memory pgdir (pdx va)) ≢ pgdir
  pub dir_used : count pgdir s.page_free_list ≡ 0
  pub free : FreeInv s
  pub memory_limit : s.npage ≤ 2 ^ 20

module _ (pgdir asid va : ℕ) where
  pub no_table :
      (s : Pmap)
      → s.page_free_list ≡ []
      → is_valid (s.memory pgdir (pdx va)) ≡ false
      → (pgdir_walk pgdir va true s).0 ≡ err no_mem
  unfolding pgdir_walk make_table page_alloc
  no_table s e none_yet = rw (none_yet, e, page_alloc)

  pub no_entry :
      (s : Pmap)
      → is_valid (s.memory pgdir (pdx va)) ≡ false
      → pgdir_walk pgdir va false s ≡ (ok none, s)
  unfolding pgdir_walk
  no_entry s e = rw e

  pub make_table-Tabled :
      (s : Pmap) (table : ℕ) (rest : List ℕ)
      → Ready pgdir va s
      → s.page_free_list ≡ table ∷ rest
      → Tabled pgdir va table (make_table pgdir va s).1
  unfolding make_table page_alloc
  make_table-Tabled s table rest ready e =
      let other : table ≢ pgdir = ground (arith, ready.dir_used, e) in
      let free : table < s.npage = ground (arith, ready.free.unused table, e) in
      rw (e, page_alloc)
        record {
          valid = ground (arith, pde-valid table, other);
          points = ground (arith, ppn-pde table (omega (arith, ready.memory_limit)), other);
          inside = free;
          apart = other;
        }

  pub table_entry-Tabled :
      {table : ℕ} {s : Pmap}
      → Tabled pgdir va table s
      → table_entry (s.memory pgdir (pdx va)) va s ≡ (ok (some (table, ptx va)), s)
  unfolding table_entry
  table_entry-Tabled {table} {s} w = ground (arith, w.points, w.inside)

  pub new_table :
      (s : Pmap) (table : ℕ) (rest : List ℕ)
      → Ready pgdir va s
      → is_valid (s.memory pgdir (pdx va)) ≡ false
      → s.page_free_list ≡ table ∷ rest
      → pgdir_walk pgdir va true s ≡ (ok (some (table, ptx va)), (make_table pgdir va s).1)
  unfolding pgdir_walk
  new_table s table rest ready none_yet e =
      let made : (make_table pgdir va s).0 ≡ ok tt =
        unfold make_table page_alloc in rw (e, page_alloc) refl in
      rw (none_yet, made) (table_entry-Tabled (make_table-Tabled s table rest ready e))

  pub make_table-npage : (s : Pmap) → (make_table pgdir va s).1.npage ≡ s.npage
  unfolding make_table page_alloc
  make_table-npage s = ground arith

  -- `page_decref` stops the system or leaves the memory as it is.
  pub page_decref_memory :
      (old : ℕ) (s : Pmap)
      → ((page_decref old s).0 ≡ panicked)
        ⊎ (((page_decref old s).0 ≡ ok tt)
            × ((page_decref old s).1.memory ≡ s.memory)
            × ((page_decref old s).1.npage ≡ s.npage))
  unfolding page_decref
  page_decref_memory old s = ground arith

  pub Tabled-same :
      {table : ℕ} {s t : Pmap}
      → Tabled pgdir va table s
      → t.memory ≡ s.memory
      → t.npage ≡ s.npage
      → Tabled pgdir va table t
  Tabled-same w m n = record {
    valid = rw m w.valid;
    points = rw m w.points;
    inside = rw n w.inside;
    apart = w.apart;
  }
