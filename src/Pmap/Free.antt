-- ===== src/Pmap/Free.antt =====
-- kern/pmap.c: the free list of pages.
use os_challenging_mission.Base.{
  ap, ◌∙◌, ℕ, ◌≤◌, ◌<◌, ◌≡◌, ◌≢◌, refl, Bool, true, false, List, ◌∷◌, arith, ◌==◌, if◌then◌else◌,
  count, Option, none, some, Bool-cases, inl, inr,
}
use os_challenging_mission.Errors.{ok, and_then_keeps, ◌>>◌}
use os_challenging_mission.Pmap.{
  Pmap, pdx, page_alloc, page_decref, pgdir_walk, make_table, table_entry, page_insert, page_lookup,
  page_remove, ref_inc, pa2page, is_valid, store_new, insert_new, replace, insert_at, lookup_at,
  remove_at, read_word, write_word, ppn, tlb_invalidate,
}

-- A page stands at most once on the free list, and has then no reference.
pub record FreeInv (s : Pmap) : Type 0 where
  pub once : (p : ℕ) → count p s.page_free_list ≤ 1
  pub unused : (p : ℕ) → 0 < count p s.page_free_list → (s.pp_ref p ≡ 0) × (p < s.npage)

-- `page_alloc` takes the first free page and clears it, or fails with -E_NO_MEM.
pub page_alloc_lem :
    (s : Pmap) (pp : ℕ) (rest : List ℕ)
    → s.page_free_list ≡ pp ∷ rest
    → ((page_alloc s).0 ≡ ok pp)
      × ((page_alloc s).1.page_free_list ≡ rest)
      × ((i : ℕ) → (page_alloc s).1.memory pp i ≡ 0)
unfolding page_alloc
page_alloc_lem s pp rest e = rw (e, page_alloc) (refl, refl, λ i. ground arith)

pub page_alloc-FreeInv : (s : Pmap) → FreeInv s → FreeInv (page_alloc s).1
unfolding page_alloc
page_alloc-FreeInv s inv = record {
  once = λ p. ground (arith, inv.once p);
  unused = λ p. ground (arith, inv.unused p, inv.once p);
}

pub page_decref-FreeInv :
    (pp : ℕ) (s : Pmap) → pp < s.npage → FreeInv s → FreeInv (page_decref pp s).1
unfolding page_decref
page_decref-FreeInv pp s h inv = record {
  once = λ p. ground (arith, inv.once p, inv.unused p);
  unused = λ p. ground (arith, inv.unused p, inv.once p);
}

ref_inc-FreeInv :
    (pp : ℕ) (s : Pmap) → count pp s.page_free_list ≡ 0 → FreeInv s → FreeInv (ref_inc pp s)
ref_inc-FreeInv pp s off inv = record {
  once = inv.once;
  unused = λ p. ground (arith, inv.unused p);
}

make_table-FreeInv : (pgdir va : ℕ) (s : Pmap) → FreeInv s → FreeInv (make_table pgdir va s).1
unfolding make_table page_alloc
make_table-FreeInv pgdir va s inv = record {
  once = λ p. ground (arith, inv.once p);
  unused = λ p. ground (arith, inv.unused p, inv.once p);
}

-- The free list is sound, and the page `pp` is not on it.
abbrev pub FreeBut : ℕ → Pmap → Type 0
FreeBut pp s = FreeInv s × (count pp s.page_free_list ≡ 0)

module _ (pp : ℕ) where
  make_table-FreeBut :
      (pgdir va : ℕ) (s : Pmap) → FreeBut pp s → FreeBut pp (make_table pgdir va s).1
  unfolding make_table page_alloc
  make_table-FreeBut pgdir va s (inv, off) = (make_table-FreeInv pgdir va s inv, ground arith)

  table_entry-FreeBut : (pde va : ℕ) (s : Pmap) → FreeBut pp s → FreeBut pp (table_entry pde va s).1
  unfolding table_entry
  table_entry-FreeBut pde va s h = ground arith

  pgdir_walk-FreeBut :
      (pgdir va : ℕ) (create : Bool) (s : Pmap)
      → FreeBut pp s
      → FreeBut pp (pgdir_walk pgdir va create s).1
  unfolding pgdir_walk
  pgdir_walk-FreeBut pgdir va create s h = elim (Bool-cases (is_valid (s.memory pgdir (pdx va)))) [
    | inl old ↦ rw old (table_entry-FreeBut (s.memory pgdir (pdx va)) va s h)
    | inr new ↦ rw new (absent create)
  ]
    where
      absent :
          (c : Bool)
          → FreeBut pp
              (if c
                then (do make_table pgdir va; λ t. table_entry (t.memory pgdir (pdx va)) va t) s
                else (ok none, s)).1
      absent false = h
      absent true =
          and_then_keeps (FreeBut pp) (make_table pgdir va s)
            (λ _ t. table_entry (t.memory pgdir (pdx va)) va t) (make_table-FreeBut pgdir va s h)
            λ _ _. table_entry-FreeBut _ va _ (make_table-FreeBut pgdir va s h)

  store_new-FreeInv :
      (asid va perm : ℕ) (pte : Option (ℕ × ℕ)) (s : Pmap)
      → FreeBut pp s
      → FreeInv (store_new asid pp va perm pte s).1
  unfolding store_new
  store_new-FreeInv asid va perm none s (inv, off) = inv
  store_new-FreeInv asid va perm (some p) s (inv, off) = record {
    once = inv.once;
    unused = λ q. ground (arith, inv.unused q);
  }

  insert_new-FreeInv :
      (pgdir asid va perm : ℕ) (s : Pmap)
      → FreeBut pp s
      → FreeInv (insert_new pgdir asid pp va perm s).1
  unfolding insert_new
  insert_new-FreeInv pgdir asid va perm s h =
      let walked = pgdir_walk-FreeBut pgdir va true s h in
      and_then_keeps FreeInv (pgdir_walk pgdir va true s) (store_new asid pp va perm) walked.0
        λ pte _. store_new-FreeInv asid va perm pte _ walked

  page_decref-FreeBut :
      (old : ℕ) (s : Pmap)
      → old < s.npage
      → old ≢ pp
      → FreeBut pp s
      → FreeBut pp (page_decref old s).1
  unfolding page_decref
  page_decref-FreeBut old s lt ne (inv, off) = (page_decref-FreeInv old s lt inv, ground arith)

  write_word-FreeBut : (p : ℕ × ℕ) (w : ℕ) (s : Pmap) → FreeBut pp s → FreeBut pp (write_word p w s)
  write_word-FreeBut (page, i) w s (inv, off) =
      (record { once = inv.once; unused = inv.unused }, off)

  replace-FreeInv :
      (pgdir asid va perm : ℕ) (p : ℕ × ℕ) (old : ℕ) (s : Pmap)
      → old < s.npage
      → FreeBut pp s
      → FreeInv (replace pgdir asid pp va perm p old s).1
  unfolding replace
  replace-FreeInv pgdir asid va perm p old s lt h = elim (Bool-cases (old == pp)) [
    | inl same ↦ rw same (record { once = h.0.once; unused = h.0.unused })
    | inr other ↦
        let dropped = page_decref-FreeBut old s lt (ground arith) h in
        rw other (
          and_then_keeps FreeInv (page_decref old s)
            (λ _ t. insert_new pgdir asid pp va perm (write_word p 0 t)) dropped.0
            λ _ _. insert_new-FreeInv pgdir asid va perm _ (write_word-FreeBut p 0 _ dropped))
  ]

  insert_at-FreeInv :
      (pgdir asid va perm : ℕ) (pte : Option (ℕ × ℕ)) (s : Pmap)
      → FreeBut pp s
      → FreeInv (insert_at pgdir asid pp va perm pte s).1
  unfolding insert_at pa2page
  insert_at-FreeInv pgdir asid va perm none s h = insert_new-FreeInv pgdir asid va perm s h
  insert_at-FreeInv pgdir asid va perm (some p) s h = ground (
    arith,
    h.0,
    insert_new-FreeInv pgdir asid va perm s h,
    λ (lt : ppn (read_word p s) < s.npage).
        replace-FreeInv pgdir asid va perm p (ppn (read_word p s)) s lt h,
  )

  -- `page_insert` of a page that is not on the free list.
  pub page_insert-FreeInv :
      (pgdir asid va perm : ℕ) (s : Pmap)
      → FreeBut pp s
      → FreeInv (page_insert pgdir asid pp va perm s).1
  unfolding page_insert
  page_insert-FreeInv pgdir asid va perm s h =
      let walked = pgdir_walk-FreeBut pgdir va false s h in
      and_then_keeps FreeInv (pgdir_walk pgdir va false s) (insert_at pgdir asid pp va perm)
        walked.0 λ pte _. insert_at-FreeInv pgdir asid va perm pte _ walked

-- A lookup changes nothing, and finds a page of the memory.
pub page_lookup-pure : (pgdir va : ℕ) (s : Pmap) → (page_lookup pgdir va s).1 ≡ s
unfolding page_lookup pgdir_walk table_entry lookup_at pa2page
page_lookup-pure pgdir va s = ground arith

found_page :
    (pgdir va : ℕ) (s : Pmap) {pp page i : ℕ}
    → (page_lookup pgdir va s).0 ≡ ok (some (pp, page, i))
    → pp < s.npage
unfolding page_lookup pgdir_walk table_entry lookup_at pa2page
found_page pgdir va s h = ground arith

remove_at-FreeInv :
    (asid va : ℕ) (found : Option (ℕ × ℕ × ℕ)) (s : Pmap)
    → ((pp page i : ℕ) → found ≡ some (pp, page, i) → pp < s.npage)
    → FreeInv s
    → FreeInv (remove_at asid va found s).1
unfolding remove_at
remove_at-FreeInv asid va none s h inv = inv
remove_at-FreeInv asid va (some (pp, page, i)) s h inv =
    let dropped = page_decref-FreeInv pp s (h pp page i refl) inv in
    and_then_keeps FreeInv (page_decref pp s)
      (λ _ t. (ok tt, tlb_invalidate asid va (write_word (page, i) 0 t))) dropped
      λ _ _. record { once = dropped.once; unused = dropped.unused }

pub page_remove-FreeInv :
    (pgdir asid va : ℕ) (s : Pmap) → FreeInv s → FreeInv (page_remove pgdir asid va s).1
unfolding page_remove
page_remove-FreeInv pgdir asid va s inv =
    and_then_keeps FreeInv (page_lookup pgdir va s) (remove_at asid va)
      (rw (page_lookup-pure pgdir va s) inv)
      λ found e.
        rw (page_lookup-pure pgdir va s) (
          remove_at-FreeInv asid va found s (λ pp page i q. found_page pgdir va s (e ∙ ap ok q))
            inv)
