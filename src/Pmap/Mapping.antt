-- ===== src/Pmap/Mapping.antt =====
-- kern/pmap.c: what `page_insert` and `page_remove` do to the translation of an address.
use Prim.Native.Nat.{bit_or}
use os_challenging_mission.Base.{
  List-cases, ℕ, ◌/◌, ◌^◌, ◌<◌, ◌≡◌, refl, true, false, arith, ◌==◌, leb, some, Bool-cases, inl,
  inr,
}
use os_challenging_mission.Errors.{ok, err, panicked, no_mem}
use os_challenging_mission.Pmap.{
  Pmap, pdx, ptx, ppn, page_insert, pa2page, is_valid, store_new, insert_new, replace, insert_at,
  write_word, pte_for,
}
use os_challenging_mission.Pmap.Tabled.{
  Tabled, pgdir_walk_tabled, Tabled-write, Tabled-same, Finds, Finds-pte_for, Ready, no_table,
  no_entry, make_table-Tabled, new_table, make_table-npage, page_decref_memory,
}

module _ (pgdir asid pp va perm : ℕ) (small : pp < 2 ^ 20) where
  -- The pages that the entry leads to.
  abbrev target : ℕ
  target = bit_or pp (perm / 4096)

  store_new-Tabled :
      {table : ℕ} {s : Pmap}
      → Tabled pgdir va table s
      → target < s.npage
      → Finds pgdir va target (store_new asid pp va perm (some (table, ptx va)) s).1
  unfolding store_new
  store_new-Tabled w fits =
      let v = Tabled-write w (pte_for pp perm) in
      Finds-pte_for pp perm
        (record { valid = v.valid; points = v.points; inside = v.inside; apart = v.apart })
        (ground arith) small fits

  insert_new-Tabled :
      {table : ℕ} {s : Pmap}
      → Tabled pgdir va table s
      → target < s.npage
      → Finds pgdir va target (insert_new pgdir asid pp va perm s).1
  unfolding insert_new
  insert_new-Tabled {table} {s} w fits = rw (pgdir_walk_tabled w true) (store_new-Tabled w fits)

  insert_new_untabled :
      (s : Pmap)
      → Ready pgdir va s
      → is_valid (s.memory pgdir (pdx va)) ≡ false
      → target < s.npage
      → (insert_new pgdir asid pp va perm s).0 ≡ ok tt
      → Finds pgdir va target (insert_new pgdir asid pp va perm s).1
  unfolding insert_new
  insert_new_untabled s ready none_yet fits done = elim (List-cases s.page_free_list) [
    | inl e ↦
        let failed : (insert_new pgdir asid pp va perm s).0 ≡ err no_mem =
          rw (no_table pgdir asid va s e none_yet) refl in
        cc
    | inr (table, rest, e) ↦ rw (new_table pgdir asid va s table rest ready none_yet e) (
        store_new-Tabled (make_table-Tabled pgdir asid va s table rest ready e)
          (rw (make_table-npage pgdir asid va s) fits))
  ]

  -- The same page again: only the permission is written.
  replace-Tabled :
      {table : ℕ} {s : Pmap} (old : ℕ)
      → Tabled pgdir va table s
      → target < s.npage
      → (replace pgdir asid pp va perm (table, ptx va) old s).0 ≡ ok tt
      → Finds pgdir va target (replace pgdir asid pp va perm (table, ptx va) old s).1
  unfolding replace
  replace-Tabled {table} {s} old w fits done = elim (Bool-cases (old == pp)) [
    | inl same ↦
        let v = Tabled-write w (pte_for pp perm) in
        rw same (
          Finds-pte_for pp perm
            (record { valid = v.valid; points = v.points; inside = v.inside; apart = v.apart })
            (ground arith) small fits)
    | inr other ↦
        let rest =
          λ (t : Pmap). insert_new pgdir asid pp va perm (write_word (table, ptx va) 0 t) in
        elim (page_decref_memory pgdir asid va old s) [
          | inl stop ↦
              let failed : (replace pgdir asid pp va perm (table, ptx va) old s).0 ≡ panicked =
                rw (other, stop) refl in
              cc
          | inr (go, m, n) ↦
              rw (other, go)
                (insert_new-Tabled (Tabled-write (Tabled-same pgdir asid va w m n) 0) (rw n fits))
        ]
  ]

  insert_at-Tabled :
      {table : ℕ} {s : Pmap}
      → Tabled pgdir va table s
      → target < s.npage
      → (insert_at pgdir asid pp va perm (some (table, ptx va)) s).0 ≡ ok tt
      → Finds pgdir va target (insert_at pgdir asid pp va perm (some (table, ptx va)) s).1
  unfolding insert_at pa2page
  insert_at-Tabled {table} {s} w fits done =
      elim (Bool-cases (is_valid (s.memory table (ptx va)))) [
        | inl old ↦ elim (Bool-cases (leb s.npage (ppn (s.memory table (ptx va))))) [
          | inl outside ↦
              let failed : (insert_at pgdir asid pp va perm (some (table, ptx va)) s).0 ≡ panicked =
                rw (old, outside) refl in
              cc
          | inr inside ↦
              rw (old, inside)
                (replace-Tabled (ppn (s.memory table (ptx va))) w fits (rw (old, inside) at done))
        ]
        | inr fresh ↦ rw fresh (insert_new-Tabled w fits)
      ]

-- page_insert that succeeds maps va to pp, on every path of the code: a new page table, a free
-- entry, a permission change and a page that is replaced. The page number that a later lookup finds
-- is pp with the bits of perm above the low 12 put in, as the code does not mask perm. This holds
-- if that page number is below npage and pp below 2 ^ 20, with a free list of unreferenced pages of
-- the memory, once each, and a memory of at most 2 ^ 20 pages, for a directory that is not free and
-- whose page table for va, if there is one, is in memory and not the directory itself.
pub page_insert-Finds :
    (pgdir asid pp va perm : ℕ) (s : Pmap)
    → Ready pgdir va s
    → pp < 2 ^ 20
    → bit_or pp (perm / 4096) < s.npage
    → (page_insert pgdir asid pp va perm s).0 ≡ ok tt
    → Finds pgdir va (bit_or pp (perm / 4096)) (page_insert pgdir asid pp va perm s).1
unfolding page_insert
page_insert-Finds pgdir asid pp va perm s ready small fits done =
    elim (Bool-cases (is_valid (s.memory pgdir (pdx va)))) [
      | inl old ↦
          let w : Tabled pgdir va (ppn (s.memory pgdir (pdx va))) s = record {
            valid = old;
            points = refl;
            inside = ready.table_inside old;
            apart = ready.table_apart old;
          } in
          rw (pgdir_walk_tabled w false) (
            insert_at-Tabled pgdir asid pp va perm small w fits
              (rw (pgdir_walk_tabled w false) at done))
      | inr new ↦ rw (no_entry pgdir asid va s new) (
          insert_new_untabled pgdir asid pp va perm small s ready new fits
            (rw (no_entry pgdir asid va s new) at done))
    ]
