-- ===== src/Pmap/Outcomes.antt =====
-- kern/pmap.c: when `page_insert` succeeds, and when it has no memory.
use os_challenging_mission.Base.{
  ℕ, ◌<◌, ◌≡◌, ◌≢◌, ◌⊎◌, inl, inr, refl, true, false, [], arith, ◌==◌, leb, some, Bool-cases,
  List-cases,
}
use os_challenging_mission.Errors.{ok, err, no_mem}
use os_challenging_mission.Pmap.{
  page_remove, page_lookup, lookup_at, remove_at, Pmap, pdx, ptx, ppn, page_insert, pa2page,
  is_valid, store_new, insert_new, replace, insert_at, page_decref,
}
use os_challenging_mission.Pmap.Tabled.{
  Tabled, pgdir_walk_tabled, Tabled-write, Tabled-same, Ready, no_table, no_entry, new_table,
  page_decref_memory,
}

-- The entry of `va`, if there is one, leads to a page in memory that has a reference.
abbrev pub Counted : (pgdir va : ℕ) → Pmap → Type 0
Counted pgdir va s =
    let pte = s.memory (ppn (s.memory pgdir (pdx va))) (ptx va) in
    is_valid (s.memory pgdir (pdx va)) ≡ true
    → is_valid pte ≡ true
    → (ppn pte < s.npage) × (s.pp_ref (ppn pte) ≢ 0)

module _ (pgdir asid pp va perm : ℕ) where
  insert_new-returns :
      {table : ℕ} {s : Pmap}
      → Tabled pgdir va table s
      → (insert_new pgdir asid pp va perm s).0 ≡ ok tt
  unfolding insert_new store_new
  insert_new-returns w = rw (pgdir_walk_tabled w true) refl

  replace-returns :
      {table : ℕ} {s : Pmap} (old : ℕ)
      → Tabled pgdir va table s
      → s.pp_ref old ≢ 0
      → (replace pgdir asid pp va perm (table, ptx va) old s).0 ≡ ok tt
  unfolding replace
  replace-returns {table} {s} old w counted = elim (Bool-cases (old == pp)) [
    | inl same ↦ rw same refl
    | inr other ↦ elim (page_decref_memory pgdir asid va old s) [
      | inl stop ↦ absurd (unfold page_decref in ground (arith, stop, counted))
      | inr (go, m, n) ↦
          rw (other, go)
            (insert_new-returns
              (Tabled-write (Tabled-same pgdir asid va {t = (page_decref old s).1} w m n) 0))
    ]
  ]

  insert_at-returns :
      {table : ℕ} {s : Pmap}
      → Tabled pgdir va table s
      → (is_valid (s.memory table (ptx va)) ≡ true
          → (ppn (s.memory table (ptx va)) < s.npage)
            × (s.pp_ref (ppn (s.memory table (ptx va))) ≢ 0))
      → (insert_at pgdir asid pp va perm (some (table, ptx va)) s).0 ≡ ok tt
  unfolding insert_at pa2page
  insert_at-returns {table} {s} w counted = elim (Bool-cases (is_valid (s.memory table (ptx va)))) [
    | inl old ↦
        let inside : leb s.npage (ppn (s.memory table (ptx va))) ≡ false =
          ground (arith, (counted old).0) in
        rw (old, inside) (replace-returns (ppn (s.memory table (ptx va))) w (counted old).1)
    | inr fresh ↦ rw fresh (insert_new-returns w)
  ]

pub page_insert-returns :
    (pgdir asid pp va perm : ℕ) (s : Pmap)
    → Ready pgdir va s
    → Counted pgdir va s
    → (((page_insert pgdir asid pp va perm s).0 ≡ ok tt)
        × ((is_valid (s.memory pgdir (pdx va)) ≡ true) ⊎ (s.page_free_list ≢ [])))
      ⊎ (((page_insert pgdir asid pp va perm s).0 ≡ err no_mem)
          × (is_valid (s.memory pgdir (pdx va)) ≡ false)
          × (s.page_free_list ≡ []))
unfolding page_insert insert_at insert_new store_new
page_insert-returns pgdir asid pp va perm s ready counted =
    elim (Bool-cases (is_valid (s.memory pgdir (pdx va)))) [
      | inl old ↦
          let w : Tabled pgdir va (ppn (s.memory pgdir (pdx va))) s = record {
            valid = old;
            points = refl;
            inside = ready.table_inside old;
            apart = ready.table_apart old;
          } in
          inl (
            rw (pgdir_walk_tabled w false)
                (insert_at-returns pgdir asid pp va perm w (counted old)),
            inl old,
          )
      | inr new ↦ elim (List-cases s.page_free_list) [
        | inl e ↦
            inr (rw (no_entry pgdir asid va s new, no_table pgdir asid va s e new) refl, new, e)
        | inr (table, rest, e) ↦ inl (
          rw (no_entry pgdir asid va s new, new_table pgdir asid va s table rest ready new e) refl,
          inr (λ h. ground (arith, h, e)),
        )
      ]
    ]

-- Under the same condition `page_remove` returns.
pub page_remove-returns :
    (pgdir asid va : ℕ) (s : Pmap)
    → Ready pgdir va s
    → Counted pgdir va s
    → (page_remove pgdir asid va s).0 ≡ ok tt
unfolding page_remove page_lookup lookup_at remove_at pa2page
page_remove-returns pgdir asid va s ready counted =
    elim (Bool-cases (is_valid (s.memory pgdir (pdx va)))) [
      | inr new ↦ rw (no_entry pgdir asid va s new) refl
      | inl old ↦
          let table = ppn (s.memory pgdir (pdx va)) in
          let w : Tabled pgdir va table s = record {
            valid = old;
            points = refl;
            inside = ready.table_inside old;
            apart = ready.table_apart old;
          } in
          elim (Bool-cases (is_valid (s.memory table (ptx va)))) [
            | inr none_yet ↦ rw (pgdir_walk_tabled w false, none_yet) refl
            | inl there ↦
                let c = counted old there in
                let inside : leb s.npage (ppn (s.memory table (ptx va))) ≡ false =
                  ground (arith, c.0) in
                elim (page_decref_memory pgdir asid va (ppn (s.memory table (ptx va))) s) [
                  | inl stop ↦ absurd (unfold page_decref in ground (arith, stop, c.1))
                  | inr (go, _, _) ↦ rw (pgdir_walk_tabled w false, there, inside, go) refl
                ]
          ]
    ]
