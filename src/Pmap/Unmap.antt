-- ===== src/Pmap/Unmap.antt =====
-- kern/pmap.c: what `page_remove` does to the translation of an address.
use os_challenging_mission.Base.{
  ap, ◌⊎◌, ℕ, ◌≡◌, refl, false, arith, leb, none, some, Bool-cases, inl, inr,
}
use os_challenging_mission.Errors.{ok, panicked}
use os_challenging_mission.Pmap.{
  Pmap, pdx, ptx, ppn, page_lookup, page_decref, page_remove, pa2page, is_valid, lookup_at,
}
use os_challenging_mission.Pmap.Free.{page_lookup-pure}
use os_challenging_mission.Pmap.Tabled.{
  Tabled, pgdir_walk_tabled, Tabled-write, Tabled-same, page_lookup_cleared, Ready, no_entry,
  page_decref_memory,
}

-- What a lookup through a page table gives: nothing, a page, or a panic on a frame past the memory.
lookup_cases :
    {pgdir va table : ℕ} {s : Pmap}
    → Tabled pgdir va table s
    → ((page_lookup pgdir va s).0 ≡ ok none)
      ⊎ ((page_lookup pgdir va s).0 ≡ panicked)
      ⊎ ((pp : ℕ) × ((page_lookup pgdir va s).0 ≡ ok (some (pp, table, ptx va))))
unfolding page_lookup lookup_at pa2page
lookup_cases {pgdir} {va} {table} {s} w =
    rw (pgdir_walk_tabled w false) (elim (Bool-cases (is_valid (s.memory table (ptx va)))) [
      | inl old ↦ elim (Bool-cases (leb s.npage (ppn (s.memory table (ptx va))))) [
        | inl outside ↦ inr (inl (rw (old, outside) refl))
        | inr inside ↦ inr (inr (ppn (s.memory table (ptx va)), rw (old, inside) refl))
      ]
      | inr free ↦ inl (rw free refl)
    ])

-- The state after `page_remove`, given the result of its lookup.
removed-Tabled :
    {pgdir va table : ℕ} {s : Pmap} (asid : ℕ)
    → Tabled pgdir va table s
    → (page_remove pgdir asid va s).0 ≡ ok tt
    → (page_lookup pgdir va (page_remove pgdir asid va s).1).0 ≡ ok none
unfolding page_remove
removed-Tabled {pgdir} {va} {table} {s} asid w done = elim (lookup_cases w) [
  | inl e ↦ rw (e, page_lookup-pure pgdir va s) e
  | inr (inl e) ↦ let failed : (page_remove pgdir asid va s).0 ≡ panicked = rw e refl in cc
  | inr (inr (pp, e)) ↦ elim (page_decref_memory pgdir asid va pp s) [
    | inl stop ↦
        let failed : (page_remove pgdir asid va s).0 ≡ panicked =
          rw (e, page_lookup-pure pgdir va s, stop) refl in
        cc
    | inr (go, m, n) ↦
        let v = Tabled-write (Tabled-same pgdir asid va {t = (page_decref pp s).1} w m n) 0 in
        rw (e, page_lookup-pure pgdir va s, go)
          (page_lookup_cleared
            (record { valid = v.valid; points = v.points; inside = v.inside; apart = v.apart })
            (ground arith))
  ]
]

-- `page_remove` that returns leaves `va` unmapped, whether or not a page was there, in a directory
-- that is `Ready`: its table for `va` is in memory and apart from it.
pub page_remove-page_lookup :
    (pgdir asid va : ℕ) (s : Pmap)
    → Ready pgdir va s
    → (page_remove pgdir asid va s).0 ≡ ok tt
    → (page_lookup pgdir va (page_remove pgdir asid va s).1).0 ≡ ok none
unfolding page_remove
page_remove-page_lookup pgdir asid va s ready done =
    elim (Bool-cases (is_valid (s.memory pgdir (pdx va)))) [
      | inl old ↦
          removed-Tabled asid
            (record {
              valid = old;
              points = refl;
              inside = ready.table_inside old;
              apart = ready.table_apart old;
            })
            done
      | inr new ↦ rw (unmapped new) (ap (λ r. r.0) (unmapped new))
    ]
  where
    unmapped : is_valid (s.memory pgdir (pdx va)) ≡ false → page_lookup pgdir va s ≡ (ok none, s)
    unmapped e = unfold page_lookup in rw (no_entry pgdir asid va s e) refl
