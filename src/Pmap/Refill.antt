-- ===== src/Pmap/Refill.antt =====
-- kern/tlbex.c: the refill of the TLB ends after at most one page was allocated.
use os_challenging_mission.Base.{
  ℕ, suc, ◌/◌, ◌%◌, ◌^◌, ◌<◌, ◌≡◌, ◌≢◌, ◌⊎◌, inl, inr, refl, sym, ap, ◌∙◌, subst, true, false, ◌&&◌,
  List, ◌∷◌, arith, ◌==◌, ltb, leb, if◌then◌else◌, Option, none, some, Bool-cases, update, ==_ne,
  if-cases,
}
use os_challenging_mission.Pmap.{
  Pmap, page_lookup, pdx, pgdir_walk, lookup_at, ptx, table_entry, pa2page, ok, zero_page, is_valid,
  ppn, page_alloc, bit_or, page_insert,
}
use os_challenging_mission.Pmap.Tabled.{Ready, Tabled, pgdir_walk_tabled, no_entry, Finds}
use os_challenging_mission.Pmap.Tlb.{
  pte_addr, passive_alloc, no_page_for, panic_on, passive_perm, uvpt, ulim, refill_loop,
  refill_found, entry_lo, do_tlb_refill,
}
use os_challenging_mission.Pmap.Outcomes.{Counted, page_insert-returns}
use os_challenging_mission.Pmap.Free.{FreeInv, page_alloc-FreeInv, page_lookup-pure}
use os_challenging_mission.Errors.{Outcome}
use os_challenging_mission.Pmap.Mapping.{page_insert-Finds}
use os_challenging_mission.Base.Bits.{bit_or-zero}

same_entry : (va : ℕ) → (pdx (pte_addr va) ≡ pdx va) × (ptx (pte_addr va) ≡ ptx va)
same_entry va = (omega arith, omega arith)

page_lookup-pte_addr :
    (pgdir va : ℕ) (s : Pmap) → page_lookup pgdir (pte_addr va) s ≡ page_lookup pgdir va s
unfolding page_lookup pgdir_walk table_entry
page_lookup-pte_addr pgdir va s = rw ((same_entry va).0, (same_entry va).1) refl

-- A lookup returns, and changes nothing.
lookup-cases :
    (pgdir va : ℕ) (s : Pmap)
    → Ready pgdir va s
    → Counted pgdir va s
    → (page_lookup pgdir va s ≡ (ok none, s))
      ⊎ ((q : ℕ) × (table : ℕ) × (page_lookup pgdir va s ≡ (ok (some (q, table, ptx va)), s)))
unfolding page_lookup lookup_at pa2page
lookup-cases pgdir va s ready counted = elim (Bool-cases (is_valid (s.memory pgdir (pdx va)))) [
  | inl old ↦
      let table : ℕ = ppn (s.memory pgdir (pdx va)) in
      let w : Tabled pgdir va table s = record {
        valid = old;
        points = refl;
        inside = ready.table_inside old;
        apart = ready.table_apart old;
      } in
      elim (Bool-cases (is_valid (s.memory table (ptx va)))) [
        | inl v ↦
            let fits : leb s.npage (ppn (s.memory table (ptx va))) ≡ false =
              ground (arith, (counted old v).0) in
            inr (ppn (s.memory table (ptx va)), table, rw (pgdir_walk_tabled w false, v, fits) refl)
        | inr v ↦ inl (rw (pgdir_walk_tabled w false, v) refl)
      ]
  | inr new ↦ inl (rw (no_entry pgdir 0 va s new) refl)
]

Finds-pte_addr :
    (pgdir va p q : ℕ) → q ≡ p → (u : Pmap) → Finds pgdir (pte_addr va) q u → Finds pgdir va p u
Finds-pte_addr pgdir va p q e u (table, h) = (
  table,
  ap (λ (r : Outcome (Option (ℕ × ℕ × ℕ)) × Pmap). r.0) (sym (page_lookup-pte_addr pgdir va u))
      ∙ h
      ∙ rw (e, (same_entry va).1) refl,
)

panic_on-ok : {A : Type 0} (r : Outcome A × Pmap) (a : A) → r.0 ≡ ok a → panic_on r ≡ (ok a, r.1)
panic_on-ok (o, s) a h = rw h refl

module _ (pgdir va : ℕ) (s : Pmap) (p : ℕ) (rest : List ℕ) (e : s.page_free_list ≡ p ∷ rest)
    (ready : Ready pgdir va s) (counted : Counted pgdir va s) where
  abbrev taken : Pmap
  taken = record s { page_free_list = rest; memory = update s.memory p zero_page }

  other_page : p ≢ pgdir
  other_page = ground (arith, ready.dir_used, e)

  took : page_alloc s ≡ (ok p, taken)
  unfolding page_alloc
  took = rw e refl

  taken-Ready : Ready pgdir (pte_addr va) taken
  taken-Ready = record {
    table_inside =
        rw (==_ne pgdir p (λ h. other_page (sym h)), (same_entry va).0) ready.table_inside;
    table_apart = rw (==_ne pgdir p (λ h. other_page (sym h)), (same_entry va).0) ready.table_apart;
    dir_used = ground (arith, ready.dir_used, e);
    free =
        subst FreeInv (ap (λ (r : Outcome ℕ × Pmap). r.1) took) (page_alloc-FreeInv s ready.free);
    memory_limit = ready.memory_limit;
  }

  taken-Counted : Counted pgdir (pte_addr va) taken
  taken-Counted =
      rw (==_ne pgdir p (λ h. other_page (sym h)), (same_entry va).0, (same_entry va).1)
        (λ old.
          if-cases
            (λ (page : ℕ → ℕ).
              is_valid (page (ptx va)) ≡ true
              → (ppn (page (ptx va)) < s.npage) × (s.pp_ref (ppn (page (ptx va))) ≢ 0))
            (ppn (s.memory pgdir (pdx va)) == p) (λ _ v. absurd (ground (arith, v)))
            (λ _ v. counted old v))

  fits : bit_or p (passive_perm va / 4096) ≡ p
  fits =
      if-cases (λ (perm : ℕ). bit_or p (perm / 4096) ≡ p) (leb uvpt va && ltb va ulim)
        (λ _. bit_or-zero p) (λ _. bit_or-zero p)

  free_page : p < s.npage
  free_page = (ready.free.unused p (rw e (ground arith))).1

  -- With one more free page, `page_insert` has one for the page table.
  insert-ok :
      (asid q : ℕ) (more : List ℕ)
      → rest ≡ q ∷ more
      → (page_insert pgdir asid p (pte_addr va) (passive_perm va) taken).0 ≡ ok tt
  insert-ok asid q more two =
      elim (page_insert-returns pgdir asid p (pte_addr va) (passive_perm va) taken taken-Ready
        taken-Counted) [
          | inl (done, _) ↦ done
          | inr (_, _, none_left) ↦ absurd (ground (arith, none_left, two))
        ]

  insert-Finds :
      (asid : ℕ)
      → (page_insert pgdir asid p (pte_addr va) (passive_perm va) taken).0 ≡ ok tt
      → Finds pgdir va p (page_insert pgdir asid p (pte_addr va) (passive_perm va) taken).1
  insert-Finds asid done =
      Finds-pte_addr pgdir va p (bit_or p (passive_perm va / 4096)) fits
        (page_insert pgdir asid p (pte_addr va) (passive_perm va) taken).1
        (page_insert-Finds pgdir asid p (pte_addr va) (passive_perm va) taken taken-Ready
          (omega (arith, free_page, ready.memory_limit)) (rw fits free_page) done)

  -- The page that `passive_alloc` takes is found at `va`.
  passive_alloc-page_insert :
      (asid q : ℕ) (more : List ℕ)
      → rest ≡ q ∷ more
      → no_page_for va ≡ false
      → (passive_alloc va pgdir asid s
          ≡ (ok tt, (page_insert pgdir asid p (pte_addr va) (passive_perm va) taken).1))
  unfolding passive_alloc
  passive_alloc-page_insert asid q more two allowed =
      rw (allowed, took)
        (panic_on-ok (page_insert pgdir asid p (pte_addr va) (passive_perm va) taken) tt
          (insert-ok asid q more two))

-- The entry of `va` is where a refill ends.
abbrev pub Refilled : ℕ → ℕ → Outcome (ℕ × ℕ) × Pmap → Type 0
Refilled pgdir va r =
    (q : ℕ) × (table : ℕ) × (r.0 ≡ ok (table, ptx va))
    × ((page_lookup pgdir va r.1).0 ≡ ok (some (q, table, ptx va)))

found-Refilled :
    (n va pgdir asid q table : ℕ) (s : Pmap)
    → page_lookup pgdir va s ≡ (ok (some (q, table, ptx va)), s)
    → Refilled pgdir va (refill_loop (suc n) va pgdir asid s)
unfolding refill_loop refill_found
found-Refilled n va pgdir asid q table s e =
    rw e (q, table, refl, ap (λ (r : Outcome (Option (ℕ × ℕ × ℕ)) × Pmap). r.0) e)

looked :
    (pgdir va : ℕ) (u : Pmap) {o : Outcome (Option (ℕ × ℕ × ℕ))}
    → (page_lookup pgdir va u).0 ≡ o
    → page_lookup pgdir va u ≡ (o, u)
looked pgdir va u h = λ i. (h i, page_lookup-pure pgdir va u i)

-- Two rounds of the loop are enough.
refill_loop-Refilled :
    (n va pgdir asid p q : ℕ) (more : List ℕ) (s : Pmap)
    → Ready pgdir va s
    → Counted pgdir va s
    → s.page_free_list ≡ p ∷ q ∷ more
    → no_page_for va ≡ false
    → Refilled pgdir va (refill_loop (suc (suc n)) va pgdir asid s)
unfolding refill_loop refill_found
refill_loop-Refilled n va pgdir asid p q more s ready counted e allowed =
    elim (lookup-cases pgdir va s ready counted) [
      | inr (pp, table, found) ↦ found-Refilled (suc n) va pgdir asid pp table s found
      | inl missing ↦
          let done = insert-ok pgdir va s p (q ∷ more) e ready counted asid q more refl in
          let (table, again) = insert-Finds pgdir va s p (q ∷ more) e ready counted asid done in
          rw
            (
              missing,
              passive_alloc-page_insert pgdir va s p (q ∷ more) e ready counted asid q more refl
                  allowed,
            )
            (found-Refilled n va pgdir asid p table
              (page_insert pgdir asid p (pte_addr va) (passive_perm va)
                (taken pgdir va s p (q ∷ more) e ready counted)).1
              (looked pgdir va
                (page_insert pgdir asid p (pte_addr va) (passive_perm va)
                  (taken pgdir va s p (q ∷ more) e ready counted)).1
                again))
    ]

-- `pentrylo` has the entry of `va`, the even or the odd one of the pair, and it is the entry of a page
-- that a lookup of `va` now finds.
abbrev pub Loaded : ℕ → ℕ → Outcome (ℕ × ℕ) × (List ℕ × Pmap) → Type 0
Loaded pgdir va r =
    (q : ℕ) × (table : ℕ) × (lo : ℕ × ℕ) × (r.0 ≡ ok lo)
    × ((page_lookup pgdir va r.1.1).0 ≡ ok (some (q, table, ptx va)))
    × ((if va / 4096 % 2 == 0 then lo.0 else lo.1) ≡ r.1.1.memory table (ptx va) / 2 ^ 6)

which_entry :
    (va table : ℕ) (u : Pmap)
    → (if va / 4096 % 2 == 0
        then (entry_lo (table, ptx va) u).0
        else (entry_lo (table, ptx va) u).1)
      ≡ u.memory table (ptx va) / 2 ^ 6
which_entry va table u =
    if-cases (λ (w : ℕ). w ≡ u.memory table (ptx va) / 2 ^ 6) (va / 4096 % 2 == 0)
      (λ even. ap (λ i. u.memory table i / 2 ^ 6) (ground (arith, even)))
      (λ odd. ap (λ i. u.memory table i / 2 ^ 6) (ground (arith, odd)))

-- _do_tlb_refill ends, in at most two rounds of its loop, and does not panic, and what it returns
-- has the entry of a page that a lookup of the address now finds. This holds for an address at
-- which passive_alloc maps a page, with two free pages, a free list of unreferenced pages of the
-- memory, once each, and a memory of at most 2 ^ 20 pages; for a directory that is not free and
-- whose page table for the address, if there is one, is in memory and not the directory itself
-- (which leaves out the addresses from UVPT to ULIM at which a directory maps itself); and if the
-- entry of the address, when it is valid, leads to a page in memory that has a reference. No other
-- CPU takes pages or changes the tables meanwhile, as the whole refill is one step.
pub do_tlb_refill-Loaded :
    (n va pgdir asid p q : ℕ) (more outs : List ℕ) (s : Pmap)
    → Ready pgdir va s
    → Counted pgdir va s
    → s.page_free_list ≡ p ∷ q ∷ more
    → no_page_for va ≡ false
    → Loaded pgdir va (do_tlb_refill (suc (suc n)) va pgdir asid (outs, s))
unfolding do_tlb_refill
do_tlb_refill-Loaded n va pgdir asid p q more outs s ready counted e allowed =
    let (pp, table, done, found) =
      refill_loop-Refilled n va pgdir asid p q more s ready counted e allowed in
    let u = (refill_loop (suc (suc n)) va pgdir asid s).1 in
    rw done (pp, table, entry_lo (table, ptx va) u, refl, found, which_entry va table u)
