-- ===== src/Pmap/Examples.antt =====
-- Physical memory of eight pages: page 1 is a directory, and four pages are free.
use os_challenging_mission.Base.{
  ℕ, ◌+◌, ◌/◌, ◌≡◌, refl, ◌&&◌, [], ◌∷◌, arith, ◌==◌, ltb, leb, if◌then◌else◌, none, count,
}
use os_challenging_mission.Errors.{ok}
use os_challenging_mission.Pmap.{
  lookup_at, remove_at, page_decref, page_remove, page_lookup, Pmap, page_init, page_insert,
  pgdir_walk, page_alloc, make_table, insert_at, insert_new, store_new, table_entry, pa2page,
}
use os_challenging_mission.Pmap.Outcomes.{Counted}
use os_challenging_mission.Pmap.Free.{FreeInv}
use os_challenging_mission.Pmap.Init.{page_init-FreeInv}
use os_challenging_mission.Pmap.History.{Request, serve, serve-FreeInv}
use os_challenging_mission.Pmap.Tabled.{Finds, Ready}
use os_challenging_mission.Pmap.Mapping.{page_insert-Finds}
use os_challenging_mission.Pmap.Unmap.{page_remove-page_lookup}
use os_challenging_mission.Pmap.Refill.{Loaded, do_tlb_refill-Loaded}
use os_challenging_mission.Pmap.Tlb.{do_tlb_refill}

abbrev blank : Pmap
blank = record { npage = 8; page_free_list = []; pp_ref = λ _. 0; memory = λ _ _. 0; flushes = [] }

-- The kernel ends in page 3.
page_init_example :
    FreeInv (page_init 16000 blank)
    × ((p : ℕ)
        → count p (page_init 16000 blank).page_free_list
          ≡ (if leb ((16000 + 4095) / 4096) p && ltb p 8 then 1 else 0))
page_init_example = page_init-FreeInv 16000 blank

abbrev eight : Pmap
eight = record {
  npage = 8;
  page_free_list = 4 ∷ 5 ∷ 6 ∷ 7 ∷ [];
  pp_ref = λ p. if ltb p 4 then 1 else 0;
  memory = λ _ _. 0;
  flushes = [];
}

eight-FreeInv : FreeInv eight
eight-FreeInv = record { once = λ p. ground arith; unused = λ p. ground arith }

eight-Ready : Ready 1 0x400000 eight
eight-Ready = record {
  table_inside = λ h. absurd (ground (arith, h));
  table_apart = λ h. absurd (ground (arith, h));
  dir_used = refl;
  free = eight-FreeInv;
  memory_limit = ground arith;
}

serve_example : FreeInv (serve (Request.insert 1 0 2 0x400000 0x400) eight)
serve_example = serve-FreeInv (Request.insert 1 0 2 0x400000 0x400) eight refl eight-FreeInv

inserted : (page_insert 1 0 2 0x400000 0x400 eight).0 ≡ ok tt
unfolding page_insert pgdir_walk make_table page_alloc insert_at insert_new store_new table_entry
    pa2page
inserted = refl

page_insert_example : Finds 1 0x400000 2 (page_insert 1 0 2 0x400000 0x400 eight).1
page_insert_example =
    page_insert-Finds 1 0 2 0x400000 0x400 eight eight-Ready (ground arith) (ground arith) inserted

-- Address 0x400000 is mapped to page 2, through the table in page 3.
abbrev mapped : Pmap
mapped = record {
  npage = 8;
  page_free_list = 4 ∷ 5 ∷ 6 ∷ 7 ∷ [];
  pp_ref = λ p. if ltb p 4 then 1 else 0;
  memory = λ p i. if p == 1 && i == 1 then 0x3080 else if p == 3 && i == 0 then 0x2080 else 0;
  flushes = [];
}

mapped-Ready : Ready 1 0x400000 mapped
mapped-Ready = record {
  table_inside = λ h. ground arith;
  table_apart = λ h. ground arith;
  dir_used = refl;
  free = record { once = λ p. ground arith; unused = λ p. ground arith };
  memory_limit = ground arith;
}

removed : (page_remove 1 0 0x400000 mapped).0 ≡ ok tt
unfolding page_remove page_lookup lookup_at remove_at page_decref pgdir_walk table_entry pa2page
removed = refl

page_remove_example : (page_lookup 1 0x400000 (page_remove 1 0 0x400000 mapped).1).0 ≡ ok none
page_remove_example = page_remove-page_lookup 1 0 0x400000 mapped mapped-Ready removed

eight-Counted : Counted 1 0x400000 eight
eight-Counted = λ h. absurd (ground (arith, h))

-- The first access to the page at 0x400000.
do_tlb_refill_example : Loaded 1 0x400000 (do_tlb_refill 2 0x400000 1 0 ([], eight))
do_tlb_refill_example =
    do_tlb_refill-Loaded 0 0x400000 1 0 4 5 (6 ∷ 7 ∷ []) [] eight eight-Ready eight-Counted refl
      refl
