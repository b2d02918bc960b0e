-- ===== src/Pmap/History.antt =====
-- kern/pmap.c: any sequence of calls on physical memory.
use os_challenging_mission.Base.{ℕ, ◌<◌, ◌≡◌, arith, count}
use os_challenging_mission.Pmap.{Pmap, page_alloc, page_free, page_decref, page_insert, page_remove}
use os_challenging_mission.Pmap.Free.{
  FreeInv, page_alloc-FreeInv, page_decref-FreeInv, page_insert-FreeInv, page_remove-FreeInv,
}

-- The calls on physical memory, as the kernel makes them.
pub data Request : Type 0 where
  alloc : Request
  free : (pp : ℕ) → Request
  decref : (pp : ℕ) → Request
  insert : (pgdir asid pp va perm : ℕ) → Request
  remove : (pgdir asid va : ℕ) → Request

pub serve : Request → Pmap → Pmap
serve alloc s = (page_alloc s).1
serve (free pp) s = (page_free pp s).1
serve (decref pp) s = (page_decref pp s).1
serve (insert pgdir asid pp va perm) s = (page_insert pgdir asid pp va perm s).1
serve (remove pgdir asid va) s = (page_remove pgdir asid va s).1

-- What a caller has to know: a page is in `pages`, it is not freed twice, and a free page is not
-- mapped.
abbrev pub Allowed : Request → Pmap → Type 0
Allowed alloc s = Unit {0}
Allowed (free pp) s = (pp < s.npage) × (count pp s.page_free_list ≡ 0)
Allowed (decref pp) s = pp < s.npage
Allowed (insert pgdir asid pp va perm) s = count pp s.page_free_list ≡ 0
Allowed (remove pgdir asid va) s = Unit {0}

-- Every call that is `Allowed` keeps the free list sound, also when it fails or panics: each page on
-- it stands there once, has no reference and is in memory.
pub serve-FreeInv : (r : Request) (s : Pmap) → Allowed r s → FreeInv s → FreeInv (serve r s)
unfolding serve
serve-FreeInv alloc s a inv = page_alloc-FreeInv s inv
serve-FreeInv (free pp) s a inv =
    unfold page_free in
    record {
      once = λ p. ground (arith, inv.once p, a);
      unused = λ p. ground (arith, inv.unused p, a);
    }
serve-FreeInv (decref pp) s a inv = page_decref-FreeInv pp s a inv
serve-FreeInv (insert pgdir asid pp va perm) s a inv =
    page_insert-FreeInv pp pgdir asid va perm s (inv, a)
serve-FreeInv (remove pgdir asid va) s a inv = page_remove-FreeInv pgdir asid va s inv
