-- ===== src/Pmap.antt =====
-- kern/pmap.c and include/pmap.h: physical pages and two-level page tables.
-- A `struct Page *` is the index of the page in `pages`, below `npage`, so that `page2kva` never
-- panics; a `Pde *` or `Pte *` is a page with the index of a word in it. `pmap_lock` makes each
-- operation one step. `tlb_invalidate` is recorded in `flushes`, the latest call first.
pub mod Entry
pub mod Free
pub mod History
pub mod Init
pub mod Mapping
pub mod Tabled
pub mod Unmap
pub mod Outcomes
pub mod Tlb
pub mod Refill
mod Examples
use Prim.Native.Nat.{bit_or}
use os_challenging_mission.Base.{
  ℕ, zero, suc, ◌+◌, ◌-◌, ◌*◌, ◌/◌, ◌%◌, ◌^◌, Bool, true, false, Option, none, some, List, [], ◌∷◌,
  ◌==◌, ltb, leb, if◌then◌else◌, update,
}
use os_challenging_mission.Base.Bits.{bit}
use os_challenging_mission.Errors.{no_mem, ok, err, panicked, M, ◌>>=◌, ◌>>◌, pure, panic}

-- include/mmu.h
abbrev pub pdx : ℕ → ℕ
pdx va = va / 2 ^ 22 % 1024

abbrev pub ptx : ℕ → ℕ
ptx va = va / 2 ^ 12 % 1024

abbrev pub ppn : ℕ → ℕ
ppn pa = pa / 2 ^ 12

abbrev pub pte_v : ℕ
pte_v = 0x80

abbrev pub pte_c_cacheable : ℕ
pte_c_cacheable = 0x600

-- `pte & PTE_V`: bit 7.
abbrev pub is_valid : ℕ → Bool
is_valid pte = bit pte 7 == 1

pub record Pmap : Type 0 where
  pub npage : ℕ
  pub page_free_list : List ℕ
  pub pp_ref : ℕ → ℕ  -- u_short
  pub memory : ℕ → ℕ → ℕ  -- the words of each page
  pub flushes : List (ℕ × ℕ)

abbrev pub page2pa : ℕ → ℕ
page2pa pp = pp * 4096 % 2 ^ 32

-- `pa2page`, which panics on an address past the memory.
unfoldable pub pa2page : ℕ → M Pmap ℕ
pa2page pa s = if leb s.npage (ppn pa) then (panicked, s) else (ok (ppn pa), s)

abbrev pub zero_page : ℕ → ℕ
zero_page i = 0

abbrev pub write_word : ℕ × ℕ → ℕ → Pmap → Pmap
write_word (page, i) w s = record s { memory = update s.memory page (update (s.memory page) i w) }

abbrev pub read_word : ℕ × ℕ → Pmap → ℕ
read_word (page, i) s = s.memory page i

abbrev pub set_ref : ℕ → ℕ → Pmap → Pmap
set_ref pp n s = record s { pp_ref = update s.pp_ref pp n }

-- `pp->pp_ref++` on a u_short
abbrev pub ref_inc : ℕ → Pmap → Pmap
ref_inc pp s = set_ref pp ((s.pp_ref pp + 1) % 2 ^ 16) s

abbrev pub insert_free : ℕ → Pmap → Pmap
insert_free pp s = record s { page_free_list = pp ∷ s.page_free_list }

abbrev pub tlb_invalidate : ℕ → ℕ → Pmap → Pmap
tlb_invalidate asid va s = record s { flushes = (asid, va) ∷ s.flushes }

-- `for (i = size; i < npage; ++i) LIST_INSERT_HEAD(...)`: `n` rounds from page `i`
free_from : ℕ → ℕ → List ℕ → List ℕ
free_from i zero l = l
free_from i (suc n) l = free_from (suc i) n (i ∷ l)

-- `page_init`; `freemem` is the first physical address that is not in use.
unfoldable pub page_init : ℕ → Pmap → Pmap
unfolding free_from
page_init freemem s =
    let size = (freemem + 4095) / 4096 * 4096 / 4096 in
    record s {
      page_free_list = free_from size (s.npage - size) [];
      pp_ref = λ i. if ltb i size then 1 else if ltb i s.npage then 0 else s.pp_ref i;
    }

-- `page_alloc`, also as `page_alloc_nolock`
unfoldable pub page_alloc : M Pmap ℕ
page_alloc s = elim s.page_free_list [
  | [] ↦ (err no_mem, s)
  | pp ∷ rest ↦ (ok pp, record s { page_free_list = rest; memory = update s.memory pp zero_page })
]

unfoldable pub page_free : ℕ → M Pmap (Unit {0})
page_free pp s = if s.pp_ref pp == 0 then (ok tt, insert_free pp s) else (panicked, s)

-- `assert(pp->pp_ref > 0); if (--pp->pp_ref == 0) LIST_INSERT_HEAD(...)`
unfoldable pub page_decref : ℕ → M Pmap (Unit {0})
page_decref pp s =
    if s.pp_ref pp == 0
    then (panicked, s)
    else let t = set_ref pp (s.pp_ref pp - 1) s in
      (ok tt, if s.pp_ref pp - 1 == 0 then insert_free pp t else t)

-- `(Pte *)KADDR(PTE_ADDR(pde)) + PTX(va)`
unfoldable pub table_entry : ℕ → ℕ → M Pmap (Option (ℕ × ℕ))
table_entry pde va s =
    if leb s.npage (ppn pde) then (panicked, s) else (ok (some (ppn pde, ptx va)), s)

-- A new page table for the directory entry of `va`.
unfoldable pub make_table : ℕ → ℕ → M Pmap (Unit {0})
make_table pgdir va = do
  pp ← page_alloc
  λ s. (
    ok tt,
    ref_inc pp (write_word (pgdir, pdx va) (bit_or (page2pa pp) (pte_c_cacheable + pte_v)) s),
  )

unfoldable pub pgdir_walk : ℕ → ℕ → Bool → M Pmap (Option (ℕ × ℕ))
pgdir_walk pgdir va create s =
    let pde = s.memory pgdir (pdx va) in
    if is_valid pde
    then table_entry pde va s
    else if create
    then (do make_table pgdir va; λ t. table_entry (t.memory pgdir (pdx va)) va t) s
    else (ok none, s)

-- `page2pa(pp) | perm | PTE_C_CACHEABLE | PTE_V`
unfoldable pub pte_for : ℕ → ℕ → ℕ
pte_for pp perm = bit_or (bit_or (bit_or (page2pa pp) perm) pte_c_cacheable) pte_v

-- `*pte = ...; pp->pp_ref++` and the flush, steps 3 and 4 of `page_insert`
store_new : ℕ → ℕ → ℕ → ℕ → Option (ℕ × ℕ) → M Pmap (Unit {0})
store_new asid pp va perm none s = (panicked, s)
store_new asid pp va perm (some p) s =
    (ok tt, tlb_invalidate asid va (ref_inc pp (write_word p (pte_for pp perm) s)))

insert_new : ℕ → ℕ → ℕ → ℕ → ℕ → M Pmap (Unit {0})
unfolding store_new
insert_new pgdir asid pp va perm = do pte ← pgdir_walk pgdir va true; store_new asid pp va perm pte

-- The entry is valid and points to `old`: drop another page, or only change the permission.
replace : ℕ → ℕ → ℕ → ℕ → ℕ → ℕ × ℕ → ℕ → M Pmap (Unit {0})
unfolding insert_new
replace pgdir asid pp va perm p old s =
    if old == pp
    then (ok tt, tlb_invalidate asid va (write_word p (pte_for pp perm) s))
    else (do page_decref old; λ t. insert_new pgdir asid pp va perm (write_word p 0 t)) s

insert_at : ℕ → ℕ → ℕ → ℕ → ℕ → Option (ℕ × ℕ) → M Pmap (Unit {0})
unfolding replace
insert_at pgdir asid pp va perm none s = insert_new pgdir asid pp va perm s
insert_at pgdir asid pp va perm (some p) s =
    if is_valid (read_word p s)
    then (do old ← pa2page (read_word p s); replace pgdir asid pp va perm p old) s
    else insert_new pgdir asid pp va perm s

unfoldable pub page_insert : ℕ → ℕ → ℕ → ℕ → ℕ → M Pmap (Unit {0})
unfolding insert_at
page_insert pgdir asid pp va perm = do
  pte ← pgdir_walk pgdir va false
  insert_at pgdir asid pp va perm pte

lookup_at : Option (ℕ × ℕ) → M Pmap (Option (ℕ × ℕ × ℕ))
lookup_at none s = (ok none, s)
lookup_at (some p) s =
    if is_valid (read_word p s)
    then (do pp ← pa2page (read_word p s); pure (some (pp, p.0, p.1))) s
    else (ok none, s)

-- `page_lookup`: the page with its entry, or none for NULL
unfoldable pub page_lookup : ℕ → ℕ → M Pmap (Option (ℕ × ℕ × ℕ))
unfolding lookup_at
page_lookup pgdir va = do pte ← pgdir_walk pgdir va false; lookup_at pte

remove_at : ℕ → ℕ → Option (ℕ × ℕ × ℕ) → M Pmap (Unit {0})
remove_at asid va none s = (ok tt, s)
remove_at asid va (some (pp, page, i)) s =
    (do page_decref pp; λ t. (ok tt, tlb_invalidate asid va (write_word (page, i) 0 t))) s

unfoldable pub page_remove : ℕ → ℕ → ℕ → M Pmap (Unit {0})
unfolding remove_at
page_remove pgdir asid va = do found ← page_lookup pgdir va; remove_at asid va found
