-- ===== src/Pmap/Init.antt =====
-- kern/pmap.c: the free list after `page_init`.
use os_challenging_mission.Base.{
  ℕ, zero, suc, ◌+◌, ◌-◌, ◌*◌, ◌/◌, ◌≡◌, ◌&&◌, List, [], ◌∷◌, arith, ltb, leb, if◌then◌else◌, count,
}
use os_challenging_mission.Pmap.{Pmap, free_from, page_init}
use os_challenging_mission.Pmap.Free.{FreeInv}

-- The pages that `page_init` puts on the list.
count-free_from :
    (p i n : ℕ) (l : List ℕ)
    → count p (free_from i n l) ≡ count p l + (if leb i p && ltb p (i + n) then 1 else 0)
unfolding free_from
count-free_from p i zero l = ground arith
count-free_from p i (suc n) l = ground (arith, count-free_from p (suc i) n (i ∷ l))

-- `page_init` frees exactly the pages from `freemem`, rounded up, to the end of the memory, each
-- once, and gives one reference to each page below.
pub page_init-FreeInv :
    (freemem : ℕ) (s : Pmap)
    → FreeInv (page_init freemem s)
      × ((p : ℕ)
          → count p (page_init freemem s).page_free_list
            ≡ (if leb ((freemem + 4095) / 4096) p && ltb p s.npage then 1 else 0))
unfolding page_init
page_init-FreeInv freemem s = (
  record { once = λ p. ground (arith, listed p); unused = λ p. ground (arith, listed p) },
  λ p. ground (arith, listed p),
)
  where
    size : ℕ
    size = (freemem + 4095) / 4096 * 4096 / 4096

    listed :
        (p : ℕ)
        → count p (free_from size (s.npage - size) [])
          ≡ 0 + (if leb size p && ltb p (size + (s.npage - size)) then 1 else 0)
    listed p = count-free_from p size (s.npage - size) []
