-- ===== src/Pmap/Tlb.antt =====
-- kern/tlbex.c: what the kernel does when a CPU misses an entry of its TLB.
use os_challenging_mission.Errors.{◌>>=◌, ◌>>◌, Outcome, M, err, panicked, ok, waiting}
use os_challenging_mission.Base.{
  ℕ, zero, suc, ◌+◌, ◌-◌, ◌*◌, ◌/◌, ◌%◌, ◌^◌, Bool, ◌&&◌, ◌||◌, List, ◌∷◌, ltb, leb, if◌then◌else◌,
  Option, none, some,
}
use Prim.Native.Nat.{bit_or}
use os_challenging_mission.Pmap.{Pmap, page_alloc, page_lookup, page_insert}

abbrev pub utop : ℕ
utop = 0x7f400000

abbrev pub ustacktop : ℕ
ustacktop = 0x7f3fe000

abbrev pub utemp : ℕ
utemp = 0x003fe000

abbrev pub upages : ℕ
upages = 0x7f800000

abbrev pub uvpt : ℕ
uvpt = 0x7fc00000

abbrev pub ulim : ℕ
ulim = 0x80000000

abbrev pub pte_d : ℕ
pte_d = 0x100

-- PTE_ADDR
abbrev pub pte_addr : ℕ → ℕ
pte_addr va = va / 4096 * 4096

-- The addresses for which `passive_alloc` panics.
abbrev pub no_page_for : ℕ → Bool
no_page_for va =
    ltb va utemp
    || (leb ustacktop va && ltb va (ustacktop + 4096))
    || (leb utop va && ltb va upages)
    || (leb upages va && ltb va uvpt)
    || leb ulim va

-- `panic_on(r)`
abbrev pub panic_on : {A : Type 0} → Outcome A × Pmap → Outcome A × Pmap
panic_on (err e, s) = (panicked, s)
panic_on r = r

abbrev pub passive_perm : ℕ → ℕ
passive_perm va = if leb uvpt va && ltb va ulim then 0 else pte_d

unfoldable pub passive_alloc : ℕ → ℕ → ℕ → M Pmap (Unit {0})
passive_alloc va pgdir asid s =
    if no_page_for va
    then (panicked, s)
    else (do
      p ← λ t. panic_on (page_alloc t)
      λ t. panic_on (page_insert pgdir asid p (pte_addr va) (passive_perm va) t))
        s

-- What follows `page_lookup` in the loop.
unfoldable pub refill_found : M Pmap (ℕ × ℕ) → Option (ℕ × ℕ × ℕ) → M Pmap (ℕ × ℕ)
refill_found again none s = again s
refill_found again (some (pp, page, i)) s = (ok (page, i), s)

-- `while (page_lookup(...) == NULL) passive_alloc(...)`: the entry that is found at last.
unfoldable pub refill_loop : ℕ → ℕ → ℕ → ℕ → M Pmap (ℕ × ℕ)
unfolding passive_alloc refill_found
refill_loop zero va pgdir asid s = (waiting, s)
refill_loop (suc n) va pgdir asid s =
    let rest = refill_loop n va pgdir asid in
    (do found ← page_lookup pgdir va; refill_found (do passive_alloc va pgdir asid; rest) found) s

-- What `tlb_invalidate_local` gives to `tlb_out`.
abbrev pub entry_hi : ℕ → ℕ → ℕ
entry_hi asid va = bit_or (va / 2 ^ 13 * 2 ^ 13) (asid % 256)

-- `ppte & ~0x7`, and the two words there.
abbrev pub entry_lo : ℕ × ℕ → Pmap → ℕ × ℕ
entry_lo (page, i) s = (s.memory page (i - i % 2) / 2 ^ 6, s.memory page (i - i % 2 + 1) / 2 ^ 6)

-- The whole loop is one step here: no other CPU takes pages or changes the tables between its rounds.
-- `pentrylo` is the result. `outs` are the entries that this CPU has thrown out of its TLB; `pgdir` is
-- `cpu_cur_pgdir()`.
unfoldable pub do_tlb_refill : ℕ → ℕ → ℕ → ℕ → M (List ℕ × Pmap) (ℕ × ℕ)
unfolding refill_loop
do_tlb_refill fuel va pgdir asid (outs, s) =
    let r = refill_loop fuel va pgdir asid s in
    (do ppte ← λ t. (r.0, t); λ t. (ok (entry_lo ppte t.1), t)) (entry_hi asid va ∷ outs, r.1)
