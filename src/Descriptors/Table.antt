-- ===== src/Descriptors/Table.antt =====
-- user/lib/fd.c: which descriptor `fd_alloc` finds.
use os_challenging_mission.Base.{
  ℕ, zero, suc, ◌+◌, ◌/◌, ◌≤◌, ◌<◌, ◌≡◌, refl, sym, subst, Bool, true, false, not, ◌&&◌, arith,
  ℕ_discrete, if-cases,
}
use os_challenging_mission.Errors.{Outcome, ok, err, max_open, panicked, switched, waiting}
use os_challenging_mission.Descriptors.{
  Space, index2fd, pages_of_pd, page_valid, scan_fds, fd_alloc,
}

-- Descriptor number `i` has a page.
abbrev pub is_used : Space → ℕ → Bool
is_used s i = s.vpd (index2fd i / pages_of_pd) && page_valid s (index2fd i)

-- What a search among the `n` numbers from `from` has found.
abbrev pub Unused : ℕ → ℕ → Space → Outcome ℕ × Space → Type 0
Unused n from s (ok fd, t) =
    (t ≡ s)
    × ((i : ℕ) × (fd ≡ index2fd i)
        × (i < from + n)
        × (is_used s i ≡ false)
        × ((j : ℕ) → from ≤ j → j < i → is_used s j ≡ true))
Unused n from s (err e, t) =
    (t ≡ s) × (e ≡ max_open) × ((j : ℕ) → from ≤ j → j < from + n → is_used s j ≡ true)
Unused n from s _ = ⊥

used_from :
    (from to : ℕ) (s : Space)
    → is_used s from ≡ true
    → ((j : ℕ) → suc from ≤ j → j < to → is_used s j ≡ true)
    → (j : ℕ) → from ≤ j
    → j < to
    → is_used s j ≡ true
used_from from to s h f j p q = elim (ℕ_discrete j from) [
  | yes e ↦ subst (λ j. is_used s j ≡ true) (sym e) h
  | no n ↦ f j (omega (arith, p, n)) q
]

further :
    (n from : ℕ) (s : Space) (o : Outcome ℕ) (t : Space)
    → is_used s from ≡ true
    → Unused n (suc from) s (o, t)
    → Unused (suc n) from s (o, t)
further n from s (ok fd) t h (same, (i, e, l, u, f)) =
    (same, (i, e, omega arith, u, used_from from i s h f))
further n from s (err e) t h (same, k, f) =
    (same, k, λ j p q. used_from from (suc from + n) s h f j p (omega (arith, q)))
further n from s panicked t h u = u
further n from s switched t h u = u
further n from s waiting t h u = u

here :
    (n from : ℕ) (s : Space)
    → is_used s from ≡ false
    → Unused (suc n) from s (ok (index2fd from), s)
here n from s h = (refl, (from, refl, omega arith, h, λ j p q. absurd (omega (arith, p, q))))

scan_fds-Unused : (n from : ℕ) (s : Space) → Unused n from s (scan_fds n from s)
unfolding scan_fds
scan_fds-Unused zero from s = (refl, refl, λ j p q. absurd (omega (arith, p, q)))
scan_fds-Unused (suc n) from s =
    if-cases (Unused (suc n) from s) (not (s.vpd (index2fd from / pages_of_pd)))
      (λ e. here n from s (ground (arith, e)))
      λ e.
        if-cases (Unused (suc n) from s) (not (page_valid s (index2fd from)))
          (λ f. here n from s (ground (arith, e, f)))
          (λ f.
            further n from s (scan_fds n (suc from) s).0 (scan_fds n (suc from) s).1
              (ground (arith, e, f)) (scan_fds-Unused n (suc from) s))

-- `fd_alloc` changes nothing. It returns the page of the lowest number below 31 that has no page, and
-- fails with -E_MAX_OPEN only if all these numbers have one; number 31 is never given.
pub fd_alloc_lem : (s : Space) → Unused 31 0 s (fd_alloc s)
unfolding fd_alloc
fd_alloc_lem s = scan_fds-Unused 31 0 s
