-- ===== src/Asid/Laws.antt =====
-- kern/env.c: which identifiers are handed out.
use os_challenging_mission.Base.{
  ℕ, zero, suc, ◌+◌, ◌≤◌, ◌<◌, ◌≡◌, ◌⊎◌, inl, inr, refl, subst, true, false, arith, ◌==◌,
  if◌then◌else◌, Option, none, some, Bool-cases, Option-cases, ℕ_discrete,
}
use os_challenging_mission.Base.Bitmap.{Bitmap, is_set, is_set-set_at, is_set-clear_at}
use os_challenging_mission.Errors.{ok, err, no_free_env}
use os_challenging_mission.Asid.{nasid, asid_scan, asid_alloc, asid_free}

-- What a scan of `n` bits from `i` finds.
abbrev Scanned : ℕ → ℕ → Bitmap → Option ℕ → Type 0
Scanned i n b none = (j : ℕ) → i ≤ j → j < i + n → is_set b j ≡ true
Scanned i n b (some k) =
    (i ≤ k) × (k < i + n) × (is_set b k ≡ false) × ((j : ℕ) → i ≤ j → j < k → is_set b j ≡ true)

asid_scan-Scanned : (n i : ℕ) (b : Bitmap) → Scanned i n b (asid_scan n i b)
unfolding asid_scan
asid_scan-Scanned zero i b = λ j p q. absurd (omega arith)
asid_scan-Scanned (suc n) i b = elim (Bool-cases (is_set b i)) [
  | inl used ↦ rw used (extend used (asid_scan n (suc i) b) (asid_scan-Scanned n (suc i) b))
  | inr free ↦ rw free (omega arith, omega arith, free, λ j p q. absurd (omega arith))
]
  where
    from_here :
        {m : ℕ}
        → is_set b i ≡ true
        → ((j : ℕ) → suc i ≤ j → j < m → is_set b j ≡ true)
        → (j : ℕ) → i ≤ j
        → j < m
        → is_set b j ≡ true
    from_here used s j p q = elim (ℕ_discrete i j) [
      | yes e ↦ subst (λ x. is_set b x ≡ true) e used
      | no ne ↦ s j (omega arith) q
    ]

    extend : is_set b i ≡ true → (r : Option ℕ) → Scanned (suc i) n b r → Scanned i (suc n) b r
    extend used none s = λ j p q. from_here used s j p (omega arith)
    extend used (some k) (le, lt, free, below) =
        (omega arith, omega arith, free, from_here used below)

-- `asid_alloc` hands out the lowest identifier that is free, and marks it and no other; it fails
-- with -E_NO_FREE_ENV, and changes nothing, exactly if all 256 are in use.
pub asid_alloc_lem :
    (b : Bitmap)
    → ((i : ℕ) × (i < nasid)
        × (is_set b i ≡ false)
        × ((j : ℕ) → j < i → is_set b j ≡ true)
        × ((asid_alloc b).0 ≡ ok i)
        × ((j : ℕ) → is_set (asid_alloc b).1 j ≡ (if j == i then true else is_set b j)))
      ⊎ (((j : ℕ) → j < nasid → is_set b j ≡ true) × (asid_alloc b ≡ (err no_free_env, b)))
unfolding asid_alloc
asid_alloc_lem b = elim (Option-cases (asid_scan nasid 0 b)) [
  | inl e ↦
      let full = subst (Scanned 0 nasid b) e (asid_scan-Scanned nasid 0 b) in
      inr (λ j q. full j (omega arith) q, rw (e, asid_alloc) refl)
  | inr (i, e) ↦
      let found = subst (Scanned 0 nasid b) e (asid_scan-Scanned nasid 0 b) in
      rw (e, asid_alloc)
        (inl (i, found.1, found.2, (λ j q. found.3 j (omega arith) q), refl, is_set-set_at b i))
]

-- Freeing an identifier undoes its allocation: the same identifiers are in use as before.
pub asid_free-asid_alloc :
    (b : Bitmap) {i : ℕ}
    → (asid_alloc b).0 ≡ ok i
    → (j : ℕ) → is_set (asid_free i (asid_alloc b).1) j ≡ is_set b j
unfolding asid_free
asid_free-asid_alloc b {i} h j = elim (asid_alloc_lem b) [
  | inl (k, lt, free, below, e, marked) ↦
      let same : k ≡ i = cc in
      ground (arith, is_set-clear_at (asid_alloc b).1 i j, marked j, same, free)
  | inr (full, e) ↦ ground arith
]
