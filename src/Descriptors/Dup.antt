-- ===== src/Descriptors/Dup.antt =====
-- user/lib/fd.c: two numbers for one descriptor.
use os_challenging_mission.Base.{
  ℕ, zero, suc, ◌+◌, ◌/◌, ◌≤◌, ◌<◌, ◌≡◌, ◌≢◌, ◌⊎◌, inl, inr, refl, ◌∙◌, not, ◌&&◌, arith, ◌==◌,
  Option, none, some, if-cases, update_other, update_same, ap, sym, subst,
}
use os_challenging_mission.Errors.{
  M, Outcome, ok, err, and_then, panicked, switched, waiting, and_then_ok,
}
use os_challenging_mission.Descriptors.{
  Space, Pte, filebase, pages_of_pd, map_entry, syscall_mem_map, share_page, share_data, bit_and,
  fd2data, share_all, index2fd, dup_end, maxfd, close_found, dev_lookup, perm_of, dup_to, fd_close,
  shared_bits, syscall_mem_unmap, data_step, fd_step,
}

-- The pages of the descriptor table but `fd` have kept their entries.
abbrev pub Keeps : ℕ → Space → Space → Type 0
Keeps fd s t = (p : ℕ) → p < filebase → p ≢ fd → t.vpt p ≡ s.vpt p

pub Keeps-trans : (fd : ℕ) (s t u : Space) → Keeps fd s t → Keeps fd t u → Keeps fd s u
Keeps-trans fd s t u f g p h n = g p h n ∙ f p h n

pub Keeps-and_then :
    {A B : Type 0} (fd : ℕ) (s : Space) (r : Outcome A × Space) (k : A → M Space B)
    → Keeps fd s r.1
    → ((a : A) (t : Space) → Keeps fd t (k a t).1)
    → Keeps fd s (and_then r k).1
Keeps-and_then fd s (ok a, t) k f g = Keeps-trans fd s t (k a t).1 f (g a t)
Keeps-and_then fd s (err e, t) k f g = f
Keeps-and_then fd s (panicked, t) k f g = f
Keeps-and_then fd s (switched, t) k f g = f
Keeps-and_then fd s (waiting, t) k f g = f

map_entry-Keeps :
    (o : Option Pte) (dst perm fd : ℕ) (s : Space)
    → (dst ≡ fd) ⊎ (filebase ≤ dst)
    → Keeps fd s (map_entry o dst perm s).1
map_entry-Keeps none dst perm fd s w = λ p h n. refl
map_entry-Keeps (some e) dst perm fd s w =
    if-cases (λ (r : Outcome (Unit {0}) × Space). Keeps fd s r.1)
      (not (s.vpd (dst / pages_of_pd)) && (s.frames == 0)) (λ _ p h n. refl)
      (λ _ p h n.
        update_other s.vpt dst (some (record { frame = e.frame; perm = perm })) p (away w p h n))
  where
    away : (dst ≡ fd) ⊎ (filebase ≤ dst) → (p : ℕ) → p < filebase → p ≢ fd → p ≢ dst
    away (inl e) p h n q = n (q ∙ e)
    away (inr l) p h n q = absurd (omega (arith, l, h, q))

share_page-Keeps :
    (o : Option Pte) (src dst fd : ℕ) (s : Space)
    → filebase ≤ dst
    → Keeps fd s (share_page o src dst s).1
unfolding share_page syscall_mem_map
share_page-Keeps none src dst fd s h = λ p q n. refl
share_page-Keeps (some e) src dst fd s h = map_entry-Keeps (s.vpt src) dst _ fd s (inr h)

share_data-Keeps :
    (ova nva n i fd : ℕ) (s : Space) → filebase ≤ nva → Keeps fd s (share_data ova nva n i s).1
unfolding share_data
share_data-Keeps ova nva zero i fd s h = λ p q n. refl
share_data-Keeps ova nva (suc n) i fd s h =
    Keeps-and_then fd s (share_page (s.vpt (ova + i)) (ova + i) (nva + i) s)
      (λ _. share_data ova nva n (suc i))
      (share_page-Keeps (s.vpt (ova + i)) (ova + i) (nva + i) fd s (omega (arith, h)))
      (λ _ t. share_data-Keeps ova nva n (suc i) fd t h)

-- The two pages have one frame.
abbrev pub Shared : ℕ → ℕ → Space → Type 0
Shared fd fd' t =
    (p : Pte) × (q : Pte) × (t.vpt fd ≡ some p) × (t.vpt fd' ≡ some q) × (q.frame ≡ p.frame)

map_entry-Shared :
    (o : Option Pte) (fd fd' perm : ℕ) (s : Space)
    → s.vpt fd ≡ o
    → fd ≢ fd'
    → (map_entry o fd' perm s).0 ≡ ok tt
    → Shared fd fd' (map_entry o fd' perm s).1
map_entry-Shared none fd fd' perm s e n = λ h. absurd (ground (arith, h))
map_entry-Shared (some p) fd fd' perm s e n =
    let new : Pte = record { frame = p.frame; perm = perm } in
    if-cases (λ (r : Outcome (Unit {0}) × Space). r.0 ≡ ok tt → Shared fd fd' r.1)
      (not (s.vpd (fd' / pages_of_pd)) && (s.frames == 0)) (λ _ h. absurd (ground (arith, h)))
      (λ _ h. (
        p,
        new,
        update_other s.vpt fd' (some new) fd n ∙ e,
        update_same s.vpt fd' (some new),
        refl,
      ))

data_step-Keeps : (fd fd' any : ℕ) (s : Space) → Keeps any s (data_step fd fd' s).1
unfolding data_step
data_step-Keeps fd fd' any s =
    if-cases (λ (r : Outcome (Unit {0}) × Space). Keeps any s r.1)
      (s.vpd (fd2data fd / pages_of_pd))
      (λ _. share_data-Keeps (fd2data fd) (fd2data fd') pages_of_pd 0 any s (omega arith))
      (λ _ p h n. refl)

share_all-Keeps : (fd fd' : ℕ) (s : Space) → Keeps fd' s (share_all fd fd' s).1
unfolding share_all fd_step syscall_mem_map
share_all-Keeps fd fd' s =
    Keeps-and_then fd' s (data_step fd fd' s) (λ _. fd_step fd fd') (data_step-Keeps fd fd' fd' s)
      (λ _ t.
        map_entry-Keeps (t.vpt fd) fd' (bit_and (perm_of (t.vpt fd)) shared_bits) fd' t (inl refl))

share_all-Shared :
    (fd fd' : ℕ) (s : Space)
    → fd ≢ fd'
    → (share_all fd fd' s).0 ≡ ok tt
    → Shared fd fd' (share_all fd fd' s).1
unfolding share_all fd_step syscall_mem_map
share_all-Shared fd fd' s n h =
    let (a, e, same) = and_then_ok (data_step fd fd' s) (λ _. fd_step fd fd') h in
    let t = (data_step fd fd' s).1 in
    let result : (fd_step fd fd' t).0 ≡ ok tt =
      ap (λ (r : Outcome (Unit {0}) × Space). r.0) (sym same) ∙ h in
    subst (λ (r : Outcome (Unit {0}) × Space). Shared fd fd' r.1) (sym same)
      (map_entry-Shared (t.vpt fd) fd fd' (bit_and (perm_of (t.vpt fd)) shared_bits) t refl n
        result)

-- What `dup` has done when it returns `n`.
abbrev pub Dups : ℕ → ℕ → Space → Outcome ℕ × Space → Type 0
Dups i j s r =
    (n : ℕ)
    → r.0 ≡ ok n
    → (n ≡ j) × Shared (index2fd i) (index2fd j) r.1 × (r.1.vpt (index2fd i) ≡ s.vpt (index2fd i))

dup_end-Dups :
    (i j : ℕ) (s : Space) (o : Outcome (Unit {0})) (t : Space)
    → (o ≡ ok tt → Shared (index2fd i) (index2fd j) t)
    → t.vpt (index2fd i) ≡ s.vpt (index2fd i)
    → Dups i j s (dup_end j o t)
unfolding dup_end
dup_end-Dups i j s (ok tt) t f e = λ n h. (ground (arith, h), f refl, e)
dup_end-Dups i j s (err x) t f e = λ n h. absurd (ground (arith, h))
dup_end-Dups i j s panicked t f e = λ n h. absurd (ground (arith, h))
dup_end-Dups i j s switched t f e = λ n h. absurd (ground (arith, h))
dup_end-Dups i j s waiting t f e = λ n h. absurd (ground (arith, h))

module _ (i j : ℕ) (hi : i < maxfd) (hj : j < maxfd) (n : i ≢ j) where
  pub different : index2fd i ≢ index2fd j
  different e = n (omega (arith, e))

  shared-Dups :
      (s t : Space)
      → Keeps (index2fd j) s t
      → Dups i j s (
          dup_end j
            (share_all (index2fd i) (index2fd j) t).0
            (share_all (index2fd i) (index2fd j) t).1)
  shared-Dups s t k =
      dup_end-Dups i j s (share_all (index2fd i) (index2fd j) t).0
        (share_all (index2fd i) (index2fd j) t).1
        (share_all-Shared (index2fd i) (index2fd j) t different)
        (Keeps-trans (index2fd j) s t (share_all (index2fd i) (index2fd j) t).1 k
          (share_all-Keeps (index2fd i) (index2fd j) t) (index2fd i) (omega (arith, hi)) different)

  pub dup_to-Dups :
      (s : Space) (o : Outcome (Unit {0})) (t : Space)
      → Keeps (index2fd j) s t
      → Dups i j s (dup_to (index2fd i) j o t)
  unfolding dup_to
  dup_to-Dups s (ok _) t k = shared-Dups s t k
  dup_to-Dups s (err e) t k = shared-Dups s t k
  dup_to-Dups s panicked t k = λ n h. absurd (ground (arith, h))
  dup_to-Dups s switched t k = λ n h. absurd (ground (arith, h))
  dup_to-Dups s waiting t k = λ n h. absurd (ground (arith, h))

pub close_found-Keeps :
    (fd : ℕ) (o : Outcome (Unit {0})) (s : Space) → Keeps fd s (close_found fd o s).1
unfolding close_found fd_close syscall_mem_unmap
close_found-Keeps fd (ok _) s = λ p h n. update_other s.vpt fd none p n
close_found-Keeps fd (err e) s = λ p h n. update_other s.vpt fd none p n
close_found-Keeps fd panicked s = λ p h n. refl
close_found-Keeps fd switched s = λ p h n. refl
close_found-Keeps fd waiting s = λ p h n. refl

pub dev_lookup-Keeps : (id any : ℕ) (s : Space) → Keeps any s (dev_lookup id s).1
unfolding dev_lookup
dev_lookup-Keeps id any s =
    let K = λ (r : Outcome ℕ × Space). Keeps any s r.1 in
    if-cases K (id == 102) (λ _ p h n. refl)
      (λ _.
        if-cases K (id == 99) (λ _ p h n. refl)
          (λ _. if-cases K (id == 112) (λ _ p h n. refl) (λ _ p h n. refl)))
