-- ===== src/Queue/Removal.antt =====
-- include/queue.h: the removal of an element from the middle of a queue.
use os_challenging_mission.Base.{
  ℕ, ◌≤◌, ◌≡◌, ◌≢◌, inl, inr, refl, sym, ap, ◌∙◌, subst, List, [], ◌∷◌, ◌++◌, arith, Option, none,
  some, count, ℕ_discrete, ==_ne, ==_refl, update_other, update_same, count-append, remove,
}
use mathlib.Core.List.{append-nil}
use os_challenging_mission.Queue.{
  Link, Links, deref, assign, set_prev, set_prev_if, list_remove, Tailq, last_if, tailq_remove,
}
use os_challenging_mission.Queue.Segment.{
  Segment, Distinct, Segment-append, Segment-split, Segment-end, Segment-kept, Distinct-head,
  Distinct-tail, count_head, count_tail,
}
use os_challenging_mission.Queue.Refine.{
  Holds, deref-assign_same, deref-assign_other, prev-assign, other_than, last_ne, deref-set_prev_if,
}

-- A list that has `e` once, taken apart at `e`.
abbrev pub Around : ℕ → List ℕ → List ℕ → List ℕ → Type 0
Around e xs ys zs = (xs ≡ ys ++ e ∷ zs) × (remove e xs ≡ ys ++ zs)

not_there : (e : ℕ) (xs : List ℕ) → count e xs ≡ 0 → remove e xs ≡ xs
not_there e [] h = refl
not_there e (x ∷ xs) h = elim (ℕ_discrete x e) [
  | yes p ↦ absurd (ground (arith, h, p))
  | no n ↦ rw (==_ne x e n) (ap (λ l. x ∷ l) (not_there e xs (ground (arith, h, n))))
]

Around-head : (x : ℕ) (xs : List ℕ) → count x xs ≡ 0 → Around x (x ∷ xs) [] xs
Around-head x xs h = (refl, rw (==_refl x) (not_there x xs h))

Around-exists :
    (e : ℕ) (xs : List ℕ)
    → Distinct xs
    → 1 ≤ count e xs
    → (ys : List ℕ) × (zs : List ℕ) × Around e xs ys zs
Around-exists e [] d h = absurd (omega (arith, h))
Around-exists e (x ∷ xs) d h = elim (ℕ_discrete x e) [
  | yes p ↦
      ([], xs, subst (λ e. Around e (x ∷ xs) [] xs) p (Around-head x xs (Distinct-head x xs d)))
  | no n ↦ further n (Around-exists e xs (Distinct-tail x xs d) (ground (arith, h, n)))
]
  where
    further :
        x ≢ e
        → (ys : List ℕ) × (zs : List ℕ) × Around e xs ys zs
        → (ys : List ℕ) × (zs : List ℕ) × Around e (x ∷ xs) ys zs
    further n (ys, zs, (p, q)) =
        (x ∷ ys, zs, (ap (λ l. x ∷ l) p, rw (==_ne x e n) (ap (λ l. x ∷ l) q)))

-- The heap after LIST_REMOVE, when `m` was the link to the element and `f` the one after it.
abbrev removed : Link → Option ℕ → Links → Links
removed m f k = assign m f (set_prev_if f m k)

-- The queue after TAILQ_REMOVE.
abbrev without : Links → Link → Link → Option ℕ → Tailq
without k t m f = record { links = removed m f k; tqh_last = last_if f m t }

module _ (k : Links) (t m : Link) (ys : List ℕ) (before : Segment k none ys m) where
  without_last : Distinct ys → Holds (without k t m none) ys
  without_last d = (
    Segment-kept k (removed m none k) none m ys tt d (λ n. deref-assign_other m none none k n)
        (λ x h n. deref-assign_other m (some x) none k n) (λ x h. prev-assign m none k x) before,
    deref-assign_same m none k,
    d,
  )

  module _ (z : ℕ) (zs : List ℕ) (d : Distinct (ys ++ z ∷ zs)) where
    not_before : (y : ℕ) → 1 ≤ count y (z ∷ zs) → count y ys ≡ 0
    not_before y h = omega (arith, h, d y, count-append y ys (z ∷ zs))

    not_after : (y : ℕ) → 1 ≤ count y ys → count y (z ∷ zs) ≡ 0
    not_after y h = omega (arith, h, d y, count-append y ys (z ∷ zs))

    Distinct-before : Distinct ys
    Distinct-before y = omega (arith, d y, count-append y ys (z ∷ zs))

    Distinct-after : Distinct (z ∷ zs)
    Distinct-after y = omega (arith, d y, count-append y ys (z ∷ zs))

    not_link : (y : ℕ) → 1 ≤ count y (z ∷ zs) → some y ≢ m
    not_link y h = last_ne k m ys y before (not_before y h)

    end_ne : Segment k (some z) zs t → t ≢ m
    end_ne s = elim (Segment-end k (some z) t zs s) [
      | inl e ↦ subst (λ t. t ≢ m) e (not_link z (count_head z zs))
      | inr (y, e, h) ↦ subst (λ t. t ≢ m) (sym e) (not_link y (count_tail z y zs h))
    ]

    without_inner :
        Segment k (some z) zs t → deref k t ≡ none → Holds (without k t m (some z)) (ys ++ z ∷ zs)
    without_inner after end =
        let k' = set_prev z m k in
        let new = removed m (some z) k in
        let zz = Distinct-head z zs Distinct-after in
        (
          Segment-append new none m t ys (z ∷ zs)
              (Segment-kept k new none m ys tt Distinct-before
                (λ n. deref-assign_other m none (some z) k' n)
                (λ x h n. deref-assign_other m (some x) (some z) k' n)
                (λ x h.
                  prev-assign m (some z) k' x
                  ∙ update_other k.prev z m x
                      (other_than x z ys h (not_before z (count_head z zs))))
                before)
              (
                deref-assign_same m (some z) k',
                prev-assign m (some z) k' z ∙ update_same k.prev z m,
                Segment-kept k new (some z) t zs zz (Distinct-tail z zs Distinct-after)
                    (λ _. deref-assign_other m (some z) (some z) k' (not_link z (count_head z zs)))
                    (λ y h _.
                      deref-assign_other m (some y) (some z) k' (not_link y (count_tail z y zs h)))
                    (λ y h.
                      prev-assign m (some z) k' y
                      ∙ update_other k.prev z m y (other_than y z zs h zz))
                    after,
              ),
          deref-assign_other m t (some z) k' (end_ne after)
              ∙ deref-set_prev_if (some z) m t k
              ∙ end,
          d,
        )

Distinct-without : (e : ℕ) (ys zs : List ℕ) → Distinct (ys ++ e ∷ zs) → Distinct (ys ++ zs)
Distinct-without e ys zs d a = ground (arith, d a, count-append a ys (e ∷ zs), count-append a ys zs)

-- The queue with `e` taken out, when the element after `e` is known.
without_next :
    (k : Links) (t m : Link) (ys zs : List ℕ) (e : ℕ)
    → Segment k none ys m
    → Segment k (some e) zs t
    → deref k t ≡ none
    → Distinct (ys ++ zs)
    → Holds (without k t m (k.next e)) (ys ++ zs)
without_next k t m ys [] e before after end d =
    subst (λ f. Holds (without k t m f) (ys ++ [])) (sym (ap (deref k) after ∙ end))
      (subst (Holds (without k t m none)) (sym (append-nil ys))
        (without_last k t m ys before (subst Distinct (append-nil ys) d)))
without_next k t m ys (z ∷ zs) e before (p, q, after) end d =
    subst (λ f. Holds (without k t m f) (ys ++ z ∷ zs)) (sym p)
      (without_inner k t m ys before z zs d after end)

tailq_remove-split :
    (q : Tailq) (ys zs : List ℕ) (e : ℕ)
    → Holds q (ys ++ e ∷ zs)
    → Holds (tailq_remove e q) (ys ++ zs)
unfolding tailq_remove list_remove
tailq_remove-split q ys zs e (s, end, d) =
    let (m, before, rest) = Segment-split q.links none q.tqh_last ys (e ∷ zs) s in
    subst (λ m. Holds (without q.links q.tqh_last m (q.links.next e)) (ys ++ zs)) (sym (rest.1))
      (without_next q.links q.tqh_last m ys zs e before rest.2 end (Distinct-without e ys zs d))

pub tailq_remove-Holds :
    (q : Tailq) (xs : List ℕ) (e : ℕ)
    → 1 ≤ count e xs
    → Holds q xs
    → Holds (tailq_remove e q) (remove e xs)
tailq_remove-Holds q xs e h s =
    let (ys, zs, around) = Around-exists e xs s.2 h in
    subst (Holds (tailq_remove e q)) (sym (around.1))
      (tailq_remove-split q ys zs e (subst (Holds q) (around.0) s))
