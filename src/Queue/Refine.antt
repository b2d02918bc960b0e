-- ===== src/Queue/Refine.antt =====
-- include/queue.h: the linked queues implement lists.
use os_challenging_mission.Base.{
  ℕ, ◌≤◌, ◌≡◌, ◌≢◌, inl, inr, refl, sym, ap, ◌∙◌, subst, List, [], ◌∷◌, ◌++◌, arith, Option, none,
  some, update, count, update_same, update_other, count-append, ℕ_discrete,
}
use os_challenging_mission.Queue.{
  Link, Links, deref, assign, set_prev, set_prev_if, list_insert_head, Tailq, last_if,
  tailq_insert_head, tailq_insert_tail,
}
use os_challenging_mission.Queue.Segment.{
  Segment, Distinct, Segment-append, Segment-end, Segment-kept, Distinct-head, count_head,
  count_tail, Distinct-tail, begin_ne,
}

pub deref-assign_same : (l : Link) (v : Option ℕ) (k : Links) → deref (assign l v k) l ≡ v
deref-assign_same none v k = refl
deref-assign_same (some e) v k = update_same k.next e v

pub deref-assign_other :
    (l m : Link) (v : Option ℕ) (k : Links) → m ≢ l → deref (assign l v k) m ≡ deref k m
deref-assign_other none none v k n = absurd (n refl)
deref-assign_other none (some f) v k n = refl
deref-assign_other (some e) none v k n = refl
deref-assign_other (some e) (some f) v k n = update_other k.next e v f (λ p. n (ap some p))

pub prev-assign : (l : Link) (v : Option ℕ) (k : Links) (x : ℕ) → (assign l v k).prev x ≡ k.prev x
prev-assign none v k x = refl
prev-assign (some e) v k x = refl

pub deref-set_prev_if :
    (p : Option ℕ) (l m : Link) (k : Links) → deref (set_prev_if p l k) m ≡ deref k m
deref-set_prev_if none l m k = refl
deref-set_prev_if (some e) l none k = refl
deref-set_prev_if (some e) l (some f) k = refl

-- The queue `q` holds the elements `xs`, in this order.
abbrev pub Holds : Tailq → List ℕ → Type 0
Holds q xs = Segment q.links none xs q.tqh_last × (deref q.links q.tqh_last ≡ none) × Distinct xs

-- The link after the last element is none of an element that is not there.
pub last_ne :
    (k : Links) (t : Link) (xs : List ℕ) (e : ℕ) → Segment k none xs t → count e xs ≡ 0 → some e ≢ t
last_ne k t xs e s c p = elim (Segment-end k none t xs s) [
  | inl q ↦ absurd (ground (arith, p, q))
  | inr (y, q, h) ↦ absurd (ground (arith, p, q, h, c))
]

append_Distinct : (xs : List ℕ) (e : ℕ) → Distinct xs → count e xs ≡ 0 → Distinct (xs ++ e ∷ [])
append_Distinct xs e d c a = ground (arith, d a, c, count-append a xs (e ∷ []))

abbrev inserted_tail : ℕ → Link → Links → Links
inserted_tail e t k = assign t (some e) (set_prev e t (assign (some e) none k))

pub other_than : (x e : ℕ) (xs : List ℕ) → 1 ≤ count x xs → count e xs ≡ 0 → x ≢ e
other_than x e xs h c p = absurd (omega (arith, h, c, ap (λ z. count z xs) p))

pub tailq_insert_tail-Holds :
    (q : Tailq) (xs : List ℕ) (e : ℕ)
    → count e xs ≡ 0
    → Holds q xs
    → Holds (tailq_insert_tail e q) (xs ++ e ∷ [])
unfolding tailq_insert_tail
tailq_insert_tail-Holds q xs e c (s, z, d) =
    let k = q.links in
    let t = q.tqh_last in
    let before = set_prev e t (assign (some e) none k) in
    let new = inserted_tail e t k in
    (
      Segment-append new none t (some e) xs (e ∷ [])
          (Segment-kept k new none t xs tt d (λ n. deref-assign_other t none (some e) before n)
            (λ x h n.
              deref-assign_other t (some x) (some e) before n
              ∙ update_other k.next e none x (other_than x e xs h c))
            (λ x h.
              prev-assign t (some e) before x ∙ update_other k.prev e t x (other_than x e xs h c))
            s)
          (
            deref-assign_same t (some e) before,
            prev-assign t (some e) before e ∙ update_same k.prev e t,
            refl,
          ),
      deref-assign_other t (some e) (some e) before (last_ne k t xs e s c)
          ∙ update_same k.next e none,
      append_Distinct xs e d c,
    )

cons_Distinct : (xs : List ℕ) (e : ℕ) → Distinct xs → count e xs ≡ 0 → Distinct (e ∷ xs)
cons_Distinct xs e d c a = elim (ℕ_discrete e a) [
  | yes p ↦ ground (arith, d a, ap (λ z. count z xs) p, c)
  | no n ↦ ground (arith, d a, n)
]

-- The heap after LIST_INSERT_HEAD, when the first element was `f`.
abbrev inserted_head : ℕ → Option ℕ → Links → Links
inserted_head e f k =
    set_prev e none (assign none (some e) (set_prev_if f (some e) (assign (some e) f k)))

module _ (k : Links) (t : Link) (e : ℕ) where
  -- The queue after TAILQ_INSERT_HEAD.
  abbrev headed : Option ℕ → Tailq
  headed f = record { links = inserted_head e f k; tqh_last = last_if f (some e) t }

  headed_one : deref k none ≡ none → Holds (headed none) (e ∷ [])
  headed_one z =
      ((refl, update_same k.prev e none, refl), update_same k.next e none, λ a. ground arith)

  headed_end : (x : ℕ) → some e ≢ t → none ≢ t → deref (inserted_head e (some x) k) t ≡ deref k t
  headed_end x n m = at t n m
    where
      at : (t : Link) → some e ≢ t → none ≢ t → deref (inserted_head e (some x) k) t ≡ deref k t
      at none n m = absurd (m refl)
      at (some w) n m = update_other k.next e (some x) w (λ p. n (ap some (sym p)))

  headed_more :
      (x : ℕ) (xs : List ℕ)
      → count e (x ∷ xs) ≡ 0
      → Holds (record { links = k; tqh_last = t }) (x ∷ xs)
      → Holds (headed (some x)) (e ∷ x ∷ xs)
  headed_more x xs c ((p, q, s), z, d) =
      let ne = other_than x e (x ∷ xs) (count_head x xs) c in
      let others =
        λ (y : ℕ) (h : 1 ≤ count y xs). other_than y e (x ∷ xs) (count_tail x y xs h) c in
      let prev = update k.prev x (some e) in
      (
        (
          refl,
          update_same prev e none,
          (
            update_same k.next e (some x),
            update_other prev e none x ne ∙ update_same k.prev x (some e),
            Segment-kept k (inserted_head e (some x) k) (some x) t xs (Distinct-head x xs d)
                (Distinct-tail x xs d) (λ _. update_other k.next e (some x) x ne)
                (λ y h _. update_other k.next e (some x) y (others y h))
                (λ y h.
                  update_other prev e none y (others y h)
                  ∙ update_other k.prev x (some e) y (other_than y x xs h (Distinct-head x xs d)))
                s,
          ),
        ),
        headed_end x (last_ne k t (x ∷ xs) e (p, q, s) c) (begin_ne k none t x xs tt s) ∙ z,
        cons_Distinct (x ∷ xs) e d c,
      )

pub tailq_insert_head-Holds :
    (q : Tailq) (xs : List ℕ) (e : ℕ)
    → count e xs ≡ 0
    → Holds q xs
    → Holds (tailq_insert_head e q) (e ∷ xs)
unfolding tailq_insert_head list_insert_head
tailq_insert_head-Holds q [] e c (s, z, d) =
    let empty : q.links.first ≡ none = ap (deref q.links) s ∙ z in
    subst (λ f. Holds (headed q.links q.tqh_last e f) (e ∷ [])) (sym empty)
      (headed_one q.links q.tqh_last e empty)
tailq_insert_head-Holds q (x ∷ xs) e c (s, z, d) =
    subst (λ f. Holds (headed q.links q.tqh_last e f) (e ∷ x ∷ xs)) (sym (s.0))
      (headed_more q.links q.tqh_last e x xs c (s, z, d))
