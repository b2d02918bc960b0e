-- ===== src/Queue/Operations.antt =====
-- include/queue.h: sequences of operations on a tail queue and on a list.
use os_challenging_mission.Base.{
  ℕ, zero, suc, ◌≤◌, ◌≡◌, refl, ap, ◌∙◌, List, [], ◌∷◌, ◌++◌, arith, none, some, count, length, ◌<◌,
  remove,
}
use os_challenging_mission.Queue.{
  Links, Link, Tailq, Operation, insert_head, insert_tail, take_out, apply, run, foreach,
  tailq_init, deref, tailq_insert_head, tailq_remove, list_insert_head, list_remove,
}
use os_challenging_mission.Queue.Segment.{Segment}
use os_challenging_mission.Queue.Refine.{Holds, tailq_insert_head-Holds, tailq_insert_tail-Holds}
use os_challenging_mission.Queue.Removal.{tailq_remove-Holds}

-- What an operation is on lists.
abbrev pub on_list : Operation → List ℕ → List ℕ
on_list (insert_head e) xs = e ∷ xs
on_list (insert_tail e) xs = xs ++ e ∷ []
on_list (take_out e) xs = remove e xs

abbrev pub run_list : List Operation → List ℕ → List ℕ
run_list [] xs = xs
run_list (o ∷ os) xs = run_list os (on_list o xs)

-- An element is inserted only if it is not there, and taken out only if it is.
abbrev pub IsAllowed : Operation → List ℕ → Type 0
IsAllowed (insert_head e) xs = count e xs ≡ 0
IsAllowed (insert_tail e) xs = count e xs ≡ 0
IsAllowed (take_out e) xs = 1 ≤ count e xs

abbrev pub AreAllowed : List Operation → List ℕ → Type 0
AreAllowed [] xs = Unit {0}
AreAllowed (o ∷ os) xs = IsAllowed o xs × AreAllowed os (on_list o xs)

apply-Holds :
    (o : Operation) (q : Tailq) (xs : List ℕ)
    → IsAllowed o xs
    → Holds q xs
    → Holds (apply o q) (on_list o xs)
unfolding apply
apply-Holds (insert_head e) q xs a h = tailq_insert_head-Holds q xs e a h
apply-Holds (insert_tail e) q xs a h = tailq_insert_tail-Holds q xs e a h
apply-Holds (take_out e) q xs a h = tailq_remove-Holds q xs e a h

run-Holds :
    (os : List Operation) (q : Tailq) (xs : List ℕ)
    → AreAllowed os xs
    → Holds q xs
    → Holds (run os q) (run_list os xs)
unfolding run
run-Holds [] q xs a h = h
run-Holds (o ∷ os) q xs (a, b) h =
    run-Holds os (apply o q) (on_list o xs) b (apply-Holds o q xs a h)

-- A traversal visits the elements of a segment that nothing follows.
foreach-Segment :
    (n : ℕ) (k : Links) (l t : Link) (xs : List ℕ)
    → length xs ≤ n
    → Segment k l xs t
    → deref k t ≡ none
    → foreach n (deref k l) k ≡ xs
unfolding foreach
foreach-Segment n k l t [] h s z = rw (ap (deref k) s ∙ z) refl
foreach-Segment zero k l t (x ∷ xs) h s z = absurd (omega (arith, h))
foreach-Segment (suc n) k l t (x ∷ xs) h (p, q, s) z =
    rw p (ap (λ l. x ∷ l) (foreach-Segment n k (some x) t xs (omega (arith, h)) s z))

init-Holds : (q : Tailq) → Holds (tailq_init q) []
unfolding tailq_init
init-Holds q = (refl, refl, λ a. omega arith)

-- After TAILQ_INIT and any sequence of insertions at the head and at the tail and of removals, each of
-- an element that is not there or is there, TAILQ_FOREACH visits the elements of the list that the same
-- operations make of the empty list, in its order.
pub tailq_refines :
    (os : List Operation) (q : Tailq) (n : ℕ)
    → AreAllowed os []
    → length (run_list os []) ≤ n
    → foreach n ((run os (tailq_init q)).links.first) (run os (tailq_init q)).links ≡ run_list os []
tailq_refines os q n a h =
    let (s, z, d) = run-Holds os (tailq_init q) [] a (init-Holds q) in
    foreach-Segment n (run os (tailq_init q)).links none (run os (tailq_init q)).tqh_last
      (run_list os []) h s z

length-remove : (e : ℕ) (xs : List ℕ) → length (remove e xs) ≤ length xs
length-remove e [] = omega arith
length-remove e (x ∷ xs) = ground (arith, length-remove e xs)

-- A list that holds `xs`, as the free lists of pages and envs: after LIST_INSERT_HEAD of an element
-- `e` that is not there LIST_FOREACH visits `e` and `xs`, and after LIST_REMOVE of an element `f` of it
-- `xs` without `f`.
pub list_refines :
    (k : Links) (t : Link) (xs : List ℕ) (e f n : ℕ)
    → Holds (record { links = k; tqh_last = t }) xs
    → length xs < n
    → count e xs ≡ 0
    → 1 ≤ count f xs
    → (foreach n ((list_insert_head e k).first) (list_insert_head e k) ≡ e ∷ xs)
      × (foreach n ((list_remove f k).first) (list_remove f k) ≡ remove f xs)
unfolding tailq_insert_head tailq_remove
list_refines k t xs e f n h m c d =
    let q : Tailq = record { links = k; tqh_last = t } in
    (
      visited (tailq_insert_head e q) (e ∷ xs) (omega (arith, m))
          (tailq_insert_head-Holds q xs e c h),
      visited (tailq_remove f q) (remove f xs) (omega (arith, m, length-remove f xs))
          (tailq_remove-Holds q xs f d h),
    )
  where
    visited :
        (q : Tailq) (ys : List ℕ)
        → length ys ≤ n
        → Holds q ys
        → foreach n (q.links.first) q.links ≡ ys
    visited q ys l (s, z, d) = foreach-Segment n q.links none q.tqh_last ys l s z
