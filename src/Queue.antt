-- ===== src/Queue.antt =====
-- include/queue.h: lists and tail queues, linked by pointers inside their elements.
-- An element is the number of its structure, and NULL is `none`. A pointer to a link, as `le_prev`,
-- `tqe_prev` and `tqh_last` are, is `none` for the link in the head and `some e` for the `next` of
-- element `e`.
mod Segment
mod Refine
mod Removal
mod Operations
mod Examples
use os_challenging_mission.Base.{
  ℕ, zero, suc, ◌+◌, ◌-◌, ◌*◌, ◌/◌, ◌%◌, ◌^◌, ◌≤◌, ◌<◌, ◌≡◌, ◌≢◌, ◌⊎◌, ◌↔◌, inl, inr, refl, sym, ap,
  ◌∙◌, subst, Bool, true, false, not, ◌&&◌, ◌||◌, List, [], ◌∷◌, ◌++◌, arith, ◌==◌, ltb, leb,
  if◌then◌else◌, Option, none, some, Bool-cases, Option-cases, List-cases, update, count, length,
}

abbrev pub Link : Type 0
Link = Option ℕ

-- The head and the links of the elements. `first` is `lh_first` or `tqh_first`.
pub record Links : Type 0 where
  pub first : Option ℕ
  pub next : ℕ → Option ℕ
  pub prev : ℕ → Link

-- `*link`
abbrev pub deref : Links → Link → Option ℕ
deref k none = k.first
deref k (some e) = k.next e

-- `*link = v`
abbrev pub assign : Link → Option ℕ → Links → Links
assign none v k = record k { first = v }
assign (some e) v k = record k { next = update k.next e v }

-- `e->prev = link`
abbrev pub set_prev : ℕ → Link → Links → Links
set_prev e l k = record k { prev = update k.prev e l }

-- `if (p != NULL) p->prev = link`
abbrev pub set_prev_if : Option ℕ → Link → Links → Links
set_prev_if none l k = k
set_prev_if (some e) l k = set_prev e l k

unfoldable pub list_insert_head : ℕ → Links → Links
list_insert_head e k =
    set_prev e none
      (assign none (some e) (set_prev_if k.first (some e) (assign (some e) k.first k)))

unfoldable pub list_insert_after : (listelm elm : ℕ) → Links → Links
list_insert_after l e k =
    set_prev e (some l)
      (assign (some l) (some e) (set_prev_if (k.next l) (some e) (assign (some e) (k.next l) k)))

unfoldable pub list_remove : ℕ → Links → Links
list_remove e k = assign (k.prev e) (k.next e) (set_prev_if (k.next e) (k.prev e) k)

pub record Tailq : Type 0 where
  pub links : Links
  pub tqh_last : Link

-- `else head->tqh_last = link`
abbrev pub last_if : Option ℕ → Link → Link → Link
last_if none l t = l
last_if (some _) l t = t

unfoldable pub tailq_init : Tailq → Tailq
tailq_init q = record { links = assign none none (q.links); tqh_last = none }

-- The links change as in LIST_INSERT_HEAD; an empty queue also gets a new end.
unfoldable pub tailq_insert_head : ℕ → Tailq → Tailq
unfolding list_insert_head
tailq_insert_head e q = record {
  links = list_insert_head e q.links;
  tqh_last = last_if q.links.first (some e) q.tqh_last;
}

unfoldable pub tailq_insert_tail : ℕ → Tailq → Tailq
tailq_insert_tail e q = record {
  links = assign q.tqh_last (some e) (set_prev e q.tqh_last (assign (some e) none (q.links)));
  tqh_last = some e;
}

-- The links change as in LIST_REMOVE; the last element leaves its place as the end.
unfoldable pub tailq_remove : ℕ → Tailq → Tailq
unfolding list_remove
tailq_remove e q = record {
  links = list_remove e q.links;
  tqh_last = last_if (q.links.next e) (q.links.prev e) q.tqh_last;
}

-- TAILQ_FOREACH and LIST_FOREACH: the elements that are visited from `var` on, at most `n`.
unfoldable pub foreach : (n : ℕ) → Option ℕ → Links → List ℕ
foreach n none k = []
foreach zero (some var) k = []
foreach (suc n) (some var) k = var ∷ foreach n (k.next var) k

-- The calls that sched.c and env.c make on `env_sched_list`.
pub data Operation : Type 0 where
  insert_head insert_tail take_out : ℕ → Operation

unfoldable pub apply : Operation → Tailq → Tailq
unfolding tailq_insert_head tailq_insert_tail tailq_remove
apply (insert_head e) q = tailq_insert_head e q
apply (insert_tail e) q = tailq_insert_tail e q
apply (take_out e) q = tailq_remove e q

unfoldable pub run : List Operation → Tailq → Tailq
unfolding apply
run [] q = q
run (o ∷ os) q = run os (apply o q)
