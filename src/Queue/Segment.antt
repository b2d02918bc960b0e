-- ===== src/Queue/Segment.antt =====
-- include/queue.h: the elements that hang on a link.
use os_challenging_mission.Base.{
  ℕ, ◌≤◌, ◌≡◌, ◌⊎◌, inl, inr, refl, sym, ◌∙◌, subst, List, [], ◌∷◌, ◌++◌, arith, none, some, count,
  ◌≢◌, ap,
}
use os_challenging_mission.Queue.{Link, Links, deref}

-- From link `l` the elements `xs` follow, and `t` is the link after the last one.
abbrev pub Segment : Links → Link → List ℕ → Link → Type 0
Segment k l [] t = l ≡ t
Segment k l (x ∷ xs) t = (deref k l ≡ some x) × (k.prev x ≡ l) × Segment k (some x) xs t

-- Link `l` is in none of the elements `xs`.
abbrev pub Apart : Link → List ℕ → Type 0
Apart none xs = Unit {0}
Apart (some e) xs = count e xs ≡ 0

-- A segment after another one.
pub Segment-append :
    (k : Links) (l m t : Link) (xs ys : List ℕ)
    → Segment k l xs m
    → Segment k m ys t
    → Segment k l (xs ++ ys) t
Segment-append k l m t [] ys e s = subst (λ l. Segment k l ys t) (sym e) s
Segment-append k l m t (x ∷ xs) ys (d, e, f) s = (d, e, Segment-append k (some x) m t xs ys f s)

-- A segment is taken apart at any place.
pub Segment-split :
    (k : Links) (l t : Link) (xs ys : List ℕ)
    → Segment k l (xs ++ ys) t
    → (m : Link) × Segment k l xs m × Segment k m ys t
Segment-split k l t [] ys s = (l, refl, s)
Segment-split k l t (x ∷ xs) ys (d, e, f) =
    let (m, p, q) = Segment-split k (some x) t xs ys f in (m, (d, e, p), q)

-- The end of a segment is where it began or in one of its elements.
pub Segment-end :
    (k : Links) (l t : Link) (xs : List ℕ)
    → Segment k l xs t
    → (l ≡ t) ⊎ ((e : ℕ) × (t ≡ some e) × (1 ≤ count e xs))
Segment-end k l t [] e = inl e
Segment-end k l t (x ∷ xs) (d, e, f) = elim (Segment-end k (some x) t xs f) [
  | inl p ↦ inr (x, sym p, ground arith)
  | inr (y, p, q) ↦ inr (y, p, ground (arith, q))
]

abbrev pub Distinct : List ℕ → Type 0
Distinct xs = (a : ℕ) → count a xs ≤ 1

some_ne : (x y : ℕ) → x ≢ y → some x ≢ some y
some_ne x y n e = n (ground (arith, e))

Apart-in : (l : Link) (xs : List ℕ) (y : ℕ) → Apart l xs → 1 ≤ count y xs → l ≢ some y
Apart-in none xs y a h = λ e. absurd (ground (arith, e))
Apart-in (some x) xs y a h = some_ne x y λ e. absurd (omega (arith, h, a, ap (λ z. count z xs) e))

pub Distinct-tail : (x : ℕ) (xs : List ℕ) → Distinct (x ∷ xs) → Distinct xs
Distinct-tail x xs d a = ground (arith, d a)

pub Distinct-head : (x : ℕ) (xs : List ℕ) → Distinct (x ∷ xs) → count x xs ≡ 0
Distinct-head x xs d = ground (arith, d x)

pub count_head : (x : ℕ) (xs : List ℕ) → 1 ≤ count x (x ∷ xs)
count_head x xs = ground arith

pub count_tail : (x y : ℕ) (xs : List ℕ) → 1 ≤ count y xs → 1 ≤ count y (x ∷ xs)
count_tail x y xs h = ground (arith, h)

-- The link where a segment begins is not the one where it ends, if it has an element.
pub begin_ne :
    (k : Links) (l t : Link) (x : ℕ) (xs : List ℕ)
    → Apart l (x ∷ xs)
    → Segment k (some x) xs t
    → l ≢ t
begin_ne k l t x xs a s = elim (Segment-end k (some x) t xs s) [
  | inl e ↦ subst (λ t. l ≢ t) e (Apart-in l (x ∷ xs) x a (count_head x xs))
  | inr (y, e, h) ↦ subst (λ t. l ≢ t) (sym e) (Apart-in l (x ∷ xs) y a (count_tail x y xs h))
]

-- A segment stays if the links before its end and the `prev` of its elements do.
pub Segment-kept :
    (k k' : Links) (l t : Link) (xs : List ℕ)
    → Apart l xs
    → Distinct xs
    → (l ≢ t → deref k' l ≡ deref k l)
    → ((x : ℕ) → 1 ≤ count x xs → some x ≢ t → k'.next x ≡ k.next x)
    → ((x : ℕ) → 1 ≤ count x xs → k'.prev x ≡ k.prev x)
    → Segment k l xs t
    → Segment k' l xs t
Segment-kept k k' l t [] a d f g h s = s
Segment-kept k k' l t (x ∷ xs) a d f g h (p, q, s) = (
  f (begin_ne k l t x xs a s) ∙ p,
  h x (count_head x xs) ∙ q,
  Segment-kept k k' (some x) t xs (Distinct-head x xs d) (Distinct-tail x xs d)
      (g x (count_head x xs)) (λ y c. g y (count_tail x y xs c)) (λ y c. h y (count_tail x y xs c))
      s,
)
