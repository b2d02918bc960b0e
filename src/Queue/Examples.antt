-- ===== src/Queue/Examples.antt =====
-- A queue of three elements, of which one leaves the middle and one the end.
use os_challenging_mission.Base.{◌≡◌, refl, List, [], ◌∷◌, arith, ◌==◌, if◌then◌else◌, none, some}
use os_challenging_mission.Queue.{
  Links, Tailq, Operation, insert_head, insert_tail, take_out, run, foreach, tailq_init,
}
use os_challenging_mission.Queue.Refine.{Holds}
use os_challenging_mission.Queue.Operations.{tailq_refines}

-- The links before TAILQ_INIT are anything.
abbrev raw : Tailq
raw = record {
  links = record { first = some 9; next = λ _. some 9; prev = λ _. some 9 };
  tqh_last = some 9;
}

abbrev steps : List Operation
steps = insert_tail 1 ∷ insert_tail 2 ∷ insert_head 3 ∷ take_out 1 ∷ take_out 2 ∷ insert_tail 4 ∷ []

tailq_example :
    foreach 2 ((run steps (tailq_init raw)).links.first) (run steps (tailq_init raw)).links
    ≡ 3 ∷ 4 ∷ []
tailq_example =
    tailq_refines steps raw 2 (refl, (refl, (refl, (omega arith, (omega arith, (refl, tt))))))
      (omega arith)

-- The list 5, 6.
abbrev two : Links
two = record {
  first = some 5;
  next = λ e. if e == 5 then some 6 else none;
  prev = λ e. if e == 5 then none else some 5;
}

two_held : Holds (record { links = two; tqh_last = some 6 }) (5 ∷ 6 ∷ [])
two_held = ((refl, refl, (refl, refl, refl)), refl, λ a. ground arith)
