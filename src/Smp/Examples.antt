-- ===== src/Smp/Examples.antt =====
-- Tests of the model of kern/smp.c, and its theorems at CPU 0 that calls a function on CPU 1.
use os_challenging_mission.Base.{
  ℕ, zero, suc, ◌≡◌, refl, true, false, [], ◌∷◌, ◌<◌, List, Bool, ◌≢◌, arith, ap,
}
use os_challenging_mission.Smp.{
  smp_init, Call, Smp, smp_boot_wait, next_cpu, task_step, handler_step, idle, resting, Handler,
  seen, ipi_call,
}
use os_challenging_mission.Smp.System.{
  System, call, advance, serve, online, boot, Steps, later, advances, stay, enters, starts, serves,
  calls, Step,
}
use os_challenging_mission.Smp.Answers.{RanOnce}
use os_challenging_mission.Smp.Nested.{
  Nested, alone, Moves, rest, onward, moves, Unstopped, Calm, interrupt, resume, Moves-RanOnce,
  woken-ran,
}
use os_challenging_mission.Smp.Progress.{Answers}

abbrev before : Smp
before = record {
  rows = λ j. record {
    ipi_ready = false;
    ipi_done = false;
    ipi_pending = 0;
    ipi_mailbox = λ i. 0;
    ipi_mailbox_lock = false;
    ran = [];
  };
  smp_boot_ready = smp_boot_wait;
  timer_schedule_ready = false;
}

abbrev f : Call
f = record { fn = 7; arg0 = 3; arg1 = 4 }

-- CPU 1 is online, and CPU 0 calls.
abbrev begun : System
begun = call 0 f (online 1 (boot before))

abbrev times : ℕ → (System → System) → System → System
times zero g s = s
times (suc n) g s = times n g (g s)

abbrev asking : System
asking = times 9 (advance 0) begun

abbrev answered : System
answered = times 9 (serve 1) asking

answered_ran : ((answered.rows 1).ran ≡ f ∷ []) × ((answered.rows 1).ipi_done ≡ true)
unfolding smp_init next_cpu task_step handler_step
answered_ran = (refl, refl)

finished_free :
    ((times 4 (advance 0) answered).task 0 ≡ idle)
    × (((times 4 (advance 0) answered).rows 1).ipi_mailbox_lock ≡ false)
unfolding smp_init next_cpu task_step handler_step
finished_free = (refl, refl)

advances_times :
    (c n : ℕ) (s u : System) → s.handler c ≡ resting → Steps u s → Steps u (times n (advance c) s)
advances_times c zero s u e r = r
advances_times c (suc n) s u e r = advances_times c n (advance c s) u e (later r (advances c e))

to_asking : Steps (boot before) asking
unfolding smp_init
to_asking =
    advances_times 0 9 begun (boot before) refl
      (later (later stay (starts 1)) (calls 0 f refl refl))

-- A handler at work.
abbrev busy : Handler → Bool
busy resting = false
busy _ = true

serves_times :
    (c n : ℕ) (s u : System)
    → ((i : ℕ) → i < n → busy ((times i (serve c) s).handler c) ≡ true)
    → Steps u s
    → Steps u (times n (serve c) s)
serves_times c zero s u e r = r
serves_times c (suc n) s u e r =
    serves_times c n (serve c s) u (λ i l. e (suc i) (omega (arith, l)))
      (later r (serves c (at_work (s.handler c) (e 0 (omega arith)))))
  where
    at_work : (h : Handler) → busy h ≡ true → h ≢ resting
    at_work h y x = absurd (ground (arith, ap busy x, y))

working : (i : ℕ) → i < 8 → busy ((times i (serve 1) (serve 1 asking)).handler 1) ≡ true
unfolding smp_init next_cpu task_step handler_step
working zero l = refl
working (suc zero) l = refl
working (suc (suc zero)) l = refl
working (suc (suc (suc zero))) l = refl
working (suc (suc (suc (suc zero)))) l = refl
working (suc (suc (suc (suc (suc zero))))) l = refl
working (suc (suc (suc (suc (suc (suc zero)))))) l = refl
working (suc (suc (suc (suc (suc (suc (suc zero))))))) l = refl
working (suc (suc (suc (suc (suc (suc (suc (suc i)))))))) l = absurd (omega arith)

to_woken : Steps (boot before) (advance 0 answered)
unfolding smp_init next_cpu task_step handler_step
to_woken =
    later
      (serves_times 1 8 (serve 1 asking) (boot before) working
        (later to_asking (enters 1 refl refl)))
      (advances 0 refl)

-- A run without interrupts in a handler, as one of the larger relation.
nobody : {s t : System} (e : Step s t) → Unstopped (λ c. []) e
nobody (calls c f i h) = refl
nobody (advances c h) = refl
nobody (enters c h p) = refl
nobody (serves c h) = tt
nobody (starts c) = tt

moved : {s t : System} → Steps s t → (r : Moves (alone s) (alone t)) × Calm r
moved stay = (rest, tt)
moved (later r e) = let m = moved r in (onward m.0 (moves e (nobody e)), (m.1, tt))

Moves-RanOnce_example : RanOnce (advance 0 answered) 1
Moves-RanOnce_example =
    Moves-RanOnce before (alone (advance 0 answered)) (moved to_woken).0 (moved to_woken).1 1
      (omega arith)

woken-ran_example : (earlier : List Call) × (((advance 0 answered).rows 1).ran ≡ f ∷ earlier)
unfolding smp_init next_cpu task_step handler_step
woken-ran_example =
    woken-ran before (alone (advance 0 answered)) (moved to_woken).0 (moved to_woken).1 0 1 f
      (omega arith) refl

-- CPU 1 has read the call's signal, and a timer interrupt enters `handle_ipi_irq` again and ends.
abbrev interrupted : Nested
interrupted =
    let s = interrupt 1 (alone (serve 1 asking)) in record s { system = times 8 (serve 1) s.system }

abbrev resumed : Nested
resumed = resume 1 (seen ipi_call) [] interrupted

-- Without the condition on interrupts: the outer handler runs the same call again.
ran_twice :
    (interrupted.outer 1 ≡ seen ipi_call ∷ [])
    × (interrupted.system.handler 1 ≡ resting)
    × (((times 8 (serve 1) resumed.system).rows 1).ran ≡ f ∷ f ∷ [])
unfolding smp_init next_cpu task_step handler_step
ran_twice = (refl, refl, refl)
