-- ===== src/Smp/System.antt =====
-- kern/smp.c: the CPUs interleaved, one access of shared memory at a time.
use os_challenging_mission.Base.{
  ℕ, ◌≡◌, ◌≢◌, Bool, true, false, List, ◌∷◌, if◌then◌else◌, update, ◌<◌,
}
use os_challenging_mission.Smp.{
  set_ready, idle, handler_step, task_step, Call, Row, Task, Handler, at, smp_group_function_call,
  resting, Stage, polling, Smp, nr_cpus, smp_init,
}

-- `handler c` and `task c` are where the CPU `c` stands; `asked j` are the calls that other CPUs have
-- seen done by `j`, the latest first, which no code reads.
pub record System : Type 0 where
  pub rows : ℕ → Row
  pub task : ℕ → Task
  pub handler : ℕ → Handler
  pub asked : ℕ → List Call

-- The wait of `ipi_wait_done` ends: the call is done.
abbrev pub heard : Stage → Call → Row → List Call → List Call
heard polling call r asked = if r.ipi_done then call ∷ asked else asked
heard _ call r asked = asked

abbrev pub note_asked : Task → (ℕ → Row) → (ℕ → List Call) → ℕ → List Call
note_asked (at call cpu stage) rows asked =
    update asked cpu (heard stage call (rows cpu) (asked cpu))
note_asked _ rows asked = asked

-- `c` goes on in `smp_group_function_call`.
abbrev pub advance : ℕ → System → System
advance c s =
    let r = task_step c (s.task c) s.rows in
    record s {
      rows = r.1;
      task = update s.task c r.0;
      asked = note_asked (s.task c) s.rows s.asked;
    }

-- `c` goes on in `handle_ipi_irq`.
abbrev pub serve : ℕ → System → System
serve c s =
    let r = handler_step (s.handler c) (s.rows c) in
    record s { handler = update s.handler c r.0; rows = update s.rows c r.1 }

abbrev pub call : ℕ → Call → System → System
call c f s = record s { task = update s.task c (smp_group_function_call f) }

abbrev pub online : ℕ → System → System
online c s = record s { rows = update s.rows c (set_ready (s.rows c)) }

-- `handle_ipi_irq` is entered from an interrupt, and from `ipi_wait_done`. Here it is not entered
-- while it is at work on the same CPU; Smp/Nested adds the interrupts that do.
abbrev pub polls : Task → Bool
polls idle = true
polls (at call cpu Stage.polling) = true
polls _ = false

pub data Step (s : System) : System → Type 0 where
  calls : (c : ℕ) (f : Call) → s.task c ≡ idle → s.handler c ≡ resting → Step s (call c f s)
  advances : (c : ℕ) → s.handler c ≡ resting → Step s (advance c s)
  enters : (c : ℕ) → s.handler c ≡ resting → polls (s.task c) ≡ true → Step s (serve c s)
  serves : (c : ℕ) → s.handler c ≢ resting → Step s (serve c s)
  starts : (c : ℕ) → Step s (online c s)

pub data Steps (s : System) : System → Type 0 where
  stay : Steps s s
  later : {t u : System} → Steps s t → Step t u → Steps s u

-- What `smp_init` leaves of the CPUs that there are: nothing is asked of them, all have run all.
pub record Boot (s : System) : Type 0 where
  pub free : (j : ℕ) → j < nr_cpus → (s.rows j).ipi_mailbox_lock ≡ false
  pub done_ : (j : ℕ) → j < nr_cpus → (s.rows j).ipi_done ≡ true
  pub no_signal : (j : ℕ) → j < nr_cpus → (s.rows j).ipi_pending ≡ 0
  pub all_ran : (j : ℕ) → j < nr_cpus → (s.rows j).ran ≡ s.asked j
  pub outside : (j : ℕ) → (s.task j ≡ idle) × (s.handler j ≡ resting)

-- The start of the system: CPU 0 has come back from `smp_init`.
abbrev pub boot : Smp → System
boot m = record {
  rows = (smp_init m).rows;
  task = λ c. idle;
  handler = λ c. resting;
  asked = λ j. (m.rows j).ran;
}
