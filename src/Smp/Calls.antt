-- ===== src/Smp/Calls.antt =====
-- kern/smp.c: every step of every CPU keeps the invariant, so that calls are run once and in order.
use os_challenging_mission.Base.{
  ℕ, ◌+◌, ◌≡◌, ◌≢◌, refl, sym, subst, false, not, ◌||◌, arith, ◌==◌, leb, Option, none, some,
  update, if-cases, ℕ_discrete, ◌<◌,
}
use os_challenging_mission.Smp.System.{
  System, call, advance, Step, Steps, calls, later, advances, stay, enters, serve, serves, starts,
  online,
}
use os_challenging_mission.Smp.Delivery.{
  Proper, Invariant, Kept, Kept-Mailbox, aims, move-Kept, Mailbox, serve-Kept, online-Kept,
}
use os_challenging_mission.Smp.{
  nr_cpus, Call, Task, task_step, idle, scan, locking, Stage, at, after, next_cpu, Row, nr_cpus,
  locked,
}
use os_challenging_mission.Smp.Caller.{
  at-advance, step, stepped, own-Mailbox, others-Kept, take-Mailbox,
}

kept-Invariant :
    (s t : System)
    → ((c : ℕ) → Proper (t.task c))
    → ((j : ℕ) → Kept s t j)
    → Invariant s
    → Invariant t
kept-Invariant s t p k i = record {
  proper = p;
  mailbox = λ j l. Kept-Mailbox s t j (k j) i.proper (i.mailbox j l);
}

module _ (s : System) (c : ℕ) (i : Invariant s) where
  Proper-update : (p : Task) → Proper p → (d : ℕ) → Proper (update s.task c p d)
  Proper-update p h d = if-cases Proper (d == c) (λ _. h) (λ _. i.proper d)

  move-Invariant :
      (p : Task)
      → ((j : ℕ) → aims (s.task c) j ≡ false)
      → ((j : ℕ) → aims p j ≡ false)
      → Proper p
      → Invariant (record s { task = update s.task c p })
  move-Invariant p outside stays h =
      kept-Invariant s (record s { task = update s.task c p }) (Proper-update p h)
        (move-Kept s c p outside stays) i

  call-Invariant : (f : Call) → s.task c ≡ idle → Invariant (call c f s)
  call-Invariant f e =
      if-cases (λ (p : Task). Invariant (record s { task = update s.task c p })) (f.fn == 0)
        (λ _. move-Invariant idle (λ j. rw e refl) (λ j. refl) tt)
        (λ n. move-Invariant (scan f 0) (λ j. rw e refl) (λ j. refl) (ground (arith, n)))

  -- The head of the loop.
  next_cpu-Invariant :
      (f : Call) (k : ℕ) (r : Row)
      → s.task c ≡ scan f k
      → Invariant (record s { task = update s.task c (next_cpu c f k r) })
  unfolding next_cpu
  next_cpu-Invariant f k r e =
      if-cases next (leb nr_cpus k) (λ _. go idle (λ j. refl) tt)
        (λ _.
          if-cases next ((k == c) || not r.ipi_ready)
            (λ _. go (scan f (k + 1)) (λ j. refl) fn_proper)
            (λ _. go (locking f k) (λ j. refl) fn_proper))
    where
      next : Task → Type 0
      next p = Invariant (record s { task = update s.task c p })

      fn_proper : f.fn ≢ 0
      fn_proper = subst Proper e (i.proper c)

      go : (p : Task) → ((j : ℕ) → aims p j ≡ false) → Proper p → next p
      go p = move-Invariant p (λ j. rw e refl)

  -- `spin_lock`
  locking-Invariant : (f : Call) (k : ℕ) → s.task c ≡ locking f k → Invariant (advance c s)
  unfolding task_step
  locking-Invariant f k e = rw e (
      if-cases next (s.rows k).ipi_mailbox_lock
        (λ _. move-Invariant (locking f k) (λ j. rw e refl) (λ j. refl) fn_proper)
        (λ n. record {
          proper = Proper-update (at f k locked) fn_proper;
          mailbox = λ j l. take-Mailbox s c k f (λ d. rw e refl) n j i.proper (i.mailbox j l);
        }))
    where
      next : Task × (ℕ → Row) → Type 0
      next r = Invariant (record s { rows = r.1; task = update s.task c r.0 })

      fn_proper : f.fn ≢ 0
      fn_proper = subst Proper e (i.proper c)

  at-Invariant :
      (f : Call) (k : ℕ) (stage : Stage) → s.task c ≡ at f k stage → Invariant (advance c s)
  unfolding after
  at-Invariant f k stage e = subst Invariant (sym (at-advance s c k f stage e)) (record {
    proper =
        Proper-update (after f k (step s c k f stage e).0) (after_proper (step s c k f stage e).0);
    mailbox = λ j l. elim (ℕ_discrete j k) [
      | yes y ↦
          subst (Mailbox (stepped s c k f stage e)) (sym y)
            (own-Mailbox s c k f stage e (i.mailbox k (subst (λ n. n < nr_cpus) y l)))
      | no n ↦
          Kept-Mailbox s (stepped s c k f stage e) j (others-Kept s c k f stage e j n) i.proper
            (i.mailbox j l)
    ];
  })
    where
      fn_proper : f.fn ≢ 0
      fn_proper = subst Proper e (i.proper c)

      after_proper : (o : Option Stage) → Proper (after f k o)
      after_proper none = fn_proper
      after_proper (some x) = fn_proper

  advance-Invariant : (p : Task) → s.task c ≡ p → Invariant (advance c s)
  unfolding task_step
  advance-Invariant idle e = rw e (move-Invariant idle (λ j. rw e refl) (λ j. refl) tt)
  advance-Invariant (scan f k) e = rw e (next_cpu-Invariant f k (s.rows k) e)
  advance-Invariant (locking f k) e = locking-Invariant f k e
  advance-Invariant (at f k stage) e = at-Invariant f k stage e

-- Whatever the CPUs do, in whatever order.
pub Step-Invariant : (s t : System) → Invariant s → Step s t → Invariant t
Step-Invariant s t i (calls c f e h) = call-Invariant s c i f e
Step-Invariant s t i (advances c h) = advance-Invariant s c i (s.task c) refl
Step-Invariant s t i (enters c h p) = kept-Invariant s (serve c s) i.proper (serve-Kept s c) i
Step-Invariant s t i (serves c h) = kept-Invariant s (serve c s) i.proper (serve-Kept s c) i
Step-Invariant s t i (starts c) = kept-Invariant s (online c s) i.proper (online-Kept s c) i

pub Steps-Invariant : (s t : System) → Invariant s → Steps s t → Invariant t
Steps-Invariant s t i stay = i
Steps-Invariant s t i (later {t = u} r x) = Step-Invariant u t (Steps-Invariant s u i r) x
