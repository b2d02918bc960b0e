-- ===== src/Smp/Nested.antt =====
-- kern/smp.c, `handle_timer_irq` and `smp_secondary_start`: a timer interrupt enters
-- `handle_ipi_irq` again while it is at work on the same CPU, where interrupts are enabled.
use os_challenging_mission.Base.{ℕ, ◌<◌, ◌≡◌, ◌≢◌, refl, List, [], ◌∷◌, update, arith}
use os_challenging_mission.Smp.{Smp, Call, Handler, resting, at, woken, nr_cpus}
use os_challenging_mission.Smp.System.{
  System, serve, Step, calls, advances, enters, serves, starts, boot,
}
use os_challenging_mission.Smp.System
use os_challenging_mission.Smp.Answers.{RanOnce, Steps-RanOnce, Steps-woken}

-- `handler c` of `system` is the innermost `handle_ipi_irq` of the CPU `c`; `outer c` are those that
-- an interrupt stopped, the latest first.
pub record Nested : Type 0 where
  pub system : System
  pub outer : ℕ → List Handler

abbrev pub alone : System → Nested
alone s = record { system = s; outer = λ c. [] }

abbrev pub put_handler : ℕ → Handler → System → System
put_handler c h s = record s { handler = update s.handler c h }

-- The interrupt, and the first access of the handler that it enters.
abbrev pub interrupt : ℕ → Nested → Nested
interrupt c s = record {
  system = serve c (put_handler c resting s.system);
  outer = update s.outer c (s.system.handler c ∷ s.outer c);
}

-- The way back to the handler `h`.
abbrev pub resume : ℕ → Handler → List Handler → Nested → Nested
resume c h l s = record { system = put_handler c h s.system; outer = update s.outer c l }

-- What is not the handler's own work waits until no handler is stopped on the CPU.
abbrev pub Unstopped : (outer : ℕ → List Handler) {s t : System} → Step s t → Type 0
Unstopped outer (calls c f e h) = outer c ≡ []
Unstopped outer (advances c h) = outer c ≡ []
Unstopped outer (enters c h p) = outer c ≡ []
Unstopped outer (serves c h) = Unit {0}
Unstopped outer (starts c) = Unit {0}

-- After the inner handler the outer goes on, or `handle_timer_irq` goes to `schedule`, from which it
-- does not come back.
pub data Move (s : Nested) : Nested → Type 0 where
  moves :
      {t : System} → (e : Step s.system t) → Unstopped s.outer e → Move s (record s { system = t })
  interrupts : (c : ℕ) → s.system.handler c ≢ resting → Move s (interrupt c s)
  returns :
      (c : ℕ) (h : Handler) (l : List Handler)
      → s.outer c ≡ h ∷ l
      → s.system.handler c ≡ resting
      → Move s (resume c h l s)
  leaves :
      (c : ℕ) (h : Handler) (l : List Handler)
      → s.outer c ≡ h ∷ l
      → s.system.handler c ≡ resting
      → Move s (record s { outer = update s.outer c [] })

pub data Moves (s : Nested) : Nested → Type 0 where
  rest : Moves s s
  onward : {t u : Nested} → Moves s t → Move t u → Moves s u

abbrev pub IsPlain : {s t : Nested} → Move s t → Type 0
IsPlain (moves e free) = Unit {0}
IsPlain (interrupts c busy) = ⊥
IsPlain (returns c h l e r) = Unit {0}
IsPlain (leaves c h l e r) = Unit {0}

-- No interrupt comes while its CPU is in `handle_ipi_irq`.
abbrev pub Calm : {s t : Nested} → Moves s t → Type 0
Calm rest = Unit {0}
Calm (onward r e) = Calm r × IsPlain e

-- Such a run is one of the system without interrupts.
Calm-Steps :
    (s : System) {t : Nested} (r : Moves (alone s) t)
    → Calm r
    → ((c : ℕ) → t.outer c ≡ []) × System.Steps s t.system
Calm-Steps s rest calm = (λ c. refl, System.stay)
Calm-Steps s (onward r (moves e free)) calm =
    let earlier = Calm-Steps s r calm.0 in (earlier.0, System.later earlier.1 e)
Calm-Steps s (onward r (interrupts c busy)) calm = absurd calm.1
Calm-Steps s (onward r (returns c h l e i)) calm =
    let earlier = Calm-Steps s r calm.0 in absurd (ground (arith, earlier.0 c, e))
Calm-Steps s (onward r (leaves c h l e i)) calm =
    let earlier = Calm-Steps s r calm.0 in absurd (ground (arith, earlier.0 c, e))

module _ (m : Smp) (s : Nested) (r : Moves (alone (boot m)) s) (calm : Calm r) where
  -- After smp_init, in every order of the accesses of the CPUs in which no interrupt enters
  -- handle_ipi_irq while it is at work on the same CPU, a CPU has run exactly the calls that its
  -- callers have seen done, once each and in their order, but for at most one more: a call whose
  -- caller still waits for it.
  pub Moves-RanOnce : (j : ℕ) → j < nr_cpus → RanOnce s.system j
  Moves-RanOnce j l = Steps-RanOnce m s.system (Calm-Steps (boot m) r calm).1 j l

  -- After smp_init, if no interrupt enters handle_ipi_irq while it is at work on the same CPU, a
  -- caller comes out of ipi_wait_done only when the target has run its function, with its
  -- arguments, as the last of all calls.
  pub woken-ran :
      (c j : ℕ) (f : Call)
      → j < nr_cpus
      → s.system.task c ≡ at f j woken
      → (earlier : List Call) × ((s.system.rows j).ran ≡ f ∷ earlier)
  woken-ran c j f l e = Steps-woken m s.system (Calm-Steps (boot m) r calm).1 c j f l e
