-- ===== src/Smp/Answers.antt =====
-- kern/smp.c: what `smp_group_function_call` promises, for every order of the CPUs' accesses
-- in which `handle_ipi_irq` is not entered again while it is at work on the same CPU.
use os_challenging_mission.Smp.{
  resting, seen, clearing, cleared, called, got_fn, got_arg0, got_args, finished, Handler, Smp,
  Call, at, Row, Stage, polling, nr_cpus, sending, woken, locked, undone, put_fn, put_arg0,
  put_arg1, reset,
}
use os_challenging_mission.Base.{ℕ, ◌<◌, ◌≡◌, ◌⊎◌, inl, inr, sym, ◌∙◌, true, List, ◌∷◌, arith}
use os_challenging_mission.Smp.System.{System, Steps, boot}
use os_challenging_mission.Smp.Handshake.{Phase, Awaits}
use os_challenging_mission.Smp.Delivery.{Invariant, aims, Boot-Invariant, boot-Boot, Mailbox-Holds}
use os_challenging_mission.Smp.Calls.{Steps-Invariant}

-- The calls that `j` has run are those that its callers have seen done, but for one that a caller
-- still waits for.
abbrev pub RanOnce : System → ℕ → Type 0
RanOnce s j =
    ((s.rows j).ran ≡ s.asked j)
    ⊎ ((c : ℕ) × (f : Call) × (s.task c ≡ at f j polling) × ((s.rows j).ran ≡ f ∷ s.asked j))

Awaits-RanOnce :
    (h : Handler) (f : Call) (r : Row) (l : List Call)
    → Awaits h f r l
    → (r.ran ≡ l) ⊎ (r.ran ≡ f ∷ l)
Awaits-RanOnce resting f r l (inl o) = inl o.2
Awaits-RanOnce resting f r l (inr o) = inr o.2
Awaits-RanOnce (seen status) f r l (s, o) = inl o.2
Awaits-RanOnce (clearing status value) f r l (s, v, o) = inl o.2
Awaits-RanOnce (cleared status) f r l (s, o) = inl o.2
Awaits-RanOnce called f r l o = inl o.2
Awaits-RanOnce (got_fn fn) f r l (a, o) = inl o.2
Awaits-RanOnce (got_arg0 fn arg0) f r l (a, b, o) = inl o.2
Awaits-RanOnce (got_args fn arg0 arg1) f r l (a, b, d, o) = inl o.2
Awaits-RanOnce finished f r l o = inr o.2

Holds-RanOnce :
    (s : System) (j c : ℕ) (f : Call) (stage : Stage)
    → s.task c ≡ at f j stage
    → Phase stage f (s.rows j) (s.handler j) (s.asked j)
    → RanOnce s j
Holds-RanOnce s j c f locked e p = inl p.all_ran
Holds-RanOnce s j c f undone e p = inl p.all_ran
Holds-RanOnce s j c f put_fn e p = inl p.0.all_ran
Holds-RanOnce s j c f put_arg0 e p = inl p.0.all_ran
Holds-RanOnce s j c f put_arg1 e p = inl p.0.all_ran
Holds-RanOnce s j c f (sending value) e p = inl p.0.all_ran
Holds-RanOnce s j c f polling e (w, a) =
    elim (Awaits-RanOnce (s.handler j) f (s.rows j) (s.asked j) a) [
      | inl y ↦ inl y
      | inr y ↦ inr (c, f, e, y)
    ]
Holds-RanOnce s j c f woken e p = inl p.0.all_ran
Holds-RanOnce s j c f reset e p = inl p.0.all_ran

module _ (m : Smp) (s : System) (r : Steps (boot m) s) where
  pub reached : Invariant s
  reached = Steps-Invariant (boot m) s (Boot-Invariant (boot m) (boot-Boot m)) r

  -- A CPU has run exactly the calls that its callers have seen done, once each and in their order,
  -- but for at most one more: a call whose caller still waits for it.
  pub Steps-RanOnce : (j : ℕ) → j < nr_cpus → RanOnce s j
  Steps-RanOnce j l = elim (reached.mailbox j l) [
    | inl f ↦ inl f.quiet.all_ran
    | inr (c, f, stage, h) ↦ Holds-RanOnce s j c f stage h.here h.phase
  ]

  -- No two CPUs are at a call on the same CPU, past its lock.
  pub one_caller :
      (c d j : ℕ) → j < nr_cpus → aims (s.task c) j ≡ true → aims (s.task d) j ≡ true → c ≡ d
  one_caller c d j l x y = elim (reached.mailbox j l) [
    | inl f ↦ absurd (ground (arith, f.nobody c, x))
    | inr (e, f, stage, h) ↦ h.alone c x ∙ sym (h.alone d y)
  ]

  -- A caller comes out of `ipi_wait_done` only when the target has run its function, with its
  -- arguments, as the last of all calls.
  pub Steps-woken :
      (c j : ℕ) (f : Call)
      → j < nr_cpus
      → s.task c ≡ at f j woken
      → (earlier : List Call) × ((s.rows j).ran ≡ f ∷ earlier)
  Steps-woken c j f l e =
      let p = (Mailbox-Holds s j c f woken e (reached.mailbox j l)).phase in
      (p.1.0, p.0.all_ran ∙ p.1.1)
