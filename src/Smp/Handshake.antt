-- ===== src/Smp/Handshake.antt =====
-- kern/smp.c: how caller and target of a call on another CPU stand to one another.
use os_challenging_mission.Base.{
  ◌==◌, ==_ne, refl, ℕ, ◌≡◌, ◌⊎◌, Bool, true, false, List, ◌∷◌, if◌then◌else◌, Option, none, some,
  if-cases, ◌≢◌, inl, inr, arith, subst, sym, ap,
}
use os_challenging_mission.Smp.{
  Handler, Call, Stage, Row, resting, ipi_mbox_fn, ipi_call, polling, ipi_mbox_arg0, seen,
  ipi_mbox_arg1, clearing, sending, cleared, locked, got_fn, undone, got_arg0, put_fn, got_args,
  put_arg0, put_arg1, called, finished, woken, reset, handler_step, stage_step, set_pending, bit_or,
  bit_and, ipi_start, set_ready,
}
use os_challenging_mission.Smp.System.{heard}

-- The row of a CPU of which no call is open.
pub record Quiet (r : Row) (h : Handler) (asked : List Call) : Type 0 where
  pub done_ : r.ipi_done ≡ true
  pub no_signal : r.ipi_pending ≡ 0
  pub at_rest : h ≡ resting
  pub all_ran : r.ran ≡ asked

-- A call is being written; the target does not know of it yet.
pub record Filling (r : Row) (h : Handler) (asked : List Call) : Type 0 where
  pub undone_ : r.ipi_done ≡ false
  pub no_signal : r.ipi_pending ≡ 0
  pub at_rest : h ≡ resting
  pub all_ran : r.ran ≡ asked

pub record Written (call : Call) (r : Row) : Type 0 where
  pub fn_is : r.ipi_mailbox ipi_mbox_fn ≡ call.fn
  pub arg0_is : r.ipi_mailbox ipi_mbox_arg0 ≡ call.arg0
  pub arg1_is : r.ipi_mailbox ipi_mbox_arg1 ≡ call.arg1

-- The call is neither begun nor lost.
abbrev pub Open : ℕ → Row → List Call → Type 0
Open pending r asked = (r.ipi_done ≡ false) × (r.ipi_pending ≡ pending) × (r.ran ≡ asked)

-- The target has run the call.
abbrev pub Ran : Bool → Call → Row → List Call → Type 0
Ran b call r asked = (r.ipi_done ≡ b) × (r.ipi_pending ≡ 0) × (r.ran ≡ call ∷ asked)

-- What the handler of the target knows while the caller waits.
abbrev pub Awaits : Handler → Call → Row → List Call → Type 0
Awaits resting call r asked = Open ipi_call r asked ⊎ Ran true call r asked
Awaits (seen status) call r asked = (status ≡ ipi_call) × Open ipi_call r asked
Awaits (clearing status value) call r asked =
    (status ≡ ipi_call) × (value ≡ ipi_call) × Open ipi_call r asked
Awaits (cleared status) call r asked = (status ≡ ipi_call) × Open 0 r asked
Awaits called call r asked = Open 0 r asked
Awaits (got_fn fn) call r asked = (fn ≡ call.fn) × Open 0 r asked
Awaits (got_arg0 fn arg0) call r asked = (fn ≡ call.fn) × (arg0 ≡ call.arg0) × Open 0 r asked
Awaits (got_args fn arg0 arg1) call r asked =
    (fn ≡ call.fn) × (arg0 ≡ call.arg0) × (arg1 ≡ call.arg1) × Open 0 r asked
Awaits finished call r asked = Ran false call r asked

-- What holds of the target's row at each stage of the caller.
abbrev pub Phase : Stage → Call → Row → Handler → List Call → Type 0
Phase locked call r h asked = Quiet r h asked
Phase undone call r h asked = Filling r h asked
Phase put_fn call r h asked = Filling r h asked × (r.ipi_mailbox ipi_mbox_fn ≡ call.fn)
Phase put_arg0 call r h asked =
    Filling r h asked
    × (r.ipi_mailbox ipi_mbox_fn ≡ call.fn)
    × (r.ipi_mailbox ipi_mbox_arg0 ≡ call.arg0)
Phase put_arg1 call r h asked = Filling r h asked × Written call r
Phase (sending value) call r h asked = Filling r h asked × Written call r × (value ≡ 0)
Phase polling call r h asked = Written call r × Awaits h call r asked
Phase woken call r h asked = Quiet r h asked × ((earlier : List Call) × (asked ≡ call ∷ earlier))
Phase reset call r h asked = Quiet r h asked × ((earlier : List Call) × (asked ≡ call ∷ earlier))

abbrev pub Next : Option Stage → Call → Row → Handler → List Call → Type 0
Next none call r h asked = (r.ipi_mailbox_lock ≡ false) × Quiet r h asked
Next (some stage) call r h asked = (r.ipi_mailbox_lock ≡ true) × Phase stage call r h asked

-- Without a signal a handler at rest does nothing.
pub unsignalled :
    (h : Handler) (r : Row) → h ≡ resting → r.ipi_pending ≡ 0 → handler_step h r ≡ (resting, r)
unfolding handler_step
unsignalled h r e p = rw (e, p) refl

module _ (call : Call) (r : Row) (asked : List Call) (held : r.ipi_mailbox_lock ≡ true) where
  -- If the wait ends the target has run the call.
  quiet : (h : Handler) → Awaits h call r asked → r.ipi_done ≡ true → Quiet r h (call ∷ asked)
  quiet resting (inl o) y = absurd (ground (arith, o.0, y))
  quiet resting (inr o) y = record { done_ = y; no_signal = o.1; at_rest = refl; all_ran = o.2 }
  quiet (seen status) (s, o) y = absurd (ground (arith, o.0, y))
  quiet (clearing status value) (s, v, o) y = absurd (ground (arith, o.0, y))
  quiet (cleared status) (s, o) y = absurd (ground (arith, o.0, y))
  quiet called o y = absurd (ground (arith, o.0, y))
  quiet (got_fn fn) (f, o) y = absurd (ground (arith, o.0, y))
  quiet (got_arg0 fn arg0) (f, a, o) y = absurd (ground (arith, o.0, y))
  quiet (got_args fn arg0 arg1) (f, a, b, o) y = absurd (ground (arith, o.0, y))
  quiet finished o y = absurd (ground (arith, o.0, y))

  filling :
      {h : Handler} {b : ℕ → ℕ} → Filling r h asked → Filling (record r { ipi_mailbox = b }) h asked
  filling p = record {
    undone_ = p.undone_;
    no_signal = p.no_signal;
    at_rest = p.at_rest;
    all_ran = p.all_ran;
  }

  emptied :
      {h : Handler} {b : ℕ → ℕ} {l : Bool}
      → Quiet r h asked
      → Quiet (record r { ipi_mailbox = b; ipi_mailbox_lock = l }) h asked
  emptied p = record {
    done_ = p.done_;
    no_signal = p.no_signal;
    at_rest = p.at_rest;
    all_ran = p.all_ran;
  }

  signalled :
      {h : Handler} {value : ℕ}
      → value ≡ 0
      → Filling r h asked
      → Awaits h call (set_pending (bit_or value ipi_call) r) asked
  signalled {h} {value} v p =
      subst (λ x. Awaits x call (set_pending (bit_or value ipi_call) r) asked) (sym p.at_rest)
        (inl (p.undone_, rw v refl, p.all_ran))

  polling-Next :
      (h : Handler) (b : Bool)
      → r.ipi_done ≡ b
      → Written call r
      → Awaits h call r asked
      → Next (some (if b then woken else polling)) call r h (if b then call ∷ asked else asked)
  polling-Next h true e w a = (held, (quiet h a e, (asked, refl)))
  polling-Next h false e w a = (held, (w, a))

  -- The caller's next access keeps the two in step.
  pub stage_step-Next :
      (st : Stage) (h : Handler)
      → Phase st call r h asked
      → Next (stage_step st call r).0 call (stage_step st call r).1 h (heard st call r asked)
  unfolding stage_step
  stage_step-Next locked h p = (
    held,
    record { undone_ = refl; no_signal = p.no_signal; at_rest = p.at_rest; all_ran = p.all_ran },
  )
  stage_step-Next undone h p = (held, (filling p, refl))
  stage_step-Next put_fn h (p, f) = (held, (filling p, f, refl))
  stage_step-Next put_arg0 h (p, f, a) =
      (held, (filling p, record { fn_is = f; arg0_is = a; arg1_is = refl }))
  stage_step-Next put_arg1 h (p, w) = (held, (p, w, p.no_signal))
  stage_step-Next (sending value) h (p, w, v) =
      (held, (record { fn_is = w.fn_is; arg0_is = w.arg0_is; arg1_is = w.arg1_is }, signalled v p))
  stage_step-Next polling h (w, a) = polling-Next h r.ipi_done refl w a
  stage_step-Next woken h (p, l) = (held, (emptied p, l))
  stage_step-Next reset h (p, l) = (refl, emptied p)

module _ (call : Call) (asked : List Call) (proper : call.fn ≢ 0) where
  -- So does the target's.
  pub handler_step-Awaits :
      (h : Handler) (r : Row)
      → Written call r
      → Awaits h call r asked
      → Awaits (handler_step h r).0 call (handler_step h r).1 asked
  unfolding handler_step
  handler_step-Awaits resting r w (inl o) =
      subst (λ n. Awaits (if n == 0 then resting else seen n) call r asked) (sym o.1) (refl, o)
  handler_step-Awaits resting r w (inr o) =
      subst (λ n. Awaits (if n == 0 then resting else seen n) call r asked) (sym o.1) (inr o)
  handler_step-Awaits (seen status) r w (s, o) = (s, o.1, o)
  handler_step-Awaits (clearing status value) r w (s, v, o) = (s, (o.0, rw (s, v) refl, o.2))
  handler_step-Awaits (cleared status) r w (s, o) =
      subst
        (λ n.
          Awaits (if bit_and n ipi_call == 0 then resting else called) call
            (if bit_and n ipi_start == 0 then r else set_ready r) asked)
        (sym s) o
  handler_step-Awaits called r w o = (w.fn_is, o)
  handler_step-Awaits (got_fn fn) r w (f, o) = (f, w.arg0_is, o)
  handler_step-Awaits (got_arg0 fn arg0) r w (f, a, o) = (f, a, w.arg1_is, o)
  handler_step-Awaits (got_args fn arg0 arg1) r w (f, a, b, o) =
      rw (f, a, b, ==_ne call.fn 0 proper) (o.0, o.1, ap (λ l. call ∷ l) o.2)
  handler_step-Awaits finished r w o = inr (refl, o.1, o.2)

  same : {r u : Row} → Written call r → u.ipi_mailbox ≡ r.ipi_mailbox → Written call u
  same w e = record { fn_is = rw e w.fn_is; arg0_is = rw e w.arg0_is; arg1_is = rw e w.arg1_is }

  pub handler_step-Written :
      (h : Handler) (r : Row) → Written call r → Written call (handler_step h r).1
  unfolding handler_step
  handler_step-Written resting r w = w
  handler_step-Written (seen status) r w = w
  handler_step-Written (clearing status value) r w = same w refl
  handler_step-Written (cleared status) r w =
      if-cases (Written call) (bit_and status ipi_start == 0) (λ _. w) (λ _. same w refl)
  handler_step-Written called r w = w
  handler_step-Written (got_fn fn) r w = w
  handler_step-Written (got_arg0 fn arg0) r w = w
  handler_step-Written (got_args fn arg0 arg1) r w =
      if-cases (Written call) (fn == 0) (λ _. w) (λ _. same w refl)
  handler_step-Written finished r w = same w refl

pub handler_step-lock :
    (h : Handler) (r : Row) → (handler_step h r).1.ipi_mailbox_lock ≡ r.ipi_mailbox_lock
unfolding handler_step
handler_step-lock resting r = refl
handler_step-lock (seen status) r = refl
handler_step-lock (clearing status value) r = refl
handler_step-lock (cleared status) r =
    if-cases (λ (u : Row). u.ipi_mailbox_lock ≡ r.ipi_mailbox_lock) (bit_and status ipi_start == 0)
      (λ _. refl) (λ _. refl)
handler_step-lock called r = refl
handler_step-lock (got_fn fn) r = refl
handler_step-lock (got_arg0 fn arg0) r = refl
handler_step-lock (got_args fn arg0 arg1) r =
    if-cases (λ (u : Row). u.ipi_mailbox_lock ≡ r.ipi_mailbox_lock) (fn == 0) (λ _. refl)
      (λ _. refl)
handler_step-lock finished r = refl

module _ (h : Handler) (r : Row) (asked : List Call) where
  -- What holds of a handler at rest without a signal still holds after its step.
  still :
      (P : Handler → Row → Type 0)
      → h ≡ resting
      → r.ipi_pending ≡ 0
      → P h r
      → P (handler_step h r).0 (handler_step h r).1
  still P e none_ p = rw (unsignalled h r e none_) (subst (λ x. P x r) e p)

  pub handler_step-Quiet : Quiet r h asked → Quiet (handler_step h r).1 (handler_step h r).0 asked
  handler_step-Quiet q = still (λ g u. Quiet u g asked) q.at_rest q.no_signal q

  pub handler_step-Phase :
      (call : Call) (stage : Stage)
      → call.fn ≢ 0
      → Phase stage call r h asked
      → Phase stage call (handler_step h r).1 (handler_step h r).0 asked
  handler_step-Phase call locked n q = handler_step-Quiet q
  handler_step-Phase call undone n q =
      still (λ g u. Phase undone call u g asked) q.at_rest q.no_signal q
  handler_step-Phase call put_fn n q =
      still (λ g u. Phase put_fn call u g asked) q.0.at_rest q.0.no_signal q
  handler_step-Phase call put_arg0 n q =
      still (λ g u. Phase put_arg0 call u g asked) q.0.at_rest q.0.no_signal q
  handler_step-Phase call put_arg1 n q =
      still (λ g u. Phase put_arg1 call u g asked) q.0.at_rest q.0.no_signal q
  handler_step-Phase call (sending value) n q =
      still (λ g u. Phase (sending value) call u g asked) q.0.at_rest q.0.no_signal q
  handler_step-Phase call polling n (w, a) =
      (handler_step-Written call asked n h r w, handler_step-Awaits call asked n h r w a)
  handler_step-Phase call woken n (q, l) = (handler_step-Quiet q, l)
  handler_step-Phase call reset n (q, l) = (handler_step-Quiet q, l)

-- That a CPU comes online changes nothing of it.
module _ (r : Row) (asked : List Call) where
  pub set_ready-Quiet : {h : Handler} → Quiet r h asked → Quiet (set_ready r) h asked
  set_ready-Quiet q = record {
    done_ = q.done_;
    no_signal = q.no_signal;
    at_rest = q.at_rest;
    all_ran = q.all_ran;
  }

  set_ready-Filling : {h : Handler} → Filling r h asked → Filling (set_ready r) h asked
  set_ready-Filling q = record {
    undone_ = q.undone_;
    no_signal = q.no_signal;
    at_rest = q.at_rest;
    all_ran = q.all_ran;
  }

  set_ready-Written : {call : Call} → Written call r → Written call (set_ready r)
  set_ready-Written w = record { fn_is = w.fn_is; arg0_is = w.arg0_is; arg1_is = w.arg1_is }

  set_ready-Awaits :
      (h : Handler) (call : Call) → Awaits h call r asked → Awaits h call (set_ready r) asked
  set_ready-Awaits resting call a = a
  set_ready-Awaits (seen status) call a = a
  set_ready-Awaits (clearing status value) call a = a
  set_ready-Awaits (cleared status) call a = a
  set_ready-Awaits called call a = a
  set_ready-Awaits (got_fn fn) call a = a
  set_ready-Awaits (got_arg0 fn arg0) call a = a
  set_ready-Awaits (got_args fn arg0 arg1) call a = a
  set_ready-Awaits finished call a = a

  pub set_ready-Phase :
      (stage : Stage) (h : Handler) (call : Call)
      → Phase stage call r h asked
      → Phase stage call (set_ready r) h asked
  set_ready-Phase locked h call q = set_ready-Quiet q
  set_ready-Phase undone h call q = set_ready-Filling q
  set_ready-Phase put_fn h call q = (set_ready-Filling q.0, q.1)
  set_ready-Phase put_arg0 h call q = (set_ready-Filling q.0, q.1, q.2)
  set_ready-Phase put_arg1 h call q = (set_ready-Filling q.0, set_ready-Written q.1)
  set_ready-Phase (sending value) h call q = (set_ready-Filling q.0, set_ready-Written q.1, q.2)
  set_ready-Phase polling h call q = (set_ready-Written q.0, set_ready-Awaits h call q.1)
  set_ready-Phase woken h call q = (set_ready-Quiet q.0, q.1)
  set_ready-Phase reset h call q = (set_ready-Quiet q.0, q.1)
