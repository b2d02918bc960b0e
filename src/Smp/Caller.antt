-- ===== src/Smp/Caller.antt =====
-- kern/smp.c: the caller's accesses keep the invariant of the mailboxes.
use os_challenging_mission.Base.{
  ℕ, ◌+◌, ◌≡◌, ◌≢◌, ◌⊎◌, inl, inr, refl, sym, ap, ◌∙◌, subst, true, false, List, arith, Option,
  none, some, Bool-cases, update, ==_ne, ==_refl, update_other, ℕ_discrete, update_same,
}
use os_challenging_mission.Smp.System.{System, heard, advance}
use os_challenging_mission.Smp.{
  Call, Stage, at, Row, after, task_step, stage_step, scan, set_lock, locked,
}
use os_challenging_mission.Smp.Delivery.{
  Kept, aims, Mailbox, update-Kept, Proper, Kept-Mailbox, Mailbox-Holds,
}
use os_challenging_mission.Smp.Handshake.{Next, stage_step-Next}

-- The caller `c` goes on with its call on `k`.
module _ (s : System) (c k : ℕ) (call : Call) (stage : Stage) (e : s.task c ≡ at call k stage) where
  abbrev pub step : Option Stage × Row
  step = stage_step stage call (s.rows k)

  abbrev pub stepped : System
  stepped = record s {
    rows = update s.rows k step.1;
    task = update s.task c (after call k step.0);
    asked = update s.asked k (heard stage call (s.rows k) (s.asked k));
  }

  pub at-advance : advance c s ≡ stepped
  unfolding task_step
  at-advance = rw e refl

  aims-after : (o : Option Stage) (j : ℕ) → j ≢ k → aims (after call k o) j ≡ false
  unfolding after
  aims-after none j n = refl
  aims-after (some x) j n = ==_ne k j (λ h. n (sym h))

  pub others-Kept : (j : ℕ) → j ≢ k → Kept s stepped j
  others-Kept j n =
      update-Kept s j c (after call k step.0) (rw e (==_ne k j (λ h. n (sym h))))
        (aims-after step.0 j n) (update s.rows k step.1) s.handler
        (update s.asked k (heard stage call (s.rows k) (s.asked k)))
        (update_other s.rows k step.1 j n) refl
        (update_other s.asked k (heard stage call (s.rows k) (s.asked k)) j n)

  -- Its mailbox is held as before, or free after the last access.
  Next-Mailbox :
      (o : Option Stage) (r : Row) (l : List Call)
      → ((d : ℕ) → aims (s.task d) k ≡ true → d ≡ c)
      → Next o call r (s.handler k) l
      → Mailbox
          (record s {
            rows = update s.rows k r;
            task = update s.task c (after call k o);
            asked = update s.asked k l;
          })
          k
  unfolding after
  Next-Mailbox none r l alone (un, q) = inl (record {
    nobody = λ d. elim (ℕ_discrete d c) [
      | yes y ↦
          subst (λ z. aims z k ≡ false)
            (sym (
              ap (update s.task c (scan call (k + 1))) y
              ∙ update_same s.task c (scan call (k + 1))))
            refl
      | no n ↦
          subst (λ z. aims z k ≡ false) (sym (update_other s.task c (scan call (k + 1)) d n))
            (unaimed d n (Bool-cases (aims (s.task d) k)))
    ];
    untaken = rw (==_refl k) un;
    quiet = rw (==_refl k) q;
  })
    where
      unaimed :
          (d : ℕ)
          → d ≢ c
          → (aims (s.task d) k ≡ true) ⊎ (aims (s.task d) k ≡ false)
          → aims (s.task d) k ≡ false
      unaimed d n (inl y) = absurd (n (alone d y))
      unaimed d n (inr y) = y
  Next-Mailbox (some x) r l alone (held, p) = inr (
    c,
    call,
    x,
    record {
      here = update_same s.task c (at call k x);
      alone = λ d h. elim (ℕ_discrete d c) [
        | yes y ↦ y
        | no n ↦ alone d (subst (λ z. aims z k ≡ true) (update_other s.task c (at call k x) d n) h)
      ];
      taken = rw (==_refl k) held;
      phase = rw (==_refl k) p;
    },
  )

  pub own-Mailbox : Mailbox s k → Mailbox stepped k
  own-Mailbox m =
      let h = Mailbox-Holds s k c call stage e m in
      Next-Mailbox step.0 step.1 (heard stage call (s.rows k) (s.asked k)) h.alone
        (stage_step-Next call (s.rows k) (s.asked k) h.taken stage (s.handler k) h.phase)

-- `c` takes the lock of `k`, which is free.
module _ (s : System) (c k : ℕ) (call : Call) (outside : (d : ℕ) → aims (s.task c) d ≡ false)
    (n : (s.rows k).ipi_mailbox_lock ≡ false) where
  abbrev pub taking : System
  taking = record s {
    rows = update s.rows k (set_lock true (s.rows k));
    task = update s.task c (at call k locked);
  }

  take-own : Mailbox s k → Mailbox taking k
  take-own (inl f) = inr (
    c,
    call,
    locked,
    record {
      here = update_same s.task c (at call k locked);
      alone = λ d h. elim (ℕ_discrete d c) [
        | yes y ↦ y
        | no m ↦
            let at_d =
              subst (λ z. aims z k ≡ true) (update_other s.task c (at call k locked) d m) h in
            absurd (ground (arith, f.nobody d, at_d))
      ];
      taken = rw (==_refl k) refl;
      phase = rw (==_refl k) (record {
        done_ = f.quiet.done_;
        no_signal = f.quiet.no_signal;
        at_rest = f.quiet.at_rest;
        all_ran = f.quiet.all_ran;
      });
    },
  )
  take-own (inr (d, f, st, h)) = absurd (ground (arith, h.taken, n))

  pub take-Mailbox : (j : ℕ) → ((d : ℕ) → Proper (s.task d)) → Mailbox s j → Mailbox taking j
  take-Mailbox j p m = elim (ℕ_discrete j k) [
    | yes y ↦ subst (Mailbox taking) (sym y) (take-own (subst (Mailbox s) y m))
    | no x ↦
        Kept-Mailbox s taking j
          (update-Kept s j c (at call k locked) (outside j) (==_ne k j (λ h. x (sym h))) taking.rows
            s.handler s.asked (update_other s.rows k (set_lock true (s.rows k)) j x) refl refl)
          p m
  ]
