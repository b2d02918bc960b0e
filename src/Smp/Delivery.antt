-- ===== src/Smp/Delivery.antt =====
-- kern/smp.c: the invariant of the mailboxes, kept by every step of every CPU.
use os_challenging_mission.Base.{
  ℕ, ◌≡◌, ◌≢◌, ◌⊎◌, inl, inr, refl, sym, ap, ◌∙◌, subst, Bool, true, false, List, arith, ◌==◌,
  Bool-cases, update, ℕ_discrete, update_other, ==_refl, ==_ne, ◌<◌, suc, zero,
}
use os_challenging_mission.Smp.{
  Task, at, scan, Call, Row, locking, Stage, Handler, idle, smp_init, nr_cpus, Smp,
}
use os_challenging_mission.Smp.System.{System, Boot, serve, online, boot}
use os_challenging_mission.Smp.Handshake.{
  Quiet, Phase, handler_step-lock, handler_step-Quiet, handler_step-Phase, set_ready-Quiet,
  set_ready-Phase,
}

-- Whether a CPU holds the mailbox of `j`.
abbrev pub aims : Task → ℕ → Bool
aims (at call cpu stage) j = cpu == j
aims _ j = false

-- No CPU calls NULL.
abbrev pub Proper : Task → Type 0
Proper idle = Unit {0}
Proper (scan call cpu) = call.fn ≢ 0
Proper (locking call cpu) = call.fn ≢ 0
Proper (at call cpu stage) = call.fn ≢ 0

-- `c` is at `stage` of a call on `j`, and no other CPU is in one.
pub record Holds (s : System) (j c : ℕ) (call : Call) (stage : Stage) : Type 0 where
  pub here : s.task c ≡ at call j stage
  pub alone : (d : ℕ) → aims (s.task d) j ≡ true → d ≡ c
  pub taken : (s.rows j).ipi_mailbox_lock ≡ true
  pub phase : Phase stage call (s.rows j) (s.handler j) (s.asked j)

pub record Free (s : System) (j : ℕ) : Type 0 where
  pub nobody : (d : ℕ) → aims (s.task d) j ≡ false
  pub untaken : (s.rows j).ipi_mailbox_lock ≡ false
  pub quiet : Quiet (s.rows j) (s.handler j) (s.asked j)

abbrev pub Mailbox : System → ℕ → Type 0
Mailbox s j = Free s j ⊎ ((c : ℕ) × (call : Call) × (stage : Stage) × Holds s j c call stage)

pub record Invariant (s : System) : Type 0 where
  pub proper : (c : ℕ) → Proper (s.task c)
  pub mailbox : (j : ℕ) → j < nr_cpus → Mailbox s j

pub Boot-Invariant : (s : System) → Boot s → Invariant s
Boot-Invariant s b = record {
  proper = λ c. rw ((b.outside c).0) tt;
  mailbox = λ j l. inl (record {
    nobody = λ d. rw ((b.outside d).0) refl;
    untaken = b.free j l;
    quiet = record {
      done_ = b.done_ j l;
      no_signal = b.no_signal j l;
      at_rest = (b.outside j).1;
      all_ran = b.all_ran j l;
    };
  });
}

-- A CPU past the lock holds the mailbox.
pub Mailbox-Holds :
    (s : System) (j c : ℕ) (call : Call) (stage : Stage)
    → s.task c ≡ at call j stage
    → Mailbox s j
    → Holds s j c call stage
Mailbox-Holds s j c call stage e (inl f) =
    let aimed : aims (s.task c) j ≡ true = rw e (==_refl j) in
    absurd (ground (arith, f.nobody c, aimed))
Mailbox-Holds s j c call stage e (inr (d, f, st, h)) =
    let aimed : aims (s.task c) j ≡ true = rw e (==_refl j) in
    let same : at call j stage ≡ at f j st = sym e ∙ ap s.task (h.alone c aimed) ∙ h.here in
    let calls_eq : call ≡ f = cc in
    let stages_eq : stage ≡ st = cc in
    record {
      here = e;
      alone = λ d' y. h.alone d' y ∙ sym (h.alone c aimed);
      taken = h.taken;
      phase = rw (calls_eq, stages_eq) h.phase;
    }

boot-ran : (m : Smp) (j : ℕ) → j < nr_cpus → ((smp_init m).rows j).ran ≡ (m.rows j).ran
unfolding smp_init
boot-ran m zero l = refl
boot-ran m (suc zero) l = refl
boot-ran m (suc (suc j)) l = absurd (omega arith)

-- What `smp_init` leaves is such a state.
pub boot-Boot : (m : Smp) → Boot (boot m)
unfolding smp_init
boot-Boot m = record {
  free = λ j l. ground (arith, l);
  done_ = λ j l. ground (arith, l);
  no_signal = λ j l. ground (arith, l);
  all_ran = λ j l. boot-ran m j l;
  outside = λ j. (refl, refl);
}

-- A step keeps the invariant of a mailbox if its users stay, and what holds of its row.
module _ (s t : System) (j : ℕ) where
  pub record Kept : Type 0 where
    pub adds : (d : ℕ) → aims (t.task d) j ≡ true → aims (s.task d) j ≡ true
    pub keeps : (d : ℕ) → aims (s.task d) j ≡ true → t.task d ≡ s.task d
    pub lock : (t.rows j).ipi_mailbox_lock ≡ (s.rows j).ipi_mailbox_lock
    pub quiet :
        Quiet (s.rows j) (s.handler j) (s.asked j) → Quiet (t.rows j) (t.handler j) (t.asked j)
    pub phase :
        (call : Call) (stage : Stage)
        → call.fn ≢ 0
        → Phase stage call (s.rows j) (s.handler j) (s.asked j)
        → Phase stage call (t.rows j) (t.handler j) (t.asked j)

  pub Kept-Mailbox : Kept → ((d : ℕ) → Proper (s.task d)) → Mailbox s j → Mailbox t j
  Kept-Mailbox k p (inl f) = inl (record {
    nobody = λ d. unaimed d (Bool-cases (aims (t.task d) j));
    untaken = k.lock ∙ f.untaken;
    quiet = k.quiet f.quiet;
  })
    where
      unaimed :
          (d : ℕ)
          → (aims (t.task d) j ≡ true) ⊎ (aims (t.task d) j ≡ false)
          → aims (t.task d) j ≡ false
      unaimed d (inl y) = absurd (ground (arith, k.adds d y, f.nobody d))
      unaimed d (inr n) = n
  Kept-Mailbox k p (inr (c, call, stage, h)) = inr (
    c,
    call,
    stage,
    record {
      here = k.keeps c aimed ∙ h.here;
      alone = λ d x. h.alone d (k.adds d x);
      taken = k.lock ∙ h.taken;
      phase = k.phase call stage (subst Proper h.here (p c)) h.phase;
    },
  )
    where
      aimed : aims (s.task c) j ≡ true
      aimed = rw h.here (==_refl j)

-- Another mailbox than the one that the step is about.
module _ (s : System) (j c : ℕ) (p : Task) (outside : aims (s.task c) j ≡ false)
    (stays : aims p j ≡ false) where
  pub update-Kept :
      (rows : ℕ → Row) (handler : ℕ → Handler) (asked : ℕ → List Call)
      → rows j ≡ s.rows j
      → handler j ≡ s.handler j
      → asked j ≡ s.asked j
      → Kept s
          (record { rows = rows; task = update s.task c p; handler = handler; asked = asked })
          j
  update-Kept rows handler asked er eh ea = record {
    adds = λ d h. elim (ℕ_discrete d c) [
      | yes e ↦ absurd (ground (arith, e, stays, h))
      | no n ↦ subst (λ x. aims x j ≡ true) (update_other s.task c p d n) h
    ];
    keeps = λ d h. elim (ℕ_discrete d c) [
      | yes e ↦ absurd (ground (arith, e, outside, h))
      | no n ↦ update_other s.task c p d n
    ];
    lock = ap (λ (r : Row). r.ipi_mailbox_lock) er;
    quiet = λ q. rw (er, eh, ea) q;
    phase = λ call stage n q. rw (er, eh, ea) q;
  }

-- The handler of `c` moves on.
module _ (s : System) (c : ℕ) where
  serve-own : Kept s (serve c s) c
  serve-own = record {
    adds = λ d h. h;
    keeps = λ d h. refl;
    lock = rw (==_refl c) (handler_step-lock (s.handler c) (s.rows c));
    quiet = λ q. rw (==_refl c) (handler_step-Quiet (s.handler c) (s.rows c) (s.asked c) q);
    phase = λ call stage n q.
        rw (==_refl c) (handler_step-Phase (s.handler c) (s.rows c) (s.asked c) call stage n q);
  }

  pub serve-Kept : (j : ℕ) → Kept s (serve c s) j
  serve-Kept j = elim (ℕ_discrete j c) [
    | yes e ↦ subst (Kept s (serve c s)) (sym e) serve-own
    | no n ↦ record {
      adds = λ d h. h;
      keeps = λ d h. refl;
      lock = rw (==_ne j c n) refl;
      quiet = λ q. rw (==_ne j c n) q;
      phase = λ call stage m q. rw (==_ne j c n) q;
    }
  ]

  pub online-Kept : (j : ℕ) → Kept s (online c s) j
  online-Kept j = elim (ℕ_discrete j c) [
    | yes e ↦ subst (Kept s (online c s)) (sym e) (record {
      adds = λ d h. h;
      keeps = λ d h. refl;
      lock = rw (==_refl c) refl;
      quiet = λ q. rw (==_refl c) (set_ready-Quiet (s.rows c) (s.asked c) q);
      phase = λ call stage n q.
          rw (==_refl c) (set_ready-Phase (s.rows c) (s.asked c) stage (s.handler c) call q);
    })
    | no n ↦ record {
      adds = λ d h. h;
      keeps = λ d h. refl;
      lock = rw (==_ne j c n) refl;
      quiet = λ q. rw (==_ne j c n) q;
      phase = λ call stage m q. rw (==_ne j c n) q;
    }
  ]

  -- `c` begins a call, looks for a CPU, or waits for a mailbox.
  pub move-Kept :
      (p : Task)
      → ((j : ℕ) → aims (s.task c) j ≡ false)
      → ((j : ℕ) → aims p j ≡ false)
      → (j : ℕ) → Kept s (record s { task = update s.task c p }) j
  move-Kept p outside stays j =
      update-Kept s j c p (outside j) (stays j) s.rows s.handler s.asked refl refl refl
