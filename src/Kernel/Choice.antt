-- ===== src/Kernel/Choice.antt =====
-- kern/sched.c: which env `schedule` chooses, and how the CPU goes over to it.
use os_challenging_mission.Base.{
  ℕ, ◌<◌, ◌≡◌, ◌≢◌, inl, inr, refl, sym, ap, ◌∙◌, true, false, List, [], ◌∷◌, ◌++◌, arith, Option,
  none, some, Bool-cases, count, ◌+◌, ◌^◌, ◌-◌, ◌%◌, if-cases, ℕ_discrete,
}
use os_challenging_mission.Kernel.Sched.{
  save_for, enter, env_run, dispatch, run_with, eligible, pick,
}
use os_challenging_mission.Errors.{Outcome, switched}
use os_challenging_mission.Kernel.State.{is_runnable, Env, Kernel, cpu_curenv, set_cpu, set_env}

-- What the walk along a list gives.
abbrev pub Walked : ℕ → (ℕ → Env) → List ℕ → Option ℕ → Type 0
Walked cpu envs l none = (j : ℕ) → 0 < count j l → eligible cpu (envs j) ≡ false
Walked cpu envs l (some e) =
    (0 < count e l)
    × (eligible cpu (envs e) ≡ true)
    × (before : List ℕ) × (after : List ℕ) × (l ≡ before ++ e ∷ after)
    × ((j : ℕ) → 0 < count j before → eligible cpu (envs j) ≡ false)

pub pick-Walked : (cpu : ℕ) (envs : ℕ → Env) (l : List ℕ) → Walked cpu envs l (pick cpu envs l)
unfolding pick
pick-Walked cpu envs [] = λ j h. absurd (omega arith)
pick-Walked cpu envs (e ∷ rest) = elim (Bool-cases (eligible cpu (envs e))) [
  | inl y ↦ rw y (ground arith, y, [], rest, refl, λ j h. absurd (omega arith))
  | inr n ↦ rw n (skip n (pick cpu envs rest) (pick-Walked cpu envs rest))
]
  where
    passed :
        (l : List ℕ)
        → eligible cpu (envs e) ≡ false
        → ((j : ℕ) → 0 < count j l → eligible cpu (envs j) ≡ false)
        → (j : ℕ) → 0 < count j (e ∷ l)
        → eligible cpu (envs j) ≡ false
    passed l n h j in_ = elim (ℕ_discrete j e) [
      | yes y ↦ rw y n
      | no ne ↦ h j (ground (arith, in_, ne))
    ]

    skip :
        eligible cpu (envs e) ≡ false
        → (o : Option ℕ) → Walked cpu envs rest o
        → Walked cpu envs (e ∷ rest) o
    skip n none w = passed rest n w
    skip n (some i) (in_, fits, before, after, split, none_before) = (
      ground (arith, in_),
      fits,
      e ∷ before,
      after,
      ap (λ l. e ∷ l) split,
      passed before n none_before,
    )

-- How a CPU that has run `was` comes to run `e`.
pub record Switched (cpu e : ℕ) (k t : Kernel) : Type 0 where
  pub current : cpu_curenv cpu t ≡ some e
  pub others : (d : ℕ) → d ≢ cpu → t.cpu_data d ≡ k.cpu_data d
  pub directory : (t.cpu_data cpu).cur_pgdir ≡ (k.envs e).env_pgdir
  pub resumed : cpu_curenv cpu k ≢ some e → (t.cpu_data cpu).trapframe ≡ (k.envs e).env_tf
  pub saved : (c : ℕ) → cpu_curenv cpu k ≡ some c → (t.envs c).env_tf ≡ (k.cpu_data cpu).trapframe
  pub kept : (j : ℕ) → j ≢ e → cpu_curenv cpu k ≢ some j → t.envs j ≡ k.envs j

enter-Switched :
    (cpu e : ℕ) (k : Kernel) (o : Option ℕ)
    → cpu_curenv cpu k ≡ o
    → Switched cpu e k (enter cpu e (save_for cpu o k))
enter-Switched cpu e k none h = record {
  current = ground arith;
  others = λ d n. ground arith;
  directory = ground arith;
  resumed = λ n. ground arith;
  saved = λ c i. ground (arith, h, i);
  kept = λ j n m. ground arith;
}
enter-Switched cpu e k (some c) h = record {
  current = ground arith;
  others = λ d n. ground arith;
  directory = ground arith;
  resumed = λ n. let apart : e ≢ c = λ y. n (h ∙ ap some (sym y)) in ground (arith, apart);
  saved = λ d i. ground (arith, h, i);
  kept = λ j n m. let apart : j ≢ c = λ y. m (h ∙ ap some (sym y)) in ground (arith, apart);
}

env_run-Switched :
    (cpu e : ℕ) (k : Kernel)
    → is_runnable (k.envs e).env_status ≡ true
    → ((env_run cpu e k).0 ≡ switched) × Switched cpu e k (env_run cpu e k).1
unfolding env_run
env_run-Switched cpu e k r =
    if-cases (λ (o : Outcome (Unit {0}) × Kernel). (o.0 ≡ switched) × Switched cpu e k o.1)
      (is_runnable (k.envs e).env_status)
      (λ _. (refl, enter-Switched cpu e k (cpu_curenv cpu k) refl))
      (λ no. absurd (ground (arith, no, r)))

-- A switch changes neither which envs are running nor where.
enter_running :
    (cpu e j : ℕ) (k : Kernel) (o : Option ℕ)
    → (((enter cpu e (save_for cpu o k)).envs j).env_running ≡ (k.envs j).env_running)
      × (((enter cpu e (save_for cpu o k)).envs j).env_cpu_id ≡ (k.envs j).env_cpu_id)
enter_running cpu e j k none = (ground arith, ground arith)
enter_running cpu e j k (some c) = (ground arith, ground arith)

pub env_run_running :
    (cpu e j : ℕ) (k : Kernel)
    → (((env_run cpu e k).1.envs j).env_running ≡ (k.envs j).env_running)
      × (((env_run cpu e k).1.envs j).env_cpu_id ≡ (k.envs j).env_cpu_id)
unfolding env_run
env_run_running cpu e j k =
    if-cases
      (λ (o : Outcome (Unit {0}) × Kernel).
        ((o.1.envs j).env_running ≡ (k.envs j).env_running)
        × ((o.1.envs j).env_cpu_id ≡ (k.envs j).env_cpu_id))
      (is_runnable (k.envs e).env_status) (λ _. enter_running cpu e j k (cpu_curenv cpu k))
      (λ _. (refl, refl))

-- The CPU has gone over to `e`, which is now running on it.
abbrev pub Chosen : ℕ → ℕ → Kernel → Outcome (Unit {0}) × Kernel → Type 0
Chosen cpu e k r =
    (r.0 ≡ switched)
    × Switched cpu e k r.1
    × ((r.1.envs e).env_running ≡ true)
    × ((r.1.envs e).env_cpu_id ≡ some cpu)

pub dispatch-Chosen :
    (cpu e : ℕ) (k : Kernel)
    → is_runnable (k.envs e).env_status ≡ true
    → Chosen cpu e k (dispatch cpu (some e) k)
unfolding dispatch run_with
dispatch-Chosen cpu e k r =
    let v = record (k.envs e) { env_running = true; env_cpu_id = some cpu } in
    let u =
      set_cpu cpu (record (k.cpu_data cpu) { sched_count = (v.env_pri + 2 ^ 32 - 1) % 2 ^ 32 })
        (set_env e v k) in
    let (ends, s) = env_run-Switched cpu e u (ground arith) in
    let here : cpu_curenv cpu u ≡ cpu_curenv cpu k = ground arith in
    (
      ends,
      record {
        current = s.current;
        others = λ d n. s.others d n ∙ ground arith;
        directory = s.directory ∙ ground arith;
        resumed = λ n. s.resumed (rw here n) ∙ ground arith;
        saved = λ c i. s.saved c (here ∙ i) ∙ ground arith;
        kept = λ j n m. s.kept j n (rw here m) ∙ ground arith;
      },
      (env_run_running cpu e e u).0 ∙ ground arith,
      (env_run_running cpu e e u).1 ∙ ground arith,
    )

enter-env_sched_list :
    (cpu e : ℕ) (k : Kernel) (o : Option ℕ)
    → (enter cpu e (save_for cpu o k)).env_sched_list ≡ k.env_sched_list
enter-env_sched_list cpu e k none = refl
enter-env_sched_list cpu e k (some c) = refl

env_run-env_sched_list :
    (cpu e : ℕ) (k : Kernel) → (env_run cpu e k).1.env_sched_list ≡ k.env_sched_list
unfolding env_run
env_run-env_sched_list cpu e k =
    if-cases (λ (o : Outcome (Unit {0}) × Kernel). o.1.env_sched_list ≡ k.env_sched_list)
      (is_runnable (k.envs e).env_status) (λ _. enter-env_sched_list cpu e k (cpu_curenv cpu k))
      (λ _. refl)

-- The env that is chosen is the only one that starts to run, and the list stays.
pub dispatch_other :
    (cpu e j : ℕ) (k : Kernel)
    → j ≢ e
    → (((dispatch cpu (some e) k).1.envs j).env_running ≡ (k.envs j).env_running)
      × ((dispatch cpu (some e) k).1.env_sched_list ≡ k.env_sched_list)
unfolding dispatch run_with
dispatch_other cpu e j k n =
    let v = record (k.envs e) { env_running = true; env_cpu_id = some cpu } in
    let u =
      set_cpu cpu (record (k.cpu_data cpu) { sched_count = (v.env_pri + 2 ^ 32 - 1) % 2 ^ 32 })
        (set_env e v k) in
    ((env_run_running cpu e j u).0 ∙ ground arith, env_run-env_sched_list cpu e u)
