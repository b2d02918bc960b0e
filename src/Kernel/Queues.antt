-- ===== src/Kernel/Queues.antt =====
-- kern/env.c, kern/sched.c, kern/syscall_all.c: `env_sched_list` and `env_free_list` agree with the
-- states of the envs.
use os_challenging_mission.Base.{
  count-append, count-remove, ℕ, ◌+◌, ◌-◌, ◌%◌, ◌^◌, ◌≡◌, inl, inr, refl, Bool, true, false, not,
  ◌||◌, [], ◌∷◌, arith, ◌==◌, if◌then◌else◌, Bool-cases, Option-cases, count, remove, ◌&&◌, some,
  none, Option,
}
use os_challenging_mission.Kernel.Sched.{
  dispatch, env_run, run_with, choose, release, schedule_locked, save_frame, pick, free_and_leave,
  schedule, env_destroy, is_cpu, drop_curenv,
}
use os_challenging_mission.Errors.{ok, and_then_keeps}
use os_challenging_mission.Kernel.State.{
  is_free, is_runnable, Env, Kernel, cpu_curenv, set_env, set_cpu, Leaves,
}
use os_challenging_mission.Kernel.Env.{retire, env_free, give_back, free_space, free_asid}

-- The scheduler's list holds exactly the runnable envs, each once, the free list exactly the free
-- ones, and an env to be killed is not free.
pub record Queues (k : Kernel) : Type 0 where
  pub queued :
      (e : ℕ) → count e k.env_sched_list ≡ (if is_runnable (k.envs e).env_status then 1 else 0)
  pub unused : (e : ℕ) → count e k.env_free_list ≡ (if is_free (k.envs e).env_status then 1 else 0)
  pub doomed : (e : ℕ) → (k.envs e).env_kill_pending ≡ true → is_free (k.envs e).env_status ≡ false

-- A change of an env that keeps its state and does not set the request to kill it.
pub set_env-Queues :
    (e : ℕ) (v : Env) {k : Kernel}
    → v.env_status ≡ (k.envs e).env_status
    → v.env_kill_pending ≡ (k.envs e).env_kill_pending
    → Queues k
    → Queues (set_env e v k)
set_env-Queues e v {k} s p q = record {
  queued = λ i. ground (arith, q.queued i, q.queued e);
  unused = λ i. ground (arith, q.unused i, q.unused e);
  doomed = λ i. ground (arith, q.doomed i, q.doomed e);
}

-- A change of the CPUs, the memory and the identifiers only.
pub same-Queues :
    {k t : Kernel}
    → t.envs ≡ k.envs
    → t.env_sched_list ≡ k.env_sched_list
    → t.env_free_list ≡ k.env_free_list
    → Queues k
    → Queues t
same-Queues {k} {t} e s f q = record {
  queued = λ i. rw (e, s) (q.queued i);
  unused = λ i. rw (e, f) (q.unused i);
  doomed = λ i. rw e (q.doomed i);
}

pub save_frame-Queues : (cpu : ℕ) (k : Kernel) → Queues k → Queues (save_frame cpu k)
save_frame-Queues cpu k q = elim (Option-cases (cpu_curenv cpu k)) [
  | inl e ↦ rw (e, save_frame) q
  | inr (c, e) ↦ rw (e, save_frame) (set_env-Queues c _ refl refl q)
]

pub env_run-Queues : (cpu e : ℕ) (k : Kernel) → Queues k → Queues (env_run cpu e k).1
unfolding env_run
env_run-Queues cpu e k q = elim (Bool-cases (is_runnable (k.envs e).env_status)) [
  | inl y ↦
      let saved = save_frame-Queues cpu k q in
      rw y (same-Queues refl refl refl (set_env-Queues e _ refl refl saved))
  | inr n ↦ rw n q
]

pub run_with-Queues : (cpu count e : ℕ) (k : Kernel) → Queues k → Queues (run_with cpu count e k).1
unfolding run_with
run_with-Queues cpu count e k q =
    env_run-Queues cpu e
      (set_cpu cpu (record (k.cpu_data cpu) { sched_count = (count + 2 ^ 32 - 1) % 2 ^ 32 }) k)
      (same-Queues refl refl refl q)

pub choose-Queues : (cpu : ℕ) (k : Kernel) → Queues k → Queues (choose cpu k).1
unfolding choose dispatch
choose-Queues cpu k q = cases (pick cpu k.envs k.env_sched_list)
  where
    cases : (o : Option ℕ) → Queues (dispatch cpu o k).1
    cases none = q
    cases (some e) =
        run_with-Queues cpu _ e
          (set_env e (record (k.envs e) { env_running = true; env_cpu_id = some cpu }) k)
          (set_env-Queues e _ refl refl q)

pub release-Queues : (e : ℕ) (k : Kernel) → Queues k → Queues (release e k)
unfolding release
release-Queues e k q = record {
  queued = λ i. ground (
    arith,
    q.queued i,
    q.queued e,
    count-append i (remove e k.env_sched_list) (e ∷ []),
    count-remove i e k.env_sched_list,
  );
  unused = λ i. ground (arith, q.unused i);
  doomed = λ i. ground (arith, q.doomed i);
}

pub schedule_locked-Queues :
    (cpu : ℕ) (yields : Bool) (k : Kernel) → Queues k → Queues (schedule_locked cpu yields k).1
unfolding schedule_locked
schedule_locked-Queues cpu yields k q = elim (Option-cases (cpu_curenv cpu k)) [
  | inl e ↦ rw (e, schedule_locked) (choose-Queues cpu k q)
  | inr (e, at_e) ↦
      rw (at_e, schedule_locked)
        (elim (Bool-cases (
          yields || (k.cpu_data cpu).sched_count == 0 || not (is_runnable (k.envs e).env_status))) [
            | inl y ↦ rw y (choose-Queues cpu _ (release-Queues e k q))
            | inr n ↦ rw n (run_with-Queues cpu _ e k q)
          ])
]

-- The last step of `env_free`, for an env that is in use.
pub retire-Queues :
    (e : ℕ) (k : Kernel) → is_free (k.envs e).env_status ≡ false → Queues k → Queues (retire e k)
unfolding retire
retire-Queues e k used q = record {
  queued = λ i. ground (arith, q.queued i, q.queued e, count-remove i e k.env_sched_list);
  unused = λ i. ground (arith, q.unused i, q.unused e);
  doomed = λ i. ground (arith, q.doomed i);
}

give_back-Leaves : (e : ℕ) (k : Kernel) → Leaves k (give_back e k).1
unfolding give_back free_space free_asid
give_back-Leaves e k =
    and_then_keeps (Leaves k) (free_space e k) (λ _. free_asid e) (refl, refl, refl)
      (λ _ _. (refl, refl, refl))

pub env_free-Queues :
    (e : ℕ) (k : Kernel)
    → is_free (k.envs e).env_status ≡ false
    → Queues k
    → Queues (env_free e k).1
unfolding env_free
env_free-Queues e k used q =
    let left = give_back-Leaves e k in
    let kept = same-Queues left.0 left.1 left.2 q in
    and_then_keeps Queues (give_back e k) (λ _ t. (ok tt, retire e t)) kept
      (λ _ _. retire-Queues e (give_back e k).1 (rw left.0 used) kept)

pub free_and_leave-Queues :
    (cpu e : ℕ) (k : Kernel)
    → is_free (k.envs e).env_status ≡ false
    → Queues k
    → Queues (free_and_leave cpu e k).1
unfolding free_and_leave
free_and_leave-Queues cpu e k used q =
    let here = is_cpu (cpu_curenv cpu k) e in
    let after =
      λ (t : Kernel). if here then schedule_locked cpu true (drop_curenv cpu t) else (ok tt, t) in
    let freed = env_free-Queues e k used q in
    and_then_keeps Queues (env_free e k) (λ _. after) freed
      (λ _ _. elim (Bool-cases here) [
        | inl y ↦ rw y (
            schedule_locked-Queues cpu true (drop_curenv cpu (env_free e k).1)
              (same-Queues refl refl refl freed))
        | inr n ↦ rw n freed
      ])

-- `schedule` keeps the queues right, also where it frees the current env on another CPU's request.
pub schedule-Queues :
    (cpu : ℕ) (yields : Bool) (k : Kernel) → Queues k → Queues (schedule cpu yields k).1
unfolding schedule
schedule-Queues cpu yields k q = elim (Option-cases (cpu_curenv cpu k)) [
  | inl e ↦ rw (e, schedule) (schedule_locked-Queues cpu yields k q)
  | inr (e, at_e) ↦
      rw (at_e, schedule)
        (elim (Bool-cases (k.envs e).env_kill_pending) [
          | inl y ↦ rw y (free_and_leave-Queues cpu e k (q.doomed e y) q)
          | inr n ↦ rw n (schedule_locked-Queues cpu yields k q)
        ])
]

-- `env_destroy` frees the env, asks its CPU to, or does nothing to one that is free already: the
-- queues stay right.
pub env_destroy-Queues : (cpu e : ℕ) (k : Kernel) → Queues k → Queues (env_destroy cpu e k).1
unfolding env_destroy
env_destroy-Queues cpu e k q = elim (Bool-cases (is_free (k.envs e).env_status)) [
  | inl y ↦ rw (y, env_destroy) q
  | inr used ↦
      rw (used, env_destroy)
        (elim (Bool-cases ((k.envs e).env_running && not (is_cpu (k.envs e).env_cpu_id cpu))) [
          | inl y ↦ rw y (
              asked (record (k.envs e) { env_kill_pending = true; env_kill_done = false }) refl
                used)
          | inr n ↦ rw n (
              free_and_leave-Queues cpu e _ (ground arith)
                (asked (record (k.envs e) { env_kill_pending = true }) refl used))
        ])
]
  where
    asked :
        (v : Env)
        → v.env_status ≡ (k.envs e).env_status
        → is_free (k.envs e).env_status ≡ false
        → Queues (set_env e v k)
    asked v s used = record {
      queued = λ i. ground (arith, q.queued i, q.queued e);
      unused = λ i. ground (arith, q.unused i, q.unused e);
      doomed = λ i. ground (arith, q.doomed i, used);
    }
