-- ===== src/Kernel/History.antt =====
-- kern/syscall_all.c: `sys_env_destroy`, `sys_set_env_status` and `sys_ipc_recv`, and the lists of envs.
use os_challenging_mission.Base.{
  ℕ, ◌≡◌, inl, inr, refl, Bool, true, false, not, ◌&&◌, arith, ◌==◌, some, Option-cases, if-cases,
}
use os_challenging_mission.Kernel.State.{Kernel, cpu_curenv, current, is_runnable, is_free}
use os_challenging_mission.Kernel.Ipc.{block, receive, set_v0, is_illegal_va, sys_ipc_recv}
use os_challenging_mission.Kernel.Queues.{env_destroy-Queues, schedule-Queues, same-Queues, Queues}
use os_challenging_mission.Kernel.CallQueues.{
  block-Queues, envid2env_used, envid2env-pure, change_status-Queues,
}
use os_challenging_mission.Kernel.Sched.{env_destroy, is_cpu}
use os_challenging_mission.Kernel.Syscall.{
  destroy_named, sys_env_destroy, change_status, sys_set_env_status, set_status,
}
use os_challenging_mission.Errors.{Outcome, ok, and_then_keeps}
use os_challenging_mission.Kernel.Env.{envid2env}

abbrev pub Keeps : {A : Type 0} → Outcome A × Kernel → Type 0
Keeps r = Queues r.1

-- The env of the CPU, if there is one, is in use.
abbrev pub Alive : ℕ → Kernel → Type 0
Alive cpu k = (c : ℕ) → cpu_curenv cpu k ≡ some c → is_free (k.envs c).env_status ≡ false

pub current-pure : (cpu : ℕ) (k : Kernel) → (current cpu k).1 ≡ k
current-pure cpu k = elim (Option-cases (cpu_curenv cpu k)) [
  | inl h ↦ rw h refl
  | inr (c, h) ↦ rw h refl
]

pub current_is :
    (cpu : ℕ) {c : ℕ} (k : Kernel) → (current cpu k).0 ≡ ok c → cpu_curenv cpu k ≡ some c
current_is cpu k got = elim (Option-cases (cpu_curenv cpu k)) [
  | inl h ↦ ground (arith, h)
  | inr (d, h) ↦ ground (arith, h)
]

-- After `envid2env`, in the state it leaves.
module _ (cpu envid : ℕ) (checks : Bool) (k : Kernel) where
  abbrev looked_up : Outcome ℕ × Kernel
  looked_up = envid2env cpu envid checks k

  looked_up-Queues : Queues k → Queues looked_up.1
  looked_up-Queues q = rw (envid2env-pure cpu envid checks k) q

pub sys_env_destroy-Queues :
    (cpu envid : ℕ) (k : Kernel) → Queues k → Queues (sys_env_destroy cpu envid k).1
unfolding sys_env_destroy destroy_named
sys_env_destroy-Queues cpu envid k q =
    let t = (envid2env cpu envid true k).1 in
    let t_q = looked_up-Queues cpu envid true k q in
    let u_q : Queues (current cpu t).1 = rw (current-pure cpu t) t_q in
    and_then_keeps Queues (envid2env cpu envid true k) (destroy_named cpu) t_q (λ e _.
      and_then_keeps Queues (current cpu t) (λ _. env_destroy cpu e) u_q
        (λ _ _. env_destroy-Queues cpu e (current cpu t).1 u_q))

pub sys_set_env_status-Queues :
    (cpu envid status : ℕ) (k : Kernel)
    → Alive cpu k
    → Queues k
    → Queues (sys_set_env_status cpu envid status k).1
unfolding sys_set_env_status
sys_set_env_status-Queues cpu envid status k alive q =
    if-cases Keeps (not (status == 1) && not (status == 2)) (λ _. q)
      (λ _.
        and_then_keeps Queues (envid2env cpu envid true k) (set_status cpu status) (rw pure q)
          (λ e found.
            if-cases Keeps (is_cpu (cpu_curenv cpu (changed e)) e)
              (λ _. schedule-Queues cpu true (changed e) (changed-Queues e found))
              (λ _. changed-Queues e found)))
  where
    t : Kernel
    t = (envid2env cpu envid true k).1

    pure : t ≡ k
    pure = envid2env-pure cpu envid true k

    changed : ℕ → Kernel
    changed e = change_status e (status == 1) t

    changed-Queues : (e : ℕ) → (envid2env cpu envid true k).0 ≡ ok e → Queues (changed e)
    changed-Queues e found =
        change_status-Queues e (status == 1) t
          (rw pure (envid2env_used cpu envid true k e alive found)) (rw pure q)

pub sys_ipc_recv-Queues :
    (cpu dstva : ℕ) (k : Kernel)
    → ((c : ℕ) → cpu_curenv cpu k ≡ some c → is_runnable (k.envs c).env_status ≡ true)
    → Queues k
    → Queues (sys_ipc_recv cpu dstva k).1
unfolding sys_ipc_recv receive
sys_ipc_recv-Queues cpu dstva k running q =
    let t = (current cpu k).1 in
    let t_q : Queues t = rw (current-pure cpu k) q in
    if-cases Keeps (not (dstva == 0) && is_illegal_va dstva) (λ _. q)
      (λ _. and_then_keeps Queues (current cpu k) (receive cpu dstva) t_q (λ e got.
        schedule-Queues cpu true (set_v0 cpu 0 (block dstva e t)) (
          same-Queues refl refl refl (
            block-Queues dstva e t (rw (current-pure cpu k) (running e (current_is cpu k got)))
              t_q))))
