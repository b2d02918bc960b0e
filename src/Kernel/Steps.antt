-- ===== src/Kernel/Steps.antt =====
-- kern/syscall_all.c, kern/sched.c: the kernel as a step relation. A step is a call on one CPU, or
-- the part of a `sys_ipc_try_send` from one section under `env_sched_lock` to the next.
use os_challenging_mission.Base.{
  ℕ, ◌≡◌, refl, true, false, not, ◌&&◌, ◌==◌, if◌then◌else◌, some, update, if-cases,
}
use Prim.Native.Nat.{bit_or}
use os_challenging_mission.Errors.{
  ok, err, panicked, switched, waiting, Outcome, and_then_keeps, ◌>>=◌,
}
use os_challenging_mission.Pmap.{pte_v}
use os_challenging_mission.Kernel.State.{Kernel, cpu_curenv, is_runnable, is_free, current}
use os_challenging_mission.Kernel.Sched.{schedule, schedule_retry}
use os_challenging_mission.Kernel.Env.{envid2env}
use os_challenging_mission.Kernel.Ipc.{sys_ipc_recv, is_illegal_va, set_recving, send_page, deliver}
use os_challenging_mission.Kernel.Syscall.{
  sys_yield, sys_env_destroy, sys_set_env_status, sys_exofork,
}
use os_challenging_mission.Kernel.Queues.{
  Queues, schedule-Queues, choose-Queues, same-Queues, set_env-Queues,
}
use os_challenging_mission.Kernel.Fork.{sys_exofork-Queues}
use os_challenging_mission.Kernel.CallQueues.{envid2env-pure, send_page-Leaves, deliver-Queues}
use os_challenging_mission.Kernel.History.{
  Alive, sys_env_destroy-Queues, sys_set_env_status-Queues, sys_ipc_recv-Queues, current-pure,
}

-- The calls that change the states of envs or the queues, each one step. `tick` is the timer
-- interrupt. A send is in steps of its own, as it lets go of `env_sched_lock` in between.
pub data Call : Type 0 where
  tick yield retry exofork : Call
  destroy : (envid : ℕ) → Call
  set_status : (envid status : ℕ) → Call
  recv : (dstva : ℕ) → Call

unfoldable pub run : ℕ → Call → Kernel → Kernel
run cpu tick k = (schedule cpu false k).1
run cpu yield k = (sys_yield cpu k).1
run cpu retry k = (schedule_retry cpu k).1
run cpu exofork k = (sys_exofork cpu k).1
run cpu (destroy envid) k = (sys_env_destroy cpu envid k).1
run cpu (set_status envid status) k = (sys_set_env_status cpu envid status k).1
run cpu (recv dstva) k = (sys_ipc_recv cpu dstva k).1

-- Where a CPU is in `sys_ipc_try_send`, with the target `e`: before the first section under
-- `env_sched_lock`, before the page is moved, before the section that undoes the first, and before
-- the target's fields are set and it is woken.
pub data Send : Type 0 where
  no_send : Send
  found claimed : (e value srcva perm : ℕ) → Send
  failed : (e : ℕ) → Send
  moved : (e value ipc_perm : ℕ) → Send

abbrev pub after_lookup : ℕ → ℕ → ℕ → Outcome ℕ × Kernel → Send × Kernel
after_lookup value srcva perm (ok e, k) = (found e value srcva perm, k)
after_lookup value srcva perm (_, k) = (no_send, k)

-- Steps 1 and 2 of `sys_ipc_try_send`.
unfoldable pub send_start : ℕ → ℕ → ℕ → ℕ → ℕ → Kernel → Send × Kernel
unfolding is_illegal_va
send_start cpu envid value srcva perm k =
    if not (srcva == 0) && is_illegal_va srcva
    then (no_send, k)
    else after_lookup value srcva perm (envid2env cpu envid false k)

abbrev pub after_page : ℕ → ℕ → ℕ → Outcome (Unit {0}) × Kernel → Send × Kernel
after_page e value perm (ok _, k) = (moved e value (bit_or pte_v perm), k)
after_page e value perm (err _, k) = (failed e, k)
after_page e value perm (_, k) = (no_send, k)

-- The caller goes on: step 3, step 4, what undoes step 3 after a failure, steps 5 and 6.
unfoldable pub send_step : ℕ → Send → Kernel → Send × Kernel
unfolding send_page deliver
send_step cpu no_send k = (no_send, k)
send_step cpu (found e value srcva perm) k =
    if not (k.envs e).env_ipc_recving
    then (no_send, k)
    else (claimed e value srcva perm, set_recving e false k)
send_step cpu (claimed e value srcva perm) k =
    if srcva == 0
    then (moved e value 0, k)
    else after_page e value perm ((do c ← current cpu; send_page c e srcva perm) k)
send_step cpu (failed e) k = (no_send, set_recving e true k)
send_step cpu (moved e value ipc_perm) k =
    (no_send, ((do c ← current cpu; deliver cpu e value ipc_perm c) k).1)

-- `sends cpu` is where each CPU is in a send.
pub record Machine : Type 0 where
  pub kernel : Kernel
  pub sends : ℕ → Send

abbrev pub with_send : ℕ → Send × Kernel → Machine → Machine
with_send cpu r m = record { kernel = r.1; sends = update m.sends cpu r.0 }

-- Who may call: the caller's env is in use, and the env that starts to wait is runnable.
abbrev pub Allowed : ℕ → Call → Kernel → Type 0
Allowed cpu (set_status envid status) k = Alive cpu k
Allowed cpu (recv dstva) k =
    (c : ℕ) → cpu_curenv cpu k ≡ some c → is_runnable (k.envs c).env_status ≡ true
Allowed cpu _ k = Unit {0}

-- The target that a send is about to wake is in use, and nobody else has woken it.
abbrev pub Wakes : Send → Kernel → Type 0
Wakes (moved e value ipc_perm) k =
    (is_free (k.envs e).env_status ≡ false) × (is_runnable (k.envs e).env_status ≡ false)
Wakes _ k = Unit {0}

-- Any calls on any CPUs, one after another, and any sends, whose steps come between those of the
-- other CPUs.
pub data Steps : Machine → Machine → Type 0 where
  done : (m : Machine) → Steps m m
  calls :
      (cpu : ℕ) (call : Call) {m t : Machine}
      → m.sends cpu ≡ no_send
      → Allowed cpu call m.kernel
      → Steps (record m { kernel = run cpu call m.kernel }) t
      → Steps m t
  begins :
      (cpu envid value srcva perm : ℕ) {m t : Machine}
      → m.sends cpu ≡ no_send
      → Steps (with_send cpu (send_start cpu envid value srcva perm m.kernel) m) t
      → Steps m t
  goes_on :
      (cpu : ℕ) {m t : Machine}
      → Wakes (m.sends cpu) m.kernel
      → Steps (with_send cpu (send_step cpu (m.sends cpu) m.kernel) m) t
      → Steps m t

run-Queues :
    (cpu : ℕ) (call : Call) (k : Kernel) → Allowed cpu call k → Queues k → Queues (run cpu call k)
unfolding run sys_yield schedule_retry
run-Queues cpu tick k a q = schedule-Queues cpu false k q
run-Queues cpu yield k a q = schedule-Queues cpu true k q
run-Queues cpu retry k a q = choose-Queues cpu k q
run-Queues cpu exofork k a q = sys_exofork-Queues cpu k q
run-Queues cpu (destroy envid) k a q = sys_env_destroy-Queues cpu envid k q
run-Queues cpu (set_status envid status) k a q = sys_set_env_status-Queues cpu envid status k a q
run-Queues cpu (recv dstva) k a q = sys_ipc_recv-Queues cpu dstva k a q

after_lookup-same :
    (value srcva perm : ℕ) (r : Outcome ℕ × Kernel) → (after_lookup value srcva perm r).1 ≡ r.1
after_lookup-same value srcva perm (ok e, k) = refl
after_lookup-same value srcva perm (err x, k) = refl
after_lookup-same value srcva perm (panicked, k) = refl
after_lookup-same value srcva perm (switched, k) = refl
after_lookup-same value srcva perm (waiting, k) = refl

after_page-same :
    (e value perm : ℕ) (r : Outcome (Unit {0}) × Kernel) → (after_page e value perm r).1 ≡ r.1
after_page-same e value perm (ok a, k) = refl
after_page-same e value perm (err x, k) = refl
after_page-same e value perm (panicked, k) = refl
after_page-same e value perm (switched, k) = refl
after_page-same e value perm (waiting, k) = refl

send_start-Queues :
    (cpu envid value srcva perm : ℕ) (k : Kernel)
    → Queues k
    → Queues (send_start cpu envid value srcva perm k).1
unfolding send_start
send_start-Queues cpu envid value srcva perm k q =
    if-cases (λ (r : Send × Kernel). Queues r.1) (not (srcva == 0) && is_illegal_va srcva) (λ _. q)
      (λ _.
        rw
          (
            after_lookup-same value srcva perm (envid2env cpu envid false k),
            envid2env-pure cpu envid false k,
          )
          q)

moved_page-Queues :
    (cpu e srcva perm : ℕ) (k : Kernel)
    → Queues k
    → Queues ((do c ← current cpu; send_page c e srcva perm) k).1
moved_page-Queues cpu e srcva perm k q =
    let t = (current cpu k).1 in
    let t_q : Queues t = rw (current-pure cpu k) q in
    and_then_keeps Queues (current cpu k) (λ c. send_page c e srcva perm) t_q
      (λ c _. let left = send_page-Leaves c e srcva perm t in same-Queues left.0 left.1 left.2 t_q)

send_step-Queues :
    (cpu : ℕ) (send : Send) (k : Kernel) → Wakes send k → Queues k → Queues (send_step cpu send k).1
unfolding send_step
send_step-Queues cpu no_send k w q = q
send_step-Queues cpu (found e value srcva perm) k w q =
    if-cases (λ (r : Send × Kernel). Queues r.1) (not (k.envs e).env_ipc_recving) (λ _. q)
      (λ _. set_env-Queues e _ refl refl q)
send_step-Queues cpu (claimed e value srcva perm) k w q =
    if-cases (λ (r : Send × Kernel). Queues r.1) (srcva == 0) (λ _. q)
      (λ _.
        rw (after_page-same e value perm ((do c ← current cpu; send_page c e srcva perm) k))
          (moved_page-Queues cpu e srcva perm k q))
send_step-Queues cpu (failed e) k w q = set_env-Queues e _ refl refl q
send_step-Queues cpu (moved e value ipc_perm) k w q =
    let t = (current cpu k).1 in
    let same : t ≡ k = current-pure cpu k in
    and_then_keeps Queues (current cpu k) (deliver cpu e value ipc_perm) (rw same q)
      (λ c _. deliver-Queues cpu e value ipc_perm c t (rw same w.0) (rw same w.1) (rw same q))

-- Whatever calls are made on whatever CPUs, each as one step but for sys_ipc_try_send, which is in
-- the steps between its sections under env_sched_lock, with steps of other CPUs in between: the run
-- queue holds exactly the runnable envs, each once, and the free list exactly the free ones, if
-- they did at first. It is assumed that the caller of sys_set_env_status is in use, that an env
-- that starts to wait is runnable, and that the target of a send is, when it is woken, in use and
-- not runnable yet.
pub Steps-Queues : {m t : Machine} → Steps m t → Queues m.kernel → Queues t.kernel
Steps-Queues (done m) q = q
Steps-Queues (calls cpu call {m} free a rest) q =
    Steps-Queues rest (run-Queues cpu call m.kernel a q)
Steps-Queues (begins cpu envid value srcva perm {m} free rest) q =
    Steps-Queues rest (send_start-Queues cpu envid value srcva perm m.kernel q)
Steps-Queues (goes_on cpu {m} w rest) q =
    Steps-Queues rest (send_step-Queues cpu (m.sends cpu) m.kernel w q)
