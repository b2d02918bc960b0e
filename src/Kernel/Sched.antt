-- ===== src/Kernel/Sched.antt =====
-- kern/sched.c, and what kern/env.c does to switch a CPU or to destroy an env.
-- A critical section of `env_sched_lock` is one step. `schedule` ends `switched` once it has an env to
-- run, and `waiting` where its loop finds none and gives the lock up: `schedule_retry` is the next
-- round. `handle_ipi_irq` and `smp_note_schedule_ready` touch nothing of the state here.
use os_challenging_mission.Base.{
  ℕ, ◌+◌, ◌-◌, ◌%◌, ◌^◌, Bool, true, false, not, ◌&&◌, ◌||◌, List, [], ◌∷◌, ◌==◌, if◌then◌else◌,
  Option, none, some, count,
}
use os_challenging_mission.Errors.{M, ok, panicked, switched, waiting, ◌>>◌}
use os_challenging_mission.Kernel.State.{
  is_free, is_runnable, Env, Kernel, cpu_curenv, set_env, set_cpu, enqueue, dequeue,
}
use os_challenging_mission.Kernel.Env.{env_free}

abbrev pub is_none_or : Option ℕ → ℕ → Bool
is_none_or none cpu = true
is_none_or (some c) cpu = c == cpu

abbrev pub is_cpu : Option ℕ → ℕ → Bool
is_cpu none cpu = false
is_cpu (some c) cpu = c == cpu

-- May `schedule` on this CPU choose the env?
unfoldable pub eligible : ℕ → Env → Bool
eligible cpu v =
    is_none_or v.env_pinned_cpu cpu
    && not v.env_kill_pending
    && (not v.env_running || is_cpu v.env_cpu_id cpu)

-- The walk along `env_sched_list`.
unfoldable pub pick : ℕ → (ℕ → Env) → List ℕ → Option ℕ
pick cpu envs [] = none
pick cpu envs (e ∷ rest) =
    let later = pick cpu envs rest in if eligible cpu (envs e) then some e else later

-- `*cpu_trapframe()` goes to the env that the CPU has run.
abbrev pub save_for : ℕ → Option ℕ → Kernel → Kernel
save_for cpu none k = k
save_for cpu (some c) k = set_env c (record (k.envs c) { env_tf = (k.cpu_data cpu).trapframe }) k

abbrev pub save_frame : ℕ → Kernel → Kernel
save_frame cpu k = save_for cpu (cpu_curenv cpu k) k

-- Steps 2 to 4 of `env_run`: the registers of `e` are then those of the CPU.
abbrev pub enter : ℕ → ℕ → Kernel → Kernel
enter cpu e k =
    let v = record (k.envs e) { env_runs = ((k.envs e).env_runs + 1) % 2 ^ 32 } in
    set_cpu cpu
      (record (k.cpu_data cpu) { curenv = some e; cur_pgdir = v.env_pgdir; trapframe = v.env_tf })
      (set_env e v k)

unfoldable pub env_run : ℕ → ℕ → M Kernel (Unit {0})
env_run cpu e k =
    if is_runnable (k.envs e).env_status
    then (switched, enter cpu e (save_frame cpu k))
    else (panicked, k)

-- `count--; cpu_data[cpu].sched_count = count; env_run(e)`
unfoldable pub run_with : ℕ → ℕ → ℕ → M Kernel (Unit {0})
unfolding env_run
run_with cpu count e k =
    env_run cpu e
      (set_cpu cpu (record (k.cpu_data cpu) { sched_count = (count + 2 ^ 32 - 1) % 2 ^ 32 }) k)

-- What follows the walk: the loop goes on, or `found:`.
unfoldable pub dispatch : ℕ → Option ℕ → M Kernel (Unit {0})
unfolding run_with
dispatch cpu none k = (waiting, k)
dispatch cpu (some e) k =
    let v = record (k.envs e) { env_running = true; env_cpu_id = some cpu } in
    run_with cpu v.env_pri e (set_env e v k)

-- One round of the loop.
unfoldable pub choose : ℕ → M Kernel (Unit {0})
unfolding pick dispatch
choose cpu k = dispatch cpu (pick cpu k.envs k.env_sched_list) k

-- The old env is no longer running, and goes to the tail if it is still runnable.
unfoldable pub release : ℕ → Kernel → Kernel
release e k =
    let t = set_env e (record (k.envs e) { env_running = false; env_cpu_id = none }) k in
    if is_runnable (k.envs e).env_status then enqueue e (dequeue e t) else t

-- `schedule` from the lock on, where no request to kill the current env is pending
unfoldable pub schedule_locked : ℕ → Bool → M Kernel (Unit {0})
unfolding choose release
schedule_locked cpu yields k = elim (cpu_curenv cpu k) [
  | none ↦ choose cpu k
  | some e ↦
      let count = (k.cpu_data cpu).sched_count in
      if yields || count == 0 || not (is_runnable (k.envs e).env_status)
      then choose cpu (release e k)
      else run_with cpu count e k
]

abbrev pub drop_curenv : ℕ → Kernel → Kernel
drop_curenv cpu k = set_cpu cpu (record (k.cpu_data cpu) { curenv = none }) k

-- `env_free(e)`, and `schedule(1)` if `e` was the current env: the end of `env_destroy` and of
-- `env_check_kill_pending`.
unfoldable pub free_and_leave : ℕ → ℕ → M Kernel (Unit {0})
unfolding schedule_locked
free_and_leave cpu e k =
    let here = is_cpu (cpu_curenv cpu k) e in
    (do env_free e; λ t. if here then schedule_locked cpu true (drop_curenv cpu t) else (ok tt, t))
      k

unfoldable pub schedule : ℕ → Bool → M Kernel (Unit {0})
unfolding schedule_locked free_and_leave
schedule cpu yields k = elim (cpu_curenv cpu k) [
  | none ↦ schedule_locked cpu yields k
  | some e ↦
      if (k.envs e).env_kill_pending then free_and_leave cpu e k else schedule_locked cpu yields k
]

-- The next round of the loop, after another CPU had the lock.
unfoldable pub schedule_retry : ℕ → M Kernel (Unit {0})
unfolding choose
schedule_retry cpu k = choose cpu k

-- `env_destroy`. For an env that runs on another CPU only the request is left; the wait for that
-- CPU to answer it is not a change of this state.
unfoldable pub env_destroy : ℕ → ℕ → M Kernel (Unit {0})
unfolding free_and_leave
env_destroy cpu e k =
    let v = k.envs e in
    if is_free v.env_status
    then (ok tt, k)
    else if v.env_running && not (is_cpu v.env_cpu_id cpu)
    then (ok tt, set_env e (record v { env_kill_pending = true; env_kill_done = false }) k)
    else free_and_leave cpu e (set_env e (record v { env_kill_pending = true }) k)
