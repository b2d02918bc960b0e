-- ===== src/Kernel/Examples.antt =====
-- The kernel on a small machine: env 0 runs on CPU 0, env 1 is ready, env 2 waits for a message and
-- env 3 is free.
use os_challenging_mission.Base.{
  ℕ, zero, suc, ◌<◌, ◌≡◌, ◌≢◌, ◌⊎◌, refl, Bool, true, false, [], ◌∷◌, ◌++◌, arith, ◌==◌,
  if◌then◌else◌, Option, none, some, count, remove,
}
use os_challenging_mission.Kernel.Env.{
  retire, env_free, free_memory, env_alloc, alloc_first, alloc_at, prepare, env_setup_vm, take_asid,
  enroll, envid2env, mkenvid,
}
use os_challenging_mission.Kernel.Syscall.{
  sys_getenvid, bear_child, fork_from, copy_parent, sys_env_destroy, sys_exofork,
}
use os_challenging_mission.Pmap.{page_alloc, page_decref, Pmap}
use os_challenging_mission.Asid.{asid_alloc, asid_scan}
use os_challenging_mission.Kernel.Steps.{
  tick, exofork, destroy, Call, run, Machine, no_send, send_start, send_step, with_send, Wakes,
  done, calls, begins, goes_on, Steps-Queues,
}
use os_challenging_mission.Kernel.State.{
  nenv, envx, cpu_curenv, Trapframe, Status, free, runnable, not_runnable, is_free, is_runnable,
  Env, Kernel,
}
use os_challenging_mission.Kernel.Boot.{NoneFrom, init_lists, init_lists-Queues}
use os_challenging_mission.Errors.{Error, bad_env, waiting, ok, err}
use os_challenging_mission.Kernel.Sched.{env_destroy, eligible, choose, release, schedule}
use os_challenging_mission.Kernel.Ipc.{sys_ipc_try_send}
use os_challenging_mission.Kernel.Message.{Delivered, Unsent}
use os_challenging_mission.Kernel.Sending.{sys_ipc_try_send_lem}
use os_challenging_mission.Kernel.Choice.{Chosen, Walked}
use os_challenging_mission.Kernel.Fairness.{schedule-yields, choose_lem, choose-exclusive}
use os_challenging_mission.Kernel.Fork.{Child, sys_exofork-envid2env}
use os_challenging_mission.Kernel.Access.{envid2env_lem}
use os_challenging_mission.Kernel.Queues.{Queues}

abbrev blank_tf : Trapframe
blank_tf = record {
  regs = λ _. 0;
  cp0_status = 0;
  hi = 0;
  lo = 0;
  cp0_badvaddr = 0;
  cp0_cause = 0;
  cp0_epc = 0;
}

abbrev env_with : ℕ → Status → Bool → Option ℕ → Env
env_with id status waits cpu = record {
  env_tf = blank_tf;
  env_id = id;
  env_asid = 0;
  env_parent_id = 0;
  env_status = status;
  env_pgdir = 1;
  env_pri = 1;
  env_ipc_value = 0;
  env_ipc_from = 0;
  env_ipc_recving = waits;
  env_ipc_dstva = 0;
  env_ipc_perm = 0;
  env_user_tlb_mod_entry = 0;
  env_runs = 0;
  env_cpu_id = cpu;
  env_running = elim cpu [ none ↦ false | some _ ↦ true ];
  env_pinned_cpu = none;
  env_kill_pending = false;
  env_kill_done = false;
}

abbrev small_envs : ℕ → Env
small_envs zero = env_with 2048 runnable false (some 0)
small_envs (suc zero) = env_with 4097 runnable false none
small_envs (suc (suc zero)) = env_with 6146 not_runnable true none
small_envs (suc (suc (suc zero))) = env_with 0 free false none
small_envs _ = env_with 0 not_runnable false none

abbrev small_memory : Pmap
small_memory = record {
  npage = 8;
  page_free_list = 3 ∷ 4 ∷ [];
  pp_ref = λ _. 0;
  memory = λ _ _. 0;
  flushes = [];
}

abbrev small : Kernel
small = record {
  pmap = small_memory;
  envs = small_envs;
  env_free_list = 3 ∷ [];
  env_sched_list = 0 ∷ 1 ∷ [];
  base_pgdir = 2;
  asid_bitmap = λ _. 0;
  next_envid = 3;
  cpu_data = λ c. record {
    curenv = if c == 0 then some 0 else none;
    cur_pgdir = 1;
    sched_count = 5;
    trapframe = blank_tf;
  };
}

small-Queues : Queues small
small-Queues = record { queued = queued; unused = unused; doomed = doomed }
  where
    queued :
        (e : ℕ)
        → count e small.env_sched_list ≡ (if is_runnable (small_envs e).env_status then 1 else 0)
    queued zero = refl
    queued (suc zero) = refl
    queued (suc (suc zero)) = refl
    queued (suc (suc (suc zero))) = refl
    queued (suc (suc (suc (suc e)))) = ground arith

    unused :
        (e : ℕ) → count e small.env_free_list ≡ (if is_free (small_envs e).env_status then 1 else 0)
    unused zero = refl
    unused (suc zero) = refl
    unused (suc (suc zero)) = refl
    unused (suc (suc (suc zero))) = refl
    unused (suc (suc (suc (suc e)))) = ground arith

    doomed :
        (e : ℕ) → (small_envs e).env_kill_pending ≡ true → is_free (small_envs e).env_status ≡ false
    doomed zero h = refl
    doomed (suc zero) h = refl
    doomed (suc (suc zero)) h = refl
    doomed (suc (suc (suc zero))) h = ground (arith, h)
    doomed (suc (suc (suc (suc e)))) h = refl

bounded : (j : ℕ) → is_free (small_envs j).env_status ≡ true → j < 1024
bounded zero h = omega arith
bounded (suc zero) h = omega arith
bounded (suc (suc zero)) h = omega arith
bounded (suc (suc (suc zero))) h = omega arith
bounded (suc (suc (suc (suc e)))) h = absurd (ground (arith, h))

abbrev quiet : Machine
quiet = record { kernel = small; sends = λ c. no_send }

-- CPU 0 goes on in its send.
abbrev on : Machine → Machine
on m = with_send 0 (send_step 0 (m.sends 0) m.kernel) m

-- A step of the CPU `c` in between.
abbrev meanwhile : ℕ → Call → Machine → Machine
meanwhile c call m = record m { kernel = run c call m.kernel }

-- Env 0 starts to send to env 2.
abbrev begun : Kernel → Machine
begun k = with_send 0 (send_start 0 6146 7 0 0 k) (record quiet { kernel = k })

-- Env 0 has claimed env 2, and CPU 1 takes env 1, before the message is there.
abbrev halfway : Machine
halfway = on (meanwhile 1 tick (on (begun small)))

halfway-Wakes : Wakes (halfway.sends 0) halfway.kernel
unfolding send_start send_step envid2env run schedule eligible
halfway-Wakes = (refl, refl)

Steps-Queues_example : Queues (meanwhile 0 exofork (on halfway)).kernel
unfolding send_start send_step envid2env run
Steps-Queues_example =
    Steps-Queues {m = quiet} {t = meanwhile 0 exofork (on halfway)}
      (begins 0 6146 7 0 0 refl (
        goes_on 0 tt (
          calls 1 tick refl tt
            (goes_on 0 tt (goes_on 0 halfway-Wakes (calls 0 exofork refl tt (done _)))))))
      small-Queues

-- Env 1, on CPU 1, is the parent of env 2.
abbrev family : Kernel
family = record small {
  pmap = record small_memory { pp_ref = λ _. 2 };
  envs = λ e. if e == 2 then record (small_envs 2) { env_parent_id = 4097 } else small_envs e;
  cpu_data = λ c. record (small.cpu_data c) { curenv = some c };
}

-- Without the condition on the target: env 2, destroyed after it was claimed, is free and queued.
destroyed_between :
    (count 2 (on (on (meanwhile 1 (destroy 6146) (on (begun family))))).kernel.env_free_list ≡ 1)
    × (count 2 (on (on (meanwhile 1 (destroy 6146) (on (begun family))))).kernel.env_sched_list ≡ 1)
unfolding send_start send_step envid2env run sys_env_destroy env_destroy env_free free_memory
    page_decref retire
destroyed_between = (refl, refl)

sys_ipc_try_send_example :
    ((sys_ipc_try_send 0 6146 7 0 0 small).0 ≡ ok tt
      → (e : ℕ) × (c : ℕ) × (envid2env 0 6146 false small ≡ (ok e, small))
        × (cpu_curenv 0 small ≡ some c)
        × ((small.envs e).env_ipc_recving ≡ true)
        × Delivered 7 0 0 e c small (sys_ipc_try_send 0 6146 7 0 0 small).1)
    × ((x : Error)
        → (sys_ipc_try_send 0 6146 7 0 0 small).0 ≡ err x
        → Unsent small (sys_ipc_try_send 0 6146 7 0 0 small).1)
sys_ipc_try_send_example = sys_ipc_try_send_lem 0 6146 7 0 0 small

schedule-yields_example :
    (i : ℕ) × (i ≢ 0)
    × Chosen 0 i (release 0 small) (schedule 0 true small)
    × (((schedule 0 true small).1.envs 0).env_running ≡ false)
    × ((schedule 0 true small).1.env_sched_list ≡ remove 0 small.env_sched_list ++ 0 ∷ [])
unfolding eligible
schedule-yields_example =
    schedule-yields 0 0 1 small small-Queues refl refl refl (ground arith) (ground arith) refl

choose_example :
    ((choose 0 small ≡ (waiting, small)) × Walked 0 small.envs small.env_sched_list none)
    ⊎ ((e : ℕ) × Walked 0 small.envs small.env_sched_list (some e)
        × Chosen 0 e small (choose 0 small))
choose_example = choose_lem 0 small small-Queues

-- CPU 1 leaves the env of CPU 0 alone.
choose-exclusive_example :
    (cpu_curenv 1 (choose 1 small).1 ≢ some 0) × ((choose 1 small).1.envs 0 ≡ small.envs 0)
choose-exclusive_example =
    choose-exclusive 1 0 0 small small-Queues refl refl (ground arith) (ground arith)

forked : (sys_exofork 0 small).0 ≡ ok 8195
unfolding sys_exofork sys_getenvid bear_child env_alloc alloc_first alloc_at prepare env_setup_vm
    page_alloc take_asid asid_alloc asid_scan enroll mkenvid fork_from copy_parent
forked = refl

sys_exofork_example :
    (e : ℕ) × (is_free (small.envs e).env_status ≡ true)
    × Child 0 8195 e 0 small (sys_exofork 0 small).1
    × (envid2env 0 8195 true (sys_exofork 0 small).1 ≡ (ok e, (sys_exofork 0 small).1))
sys_exofork_example =
    sys_exofork-envid2env 0 0 8195 small small-Queues bounded refl refl (ground arith) forked

envid2env_example :
    ((envid2env 0 4097 true small ≡ (ok (envx 4097), small))
      × (is_free (small.envs (envx 4097)).env_status ≡ false)
      × ((small.envs (envx 4097)).env_id ≡ 4097)
      × ((envx 4097 ≡ 0) ⊎ ((small.envs (envx 4097)).env_parent_id ≡ (small.envs 0).env_id)))
    ⊎ ((envid2env 0 4097 true small ≡ (err bad_env, small))
        × ((is_free (small.envs (envx 4097)).env_status ≡ true)
            ⊎ ((small.envs (envx 4097)).env_id ≢ 4097)
            ⊎ ((envx 4097 ≢ 0) × ((small.envs (envx 4097)).env_parent_id ≢ (small.envs 0).env_id))))
envid2env_example = envid2env_lem 0 4097 0 small refl (ground arith)

none_past : NoneFrom nenv small
none_past zero h = absurd (omega arith)
none_past (suc zero) h = absurd (omega arith)
none_past (suc (suc zero)) h = absurd (omega arith)
none_past (suc (suc (suc zero))) h = absurd (omega arith)
none_past (suc (suc (suc (suc e)))) h = (refl, refl, refl)

init_lists_example : Queues (init_lists small)
init_lists_example = init_lists-Queues small none_past
