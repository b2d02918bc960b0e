-- ===== src/Kernel/Boot.antt =====
-- kern/env.c: `env_init`, steps 1 and 2.
use os_challenging_mission.Base.{
  ℕ, zero, suc, ◌+◌, ◌≤◌, ◌≡◌, refl, true, false, [], ◌∷◌, arith, ltb, if◌then◌else◌, none, update,
  count,
}
use os_challenging_mission.Kernel.State.{nenv, free, is_free, is_runnable, Env, Kernel}
use os_challenging_mission.Kernel.Queues.{Queues}

abbrev pub init_fields : Env → Env
init_fields v = record v {
  env_status = free;
  env_cpu_id = none;
  env_running = false;
  env_pinned_cpu = none;
  env_kill_pending = false;
  env_kill_done = false;
}

-- The loop: the rounds from `n - 1` down to 0.
unfoldable pub init_envs : ℕ → Kernel → Kernel
init_envs zero k = k
init_envs (suc i) k = init_envs i (record k {
  envs = update k.envs i (init_fields (k.envs i));
  env_free_list = i ∷ k.env_free_list;
})

unfoldable pub init_lists : Kernel → Kernel
unfolding init_envs
init_lists k = init_envs nenv (record k { env_free_list = []; env_sched_list = [] })

-- The loop frees the envs below `n`, puts each on the list once and leaves the others.
init_envs_lem :
    (n : ℕ) (k : Kernel) (e : ℕ)
    → (count e (init_envs n k).env_free_list ≡ count e k.env_free_list + (if ltb e n then 1 else 0))
      × (is_free ((init_envs n k).envs e).env_status
          ≡ (if ltb e n then true else is_free (k.envs e).env_status))
      × (is_runnable ((init_envs n k).envs e).env_status
          ≡ (if ltb e n then false else is_runnable (k.envs e).env_status))
      × (((init_envs n k).envs e).env_kill_pending
          ≡ (if ltb e n then false else (k.envs e).env_kill_pending))
      × ((init_envs n k).env_sched_list ≡ k.env_sched_list)
unfolding init_envs
init_envs_lem zero k e = (ground arith, ground arith, ground arith, ground arith, refl)
init_envs_lem (suc n) k e =
    let rest =
      init_envs_lem n
        (record k {
          envs = update k.envs n (init_fields (k.envs n));
          env_free_list = n ∷ k.env_free_list;
        })
        e in
    (
      ground (arith, rest.0),
      ground (arith, rest.1),
      ground (arith, rest.2),
      ground (arith, rest.3),
      rest.4,
    )

-- Past the array there is no env, so none that is free, runnable or to be killed.
abbrev pub NoneFrom : ℕ → Kernel → Type 0
NoneFrom n k =
    (e : ℕ)
    → n ≤ e
    → (is_free (k.envs e).env_status ≡ false)
      × (is_runnable (k.envs e).env_status ≡ false)
      × ((k.envs e).env_kill_pending ≡ false)

init_envs-Queues :
    (n : ℕ) (t : Kernel)
    → t.env_free_list ≡ []
    → t.env_sched_list ≡ []
    → NoneFrom n t
    → Queues (init_envs n t)
init_envs-Queues n t none_free none_ready past = record {
  queued = λ e.
      let at_e = init_envs_lem n t e in rw (at_e.4, none_ready) (ground (arith, at_e.2, past e));
  unused = λ e.
      let at_e = init_envs_lem n t e in rw (at_e.0, none_free) (ground (arith, at_e.1, past e));
  doomed = λ e h. let at_e = init_envs_lem n t e in ground (arith, at_e.1, at_e.3, past e, h);
}

-- `env_init` sets up the queues, whatever the 1024 envs held before: all of them are free and on
-- the free list once, none is runnable, and none is to be killed.
pub init_lists-Queues : (k : Kernel) → NoneFrom nenv k → Queues (init_lists k)
unfolding init_lists
init_lists-Queues k past =
    init_envs-Queues nenv (record k { env_free_list = []; env_sched_list = [] }) refl refl past
