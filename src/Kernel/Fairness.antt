-- ===== src/Kernel/Fairness.antt =====
-- kern/sched.c: what a CPU that calls `schedule` gets.
use os_challenging_mission.Base.{
  ℕ, ◌<◌, ◌≡◌, ◌≢◌, ◌⊎◌, inl, inr, refl, sym, ap, ◌∙◌, true, false, List, [], ◌∷◌, ◌++◌, arith,
  Option, none, some, Bool-cases, count, remove, count-append, count-remove, Bool,
}
use os_challenging_mission.Kernel.Choice.{
  dispatch_other, dispatch-Chosen, Walked, Chosen, pick-Walked,
}
use os_challenging_mission.Kernel.Queues.{release-Queues, Queues}
use os_challenging_mission.Errors.{waiting}
use os_challenging_mission.Kernel.State.{runnable, is_runnable, Env, Kernel, cpu_curenv}
use os_challenging_mission.Kernel.Sched.{
  dispatch, eligible, pick, choose, release, schedule_locked, schedule,
}

-- In a kernel whose run queue and free list are right, a round of the loop of schedule (choose)
-- either finds no env on the list that this CPU may run, and then changes nothing, or runs the
-- first one: it is not bound to another CPU, not to be killed and not running on another CPU, and
-- all before it on the list are. The registers of the env that the CPU ran go to its env_tf, those
-- of the new env come from its own, and no other env or CPU changes.
pub choose_lem :
    (cpu : ℕ) (k : Kernel)
    → Queues k
    → ((choose cpu k ≡ (waiting, k)) × Walked cpu k.envs k.env_sched_list none)
      ⊎ ((e : ℕ) × Walked cpu k.envs k.env_sched_list (some e) × Chosen cpu e k (choose cpu k))
unfolding choose dispatch
choose_lem cpu k q =
    cases (pick cpu k.envs k.env_sched_list) (pick-Walked cpu k.envs k.env_sched_list)
  where
    cases :
        (o : Option ℕ)
        → Walked cpu k.envs k.env_sched_list o
        → ((dispatch cpu o k ≡ (waiting, k)) × Walked cpu k.envs k.env_sched_list none)
          ⊎ ((e : ℕ) × Walked cpu k.envs k.env_sched_list (some e)
              × Chosen cpu e k (dispatch cpu o k))
    cases none w = inl (refl, w)
    cases (some e) w = inr (e, w, dispatch-Chosen cpu e k (ground (arith, q.queued e, w.0)))

-- An env that runs on another CPU, and is not the current env of this one, is left alone: a round
-- of the loop of `schedule` here neither chooses nor changes it.
pub choose-exclusive :
    (cpu d j : ℕ) (k : Kernel)
    → Queues k
    → (k.envs j).env_running ≡ true
    → (k.envs j).env_cpu_id ≡ some d
    → d ≢ cpu
    → cpu_curenv cpu k ≢ some j
    → (cpu_curenv cpu (choose cpu k).1 ≢ some j) × ((choose cpu k).1.envs j ≡ k.envs j)
choose-exclusive cpu d j k q runs there other mine = elim (choose_lem cpu k q) [
  | inl (same, w) ↦ rw same (mine, refl)
  | inr (e, w, c) ↦
      let apart : j ≢ e = λ y. elsewhere (rw y w.1) in
      ((λ h. apart (ground (arith, h, c.1.current))), c.1.kept j apart mine)
]
  where
    elsewhere : eligible cpu (k.envs j) ≢ true
    elsewhere h = unfold eligible in ground (arith, h, runs, there, other)

-- A walk along two lists ends in the first, if that has an env to choose.
pick-append :
    (cpu j : ℕ) (envs : ℕ → Env) (xs ys : List ℕ)
    → 0 < count j xs
    → eligible cpu (envs j) ≡ true
    → (i : ℕ) × (0 < count i xs) × (pick cpu envs (xs ++ ys) ≡ some i)
unfolding pick
pick-append cpu j envs [] ys h fits = absurd (omega arith)
pick-append cpu j envs (x ∷ xs) ys h fits = elim (Bool-cases (eligible cpu (envs x))) [
  | inl y ↦ (x, ground arith, rw y refl)
  | inr n ↦
      let apart : x ≢ j = λ same. ground (arith, fits, n, same) in
      let (i, in_, found) = pick-append cpu j envs xs ys (ground (arith, apart)) fits in
      (i, ground arith, rw n found)
]

-- `schedule` of an env that is not to be killed.
schedule-schedule_locked :
    (cpu e : ℕ) (yields : Bool) (k : Kernel)
    → cpu_curenv cpu k ≡ some e
    → (k.envs e).env_kill_pending ≡ false
    → schedule cpu yields k ≡ schedule_locked cpu yields k
unfolding schedule
schedule-schedule_locked cpu e yields k at_e live = rw (at_e, schedule, live) refl

-- `schedule(1)` of such an env.
schedule-choose :
    (cpu e : ℕ) (k : Kernel)
    → cpu_curenv cpu k ≡ some e
    → (k.envs e).env_kill_pending ≡ false
    → schedule cpu true k ≡ choose cpu (release e k)
unfolding schedule_locked
schedule-choose cpu e k at_e live =
    schedule-schedule_locked cpu e true k at_e live ∙ rw (at_e, schedule_locked) refl

-- A runnable env that yields, and is not to be killed, does not get the CPU back while another env
-- on the list may be chosen: `schedule` runs some other env instead, and the one that yields is last
-- on the list and no longer running.
pub schedule-yields :
    (cpu e j : ℕ) (k : Kernel)
    → Queues k
    → cpu_curenv cpu k ≡ some e
    → (k.envs e).env_kill_pending ≡ false
    → (k.envs e).env_status ≡ runnable
    → j ≢ e
    → 0 < count j k.env_sched_list
    → eligible cpu (k.envs j) ≡ true
    → (i : ℕ) × (i ≢ e)
      × Chosen cpu i (release e k) (schedule cpu true k)
      × (((schedule cpu true k).1.envs e).env_running ≡ false)
      × ((schedule cpu true k).1.env_sched_list ≡ remove e k.env_sched_list ++ e ∷ [])
unfolding choose
schedule-yields cpu e j k q at_e live ready other in_ fits =
    let (i, here, found) =
      pick-append cpu j u.envs (remove e k.env_sched_list) (e ∷ [])
        (ground (arith, count-remove j e k.env_sched_list)) (rw moved_other fits) in
    let apart : i ≢ e = λ same. ground (arith, here, same, count-remove e e k.env_sched_list) in
    let run : is_runnable (u.envs i).env_status ≡ true = ground (
      arith,
      here,
      apart,
      (release-Queues e k q).queued i,
      queue,
      count-append i (remove e k.env_sched_list) (e ∷ []),
    ) in
    let stays = dispatch_other cpu i e u (λ same. apart (sym same)) in
    rw (leaves (some i) (ap (pick cpu u.envs) queue ∙ found))
      (i, apart, dispatch-Chosen cpu i u run, stays.0 ∙ stopped, stays.1 ∙ queue)
  where
    u : Kernel
    u = release e k

    moved_other : u.envs j ≡ k.envs j
    moved_other = unfold release in ground arith

    stopped : (u.envs e).env_running ≡ false
    stopped = unfold release in ground arith

    queue : u.env_sched_list ≡ remove e k.env_sched_list ++ e ∷ []
    queue = unfold release in rw ready refl

    leaves :
        (o : Option ℕ)
        → pick cpu u.envs u.env_sched_list ≡ o
        → schedule cpu true k ≡ dispatch cpu o u
    leaves o h = schedule-choose cpu e k at_e live ∙ ap (λ x. dispatch cpu x u) h
