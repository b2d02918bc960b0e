-- ===== src/Kernel/Fork.antt =====
-- kern/syscall_all.c: `sys_exofork` and the child that it makes.
use os_challenging_mission.Base.{
  ℕ, suc, ◌≡◌, true, List, ◌∷◌, arith, count, some, Option-cases, ◌+◌, ◌≢◌, inl, ◌%◌, sym, inr, ◌^◌,
  ◌∙◌, ◌<◌, ◌*◌, false, count-remove, ℕ_discrete, refl, ==_ne, ==_refl,
}
use os_challenging_mission.Base.Bits.{or_add}
use os_challenging_mission.Kernel.Env.{envid2env, env_alloc, mkenvid}
use os_challenging_mission.Errors.{Outcome, ok, and_then-cases}
use os_challenging_mission.Kernel.State.{not_runnable, is_free, Kernel, cpu_curenv, envx}
use os_challenging_mission.Kernel.Syscall.{
  sys_exofork, bear_child, fork_from, copy_parent, sys_getenvid,
}
use os_challenging_mission.Kernel.Queues.{Queues}
use os_challenging_mission.Kernel.Birth.{Born, env_alloc-cases}

head_free :
    (e : ℕ) (rest : List ℕ) (k : Kernel)
    → Queues k
    → k.env_free_list ≡ e ∷ rest
    → is_free (k.envs e).env_status ≡ true
head_free e rest k q first =
    let here : count e k.env_free_list ≡ suc (count e rest) = rw first (ground arith) in
    ground (arith, q.unused e)

copy_parent-Queues :
    (cpu e c parent : ℕ) (k t : Kernel) (rest : List ℕ)
    → k.env_free_list ≡ e ∷ rest
    → Born parent e k t
    → Queues k
    → Queues (copy_parent cpu e c t).1
unfolding copy_parent
copy_parent-Queues cpu e c parent k t rest first b q = record {
  queued = λ i. elim (ℕ_discrete i e) [
    | yes y ↦ rw (y, b.sched) (ground (arith, q.queued e, was_free))
    | no n ↦ rw b.sched (ground (arith, q.queued i, b.others i n, n))
  ];
  unused = λ i. elim (ℕ_discrete i e) [
    | yes y ↦ rw (y, b.unused) (ground (arith, count-remove e e k.env_free_list))
    | no n ↦
        rw b.unused (ground (arith, q.unused i, b.others i n, n, count-remove i e k.env_free_list))
  ];
  doomed = λ i h. elim (ℕ_discrete i e) [
    | yes y ↦ rw y (ground arith)
    | no n ↦ ground (arith, h, q.doomed i, b.others i n, n)
  ];
}
  where
    was_free : is_free (k.envs e).env_status ≡ true
    was_free = head_free e rest k q first

-- `fork_from` after `env_alloc`: the CPU still runs the parent.
fork_from-copy_parent :
    (cpu e c parent : ℕ) (k t : Kernel)
    → cpu_curenv cpu k ≡ some c
    → Born parent e k t
    → fork_from cpu e t ≡ copy_parent cpu e c t
unfolding fork_from
fork_from-copy_parent cpu e c parent k t at_c b =
    let here : cpu_curenv cpu t ≡ some c = rw b.cpus at_c in rw (here, fork_from) refl

sys_exofork-bear_child :
    (cpu c : ℕ) (k : Kernel)
    → cpu_curenv cpu k ≡ some c
    → sys_exofork cpu k ≡ bear_child cpu (k.envs c).env_id k
unfolding sys_exofork sys_getenvid
sys_exofork-bear_child cpu c k at_c = rw (at_c, sys_exofork) refl

-- `sys_exofork` keeps the queues right, whether or not it returns a child.
pub sys_exofork-Queues : (cpu : ℕ) (k : Kernel) → Queues k → Queues (sys_exofork cpu k).1
unfolding sys_exofork bear_child sys_getenvid
sys_exofork-Queues cpu k q = elim (Option-cases (cpu_curenv cpu k)) [
  | inl h ↦ rw (h, sys_exofork) q
  | inr (c, h) ↦
      let parent = (k.envs c).env_id in
      let alloc = env_alloc-cases parent k in
      rw (sys_exofork-bear_child cpu c k h) (
        and_then-cases (λ (r : Outcome ℕ × Kernel). Queues r.1) (env_alloc parent k) (fork_from cpu)
          (λ bad _ _. alloc.0 bad q)
          (λ e got.
            let (b, (rest, first)) = alloc.1 e got in
            rw (fork_from-copy_parent cpu e c parent k (env_alloc parent k).1 h b)
              (copy_parent-Queues cpu e c parent k (env_alloc parent k).1 rest first b q)))
]

-- What a parent knows of the child that `sys_exofork` gave it.
pub record Child (cpu envid e c : ℕ) (k t : Kernel) : Type 0 where
  pub named : (t.envs e).env_id ≡ envid
  pub unique : envid ≡ mkenvid ((k.next_envid + 1) % 2 ^ 32) e
  pub parent : (t.envs e).env_parent_id ≡ (k.envs c).env_id
  pub stopped : (t.envs e).env_status ≡ not_runnable
  pub result : (t.envs e).env_tf.regs 2 ≡ 0
  pub priority : (t.envs e).env_pri ≡ (t.envs c).env_pri
  pub others : (j : ℕ) → j ≢ e → t.envs j ≡ k.envs j
  pub cpus : t.cpu_data ≡ k.cpu_data

copy_parent-Child :
    (cpu e c envid : ℕ) (k t : Kernel)
    → Born (k.envs c).env_id e k t
    → e ≢ c
    → (copy_parent cpu e c t).0 ≡ ok envid
    → Child cpu envid e c k (copy_parent cpu e c t).1
unfolding copy_parent
copy_parent-Child cpu e c envid k t b other h =
    let same : (t.envs e).env_id ≡ envid = ground (arith, h) in
    record {
      named = ground (arith, same);
      unique = sym same ∙ b.named;
      parent = ground (arith, b.child);
      stopped = ground arith;
      result = ground arith;
      priority = ground (arith, other);
      others = λ j n. ground (arith, b.others j n);
      cpus = b.cpus;
    }

mkenvid-sum : (i e : ℕ) → e < 1024 → mkenvid i e ≡ 2048 * (i % 2 ^ 21) + e
unfolding mkenvid
mkenvid-sum i e h =
    let shifted : i * 2048 % 2 ^ 32 ≡ 2 ^ 11 * (i % 2 ^ 21) = omega arith in
    rw shifted (or_add 11 (i % 2 ^ 21) e (omega arith))

-- The low ten bits of an id lead back to the env, for the 1024 envs of the array, however often the
-- counter has wrapped.
pub envx-mkenvid : (i e : ℕ) → e < 1024 → envx (mkenvid i e) ≡ e
envx-mkenvid i e h = omega (arith, mkenvid-sum i e h)

Child-envid2env :
    (cpu envid e c : ℕ) (k t : Kernel)
    → Child cpu envid e c k t
    → cpu_curenv cpu k ≡ some c
    → e ≢ c
    → e < 1024
    → envid ≢ 0
    → envid2env cpu envid true t ≡ (ok e, t)
unfolding envid2env
Child-envid2env cpu envid e c k t child at_c other small named =
    let here : cpu_curenv cpu t ≡ some c = rw child.cpus at_c in
    let slot : envx envid ≡ e =
      rw child.unique (envx-mkenvid ((k.next_envid + 1) % 2 ^ 32) e small) in
    let mine : (t.envs e).env_parent_id ≡ (t.envs c).env_id =
      rw (child.others c (λ h. other (sym h))) child.parent in
    rw (==_ne envid 0 named, slot, here, child.stopped, child.named, ==_refl envid, slot, mine)
      (ground arith)

-- What `sys_exofork` returns names the child: an env that was free, now stopped, with 0 for the
-- result of the call and its parent's priority. The parent reaches it by that name, and all other
-- envs and the CPUs are as before. The queues are right, the free envs are in the array, the parent
-- is in use, and the low 21 bits of the counter of ids are not 0 after the call.
pub sys_exofork-envid2env :
    (cpu c envid : ℕ) (k : Kernel)
    → Queues k
    → ((j : ℕ) → is_free (k.envs j).env_status ≡ true → j < 1024)
    → cpu_curenv cpu k ≡ some c
    → is_free (k.envs c).env_status ≡ false
    → 0 < (k.next_envid + 1) % 2 ^ 21
    → (sys_exofork cpu k).0 ≡ ok envid
    → (e : ℕ) × (is_free (k.envs e).env_status ≡ true)
      × Child cpu envid e c k (sys_exofork cpu k).1
      × (envid2env cpu envid true (sys_exofork cpu k).1 ≡ (ok e, (sys_exofork cpu k).1))
unfolding bear_child
sys_exofork-envid2env cpu c envid k q bounded at_c live counter done =
    rw (sys_exofork-bear_child cpu c k at_c) (
      and_then-cases
        (λ (r : Outcome ℕ × Kernel).
          r.0 ≡ ok envid
          → (e : ℕ) × (is_free (k.envs e).env_status ≡ true)
            × Child cpu envid e c k r.1
            × (envid2env cpu envid true r.1 ≡ (ok e, r.1)))
        (env_alloc parent k) (fork_from cpu) (λ _ o bad h. absurd (bad envid h))
        (λ e got.
          let (b, (rest, first)) = (env_alloc-cases parent k).1 e got in
          let was = head_free e rest k q first in
          rw (fork_from-copy_parent cpu e c parent k t at_c b) (λ h.
            let other : e ≢ c = λ same. ground (arith, was, live, same) in
            let child = copy_parent-Child cpu e c envid k t b other h in
            (
              e,
              was,
              child,
              Child-envid2env cpu envid e c k _ child at_c other (bounded e was)
                  (nonzero e (bounded e was) child.unique),
            )))
        (rw (sys_exofork-bear_child cpu c k at_c) at done))
  where
    parent : ℕ
    parent = (k.envs c).env_id

    t : Kernel
    t = (env_alloc parent k).1

    nonzero : (e : ℕ) → e < 1024 → envid ≡ mkenvid ((k.next_envid + 1) % 2 ^ 32) e → envid ≢ 0
    nonzero e small h zero_id = omega (arith, mkenvid-sum ((k.next_envid + 1) % 2 ^ 32) e small)
