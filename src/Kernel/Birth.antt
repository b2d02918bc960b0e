-- ===== src/Kernel/Birth.antt =====
-- kern/env.c, kern/syscall_all.c: what `env_alloc` and `sys_exofork` make.
use os_challenging_mission.Base.{
  ℕ, ◌≡◌, ◌≢◌, refl, arith, remove, false, ◌+◌, ◌%◌, ◌^◌, true, List, ◌∷◌, subst, sym, ◌∙◌, ap,
  ℕ_discrete, [],
}
use os_challenging_mission.Asid.{asid_alloc}
use os_challenging_mission.Kernel.Queues.{Queues, same-Queues}
use os_challenging_mission.Errors.{and_then_keeps, ok, and_then-cases, Outcome}
use os_challenging_mission.Pmap.{page_alloc}
use os_challenging_mission.Kernel.State.{Kernel, with_pmap, with_asids}
use os_challenging_mission.Kernel.Env.{
  env_setup_vm, prepare, take_asid, enroll, mkenvid, alloc_at, env_alloc, alloc_first,
}

-- What the steps of `env_alloc` before the identifier may change.
record Touched (e : ℕ) (k t : Kernel) : Type 0 where
  cpus : t.cpu_data ≡ k.cpu_data
  sched : t.env_sched_list ≡ k.env_sched_list
  unused : t.env_free_list ≡ k.env_free_list
  others : (j : ℕ) → j ≢ e → t.envs j ≡ k.envs j
  status : (t.envs e).env_status ≡ (k.envs e).env_status
  pending : (t.envs e).env_kill_pending ≡ true → (k.envs e).env_kill_pending ≡ true
  next : t.next_envid ≡ k.next_envid

env_setup_vm-Touched : (e : ℕ) (k : Kernel) → Touched e k (env_setup_vm e k).1
unfolding env_setup_vm
env_setup_vm-Touched e k =
    and_then_keeps (Touched e k) (with_pmap page_alloc k) _
      (record {
        cpus = refl;
        sched = refl;
        unused = refl;
        others = λ j n. refl;
        status = refl;
        pending = λ h. h;
        next = refl;
      })
      (λ pp _. record {
        cpus = refl;
        sched = refl;
        unused = refl;
        others = λ j n. ground arith;
        status = ground arith;
        pending = λ h. ground (arith, h);
        next = refl;
      })

-- `prepare` that returns has also cleared a request to kill.
prepare-Touched :
    (e : ℕ) (k : Kernel)
    → Touched e k (prepare e k).1
      × ((prepare e k).0 ≡ ok tt → ((prepare e k).1.envs e).env_kill_pending ≡ false)
unfolding prepare
prepare-Touched e k =
    let t = env_setup_vm-Touched e k in
    and_then-cases
      (λ (r : Outcome (Unit {0}) × Kernel).
        Touched e k r.1 × (r.0 ≡ ok tt → (r.1.envs e).env_kill_pending ≡ false))
      (env_setup_vm e k) _ (λ _ o bad. (t, λ h. absurd (bad tt h)))
      (λ _ _. (
        record {
          cpus = t.cpus;
          sched = t.sched;
          unused = t.unused;
          others = λ j n. ground (arith, t.others j n);
          status = ground (arith, t.status);
          pending = λ h. ground (arith, h);
          next = t.next;
        },
        λ _. ground arith,
      ))

-- What `env_alloc` leaves when it returns `e`.
pub record Born (parent e : ℕ) (k t : Kernel) : Type 0 where
  pub cpus : t.cpu_data ≡ k.cpu_data
  pub sched : t.env_sched_list ≡ k.env_sched_list
  pub unused : t.env_free_list ≡ remove e k.env_free_list
  pub others : (j : ℕ) → j ≢ e → t.envs j ≡ k.envs j
  pub status : (t.envs e).env_status ≡ (k.envs e).env_status
  pub pending : (t.envs e).env_kill_pending ≡ false
  pub named : (t.envs e).env_id ≡ mkenvid ((k.next_envid + 1) % 2 ^ 32) e
  pub child : (t.envs e).env_parent_id ≡ parent

take_asid-Born :
    (parent e x : ℕ) (k s : Kernel)
    → Touched e k s
    → (s.envs e).env_kill_pending ≡ false
    → (take_asid parent e s).0 ≡ ok x
    → Born parent e k (take_asid parent e s).1 × (x ≡ e)
unfolding take_asid enroll
take_asid-Born parent e x k s t p =
    and_then-cases (λ r. r.0 ≡ ok x → Born parent e k r.1 × (x ≡ e)) (with_asids asid_alloc s)
      (enroll parent e) (λ _ o bad h. absurd (bad x h))
      (λ asid _ h. (
        record {
          cpus = t.cpus;
          sched = t.sched;
          unused = rw t.unused refl;
          others = λ j n. ground (arith, t.others j n);
          status = ground (arith, t.status);
          pending = ground (arith, p);
          named = rw t.next (ground arith);
          child = ground arith;
        },
        ground arith,
      ))

-- The two ends of a call on a state that has the queues of `k`.
abbrev Ends : ℕ → ℕ → Kernel → Outcome ℕ × Kernel → Type 0
Ends parent e k r =
    (((x : ℕ) → r.0 ≢ ok x) → Queues k → Queues r.1)
    × ((x : ℕ) → r.0 ≡ ok x → Born parent e k r.1 × (x ≡ e))

Touched-Queues : (e : ℕ) (k t : Kernel) → Touched e k t → Queues k → Queues t
Touched-Queues e k t s q = record {
  queued = λ i. rw (s.sched, status_at i) (q.queued i);
  unused = λ i. rw (s.unused, status_at i) (q.unused i);
  doomed = λ i h. rw (status_at i) (q.doomed i (pending_at i h));
}
  where
    status_at : (i : ℕ) → (t.envs i).env_status ≡ (k.envs i).env_status
    status_at i = elim (ℕ_discrete i e) [ yes y ↦ rw y s.status | no n ↦ rw (s.others i n) refl ]

    pending_at : (i : ℕ) → (t.envs i).env_kill_pending ≡ true → (k.envs i).env_kill_pending ≡ true
    pending_at i h = elim (ℕ_discrete i e) [
      | yes y ↦ rw y (s.pending (rw y at h))
      | no n ↦ rw (s.others i n) at h
    ]

alloc_at-Ends : (parent e : ℕ) (k : Kernel) → Ends parent e k (alloc_at parent e k)
unfolding alloc_at take_asid enroll
alloc_at-Ends parent e k =
    and_then-cases (Ends parent e k) (prepare e k) (λ _. take_asid parent e)
      (λ _ o bad. ((λ _ q. kept q), λ x h. absurd (bad x h)))
      (λ u done. (
        (λ bad q.
            and_then-cases (λ (r : Outcome ℕ × Kernel). ((x : ℕ) → r.0 ≢ ok x) → Queues r.1)
              (with_asids asid_alloc s) (enroll parent e)
              (λ _ o _ _. same-Queues refl refl refl (kept q))
              (λ asid _ never. absurd (never e refl)) bad),
        λ x h.
            take_asid-Born parent e x k s (prepare-Touched e k).0 ((prepare-Touched e k).1 done) h,
      ))
  where
    s : Kernel
    s = (prepare e k).1

    kept : Queues k → Queues s
    kept = Touched-Queues e k s (prepare-Touched e k).0

-- `env_alloc` takes the head of the free list, or fails and leaves the queues right.
pub env_alloc-cases :
    (parent : ℕ) (k : Kernel)
    → (((x : ℕ) → (env_alloc parent k).0 ≢ ok x) → Queues k → Queues (env_alloc parent k).1)
      × ((x : ℕ)
          → (env_alloc parent k).0 ≡ ok x
          → Born parent x k (env_alloc parent k).1
            × ((rest : List ℕ) × (k.env_free_list ≡ x ∷ rest)))
unfolding env_alloc alloc_first
env_alloc-cases parent k = cases k.env_free_list refl
  where
    cases :
        (l : List ℕ)
        → k.env_free_list ≡ l
        → (((x : ℕ) → (alloc_first parent l k).0 ≢ ok x)
            → Queues k
            → Queues (alloc_first parent l k).1)
          × ((x : ℕ)
              → (alloc_first parent l k).0 ≡ ok x
              → Born parent x k (alloc_first parent l k).1
                × ((rest : List ℕ) × (k.env_free_list ≡ x ∷ rest)))
    cases [] h = ((λ _ q. q), λ x bad. ground (arith, bad))
    cases (e ∷ rest) h =
        let ends = alloc_at-Ends parent e k in
        (
          ends.0,
          λ x got.
              let b = ends.1 x got in
              (
                subst (λ i. Born parent i k (alloc_at parent e k).1) (sym b.1) b.0,
                (rest, h ∙ ap (λ i. i ∷ rest) (sym b.1)),
              ),
        )
