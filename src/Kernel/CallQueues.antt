-- ===== src/Kernel/CallQueues.antt =====
-- kern/syscall_all.c: the system calls keep `env_sched_list` and `env_free_list` right.
use os_challenging_mission.Base.{
  ℕ, ◌≡◌, inl, inr, refl, Bool, true, false, [], ◌∷◌, arith, Option, none, some, Option-cases, ◌⊎◌,
  count-append, count-remove,
}
use os_challenging_mission.Errors.{
  ok, and_then_keeps, Outcome, Error, err, panicked, switched, waiting,
}
use os_challenging_mission.Pmap.{page_lookup}
use os_challenging_mission.Kernel.State.{
  Leaves, is_free, is_runnable, Kernel, cpu_curenv, with_pmap,
}
use os_challenging_mission.Kernel.Env.{envid2env}
use os_challenging_mission.Kernel.Ipc.{block, deliver, send_page, send_found, undo, set_recving}
use os_challenging_mission.Kernel.Syscall.{change_status}
use os_challenging_mission.Kernel.Queues.{Queues}

-- A call on an env of the caller's: `envid2env` names one that is in use, as long as the
-- caller's own is, and changes nothing.
pub envid2env_used :
    (cpu envid : ℕ) (checks : Bool) (k : Kernel) (e : ℕ)
    → ((c : ℕ) → cpu_curenv cpu k ≡ some c → is_free (k.envs c).env_status ≡ false)
    → (envid2env cpu envid checks k).0 ≡ ok e
    → is_free (k.envs e).env_status ≡ false
unfolding envid2env
envid2env_used cpu envid checks k e alive h = elim (Option-cases (cpu_curenv cpu k)) [
  | inl i ↦ ground (arith, i)
  | inr (c, i) ↦ ground (arith, i, alive c i)
]

pub envid2env-pure :
    (cpu envid : ℕ) (checks : Bool) (k : Kernel) → (envid2env cpu envid checks k).1 ≡ k
unfolding envid2env
envid2env-pure cpu envid checks k = elim (Option-cases (cpu_curenv cpu k)) [
  | inl i ↦ ground (arith, i)
  | inr (c, i) ↦ ground (arith, i)
]

pub block-Queues :
    (dstva e : ℕ) (k : Kernel)
    → is_runnable (k.envs e).env_status ≡ true
    → Queues k
    → Queues (block dstva e k)
unfolding block
block-Queues dstva e k running q = record {
  queued = λ i. ground (arith, q.queued i, count-remove i e k.env_sched_list);
  unused = λ i. ground (arith, q.unused i, running);
  doomed = λ i. ground (arith, q.doomed i);
}

pub change_status-Queues :
    (e : ℕ) (wakes : Bool) (k : Kernel)
    → is_free (k.envs e).env_status ≡ false
    → Queues k
    → Queues (change_status e wakes k)
unfolding change_status
change_status-Queues e wakes k used q = record {
  queued = λ i. ground (
    arith,
    q.queued i,
    q.queued e,
    count-append i k.env_sched_list (e ∷ []),
    count-remove i e k.env_sched_list,
  );
  unused = λ i. ground (arith, q.unused i, used);
  doomed = λ i. ground (arith, q.doomed i);
}

pub deliver-Queues :
    (cpu e value perm c : ℕ) (k : Kernel)
    → is_free (k.envs e).env_status ≡ false
    → is_runnable (k.envs e).env_status ≡ false
    → Queues k
    → Queues (deliver cpu e value perm c k).1
unfolding deliver
deliver-Queues cpu e value perm c k used blocked q = record {
  queued = λ i. ground (arith, q.queued i, q.queued e, count-append i k.env_sched_list (e ∷ []));
  unused = λ i. ground (arith, q.unused i);
  doomed = λ i. ground (arith, q.doomed i);
}

-- Moving the page changes the memory only.
pub send_page-Leaves : (c e srcva perm : ℕ) (k : Kernel) → Leaves k (send_page c e srcva perm k).1
unfolding send_page send_found
send_page-Leaves c e srcva perm k =
    and_then_keeps (Leaves k) (with_pmap (page_lookup (k.envs c).env_pgdir srcva) k)
      (send_found e perm) (refl, refl, refl) (λ found _. cases found)
  where
    cases :
        (found : Option (ℕ × ℕ × ℕ))
        → Leaves k
            (send_found e perm found (with_pmap (page_lookup (k.envs c).env_pgdir srcva) k).1).1
    cases none = (refl, refl, refl)
    cases (some p) = (refl, refl, refl)

-- The two ends of step 4: the envs as they were, or the target back in wait after an error.
pub undo-cases :
    (e : ℕ) {A : Type 0} (r : Outcome A × Kernel)
    → (undo e r ≡ r) ⊎ ((x : Error) × (undo e r ≡ (err x, set_recving e true r.1)))
unfolding undo
undo-cases e (ok a, k) = inl refl
undo-cases e (err x, k) = inr (x, refl)
undo-cases e (panicked, k) = inl refl
undo-cases e (switched, k) = inl refl
undo-cases e (waiting, k) = inl refl
