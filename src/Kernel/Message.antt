-- ===== src/Kernel/Message.antt =====
-- kern/syscall_all.c: what `sys_ipc_try_send` does on each of its ways out.
use Prim.Native.Nat.{bit_or}
use os_challenging_mission.Base.{
  ℕ, ◌≡◌, ◌≢◌, inl, inr, refl, ap, false, [], ◌∷◌, ◌++◌, arith, ◌==◌, if◌then◌else◌, true, if-cases,
  ==_refl, ℕ_discrete, sym, not,
}
use os_challenging_mission.Kernel.Ipc.{send_to, deliver, undo, send_page, hand_over, set_recving}
use os_challenging_mission.Errors.{
  and_then_ok, and_then_err, panicked, switched, waiting, Error, err, Outcome, ok,
}
use os_challenging_mission.Pmap.{pte_v}
use os_challenging_mission.Kernel.State.{runnable, Kernel}
use os_challenging_mission.Kernel.CallQueues.{send_page-Leaves, undo-cases}

-- The target `e` has the message of `c` and is the last of the runnable envs.
pub record Delivered (value srcva perm e c : ℕ) (k t : Kernel) : Type 0 where
  pub value_is : (t.envs e).env_ipc_value ≡ value
  pub from_is : (t.envs e).env_ipc_from ≡ (k.envs c).env_id
  pub perm_is : (t.envs e).env_ipc_perm ≡ (if srcva == 0 then 0 else bit_or pte_v perm)
  pub awake : (t.envs e).env_status ≡ runnable
  pub once : (t.envs e).env_ipc_recving ≡ false
  pub others : (j : ℕ) → j ≢ e → t.envs j ≡ k.envs j
  pub queue : t.env_sched_list ≡ k.env_sched_list ++ e ∷ []

-- No env and no list has changed.
abbrev pub Unsent : Kernel → Kernel → Type 0
Unsent k t = ((j : ℕ) → t.envs j ≡ k.envs j) × (t.env_sched_list ≡ k.env_sched_list)

deliver-Delivered :
    (cpu value srcva perm p e c : ℕ) (k u : Kernel)
    → u.envs ≡ (set_recving e false k).envs
    → u.env_sched_list ≡ k.env_sched_list
    → p ≡ (if srcva == 0 then 0 else bit_or pte_v perm)
    → Delivered value srcva perm e c k (deliver cpu e value p c u).1
unfolding deliver
deliver-Delivered cpu value srcva perm p e c k u same list p_is = record {
  value_is = ground arith;
  from_is = rw same (ground arith);
  perm_is = ground (arith, p_is);
  awake = ground arith;
  once = rw same (ground arith);
  others = λ j n. rw same (ground arith);
  queue = rw list refl;
}

hand_over-Delivered :
    (cpu value srcva perm e c : ℕ) (k : Kernel)
    → (hand_over cpu value srcva perm e c (set_recving e false k)).0 ≡ ok tt
    → Delivered value srcva perm e c k
        (hand_over cpu value srcva perm e c (set_recving e false k)).1
unfolding hand_over
hand_over-Delivered cpu value srcva perm e c k =
    if-cases
      (λ (r : Outcome (Unit {0}) × Kernel). r.0 ≡ ok tt → Delivered value srcva perm e c k r.1)
      (srcva == 0)
      (λ y _. deliver-Delivered cpu value srcva perm 0 e c k u refl refl (ground (arith, y)))
      (λ n h.
        let (_, sent, go) =
          and_then_ok (undo e r) (λ _. deliver cpu e value (bit_or pte_v perm) c) h in
        rw go (
          deliver-Delivered cpu value srcva perm (bit_or pte_v perm) e c k (undo e r).1
            (went sent).0 (went sent).1 (ground (arith, n))))
  where
    u : Kernel
    u = set_recving e false k

    r : Outcome (Unit {0}) × Kernel
    r = send_page c e srcva perm u

    went :
        {x : Unit {0}}
        → (undo e r).0 ≡ ok x
        → ((undo e r).1.envs ≡ u.envs) × ((undo e r).1.env_sched_list ≡ u.env_sched_list)
    went sent =
        let left = send_page-Leaves c e srcva perm u in
        elim (undo-cases e r) [
          | inl h ↦ rw h (left.0, left.1)
          | inr (x, h) ↦ absurd (ground (arith, ap (λ p. p.0) h, sent))
        ]

-- The target gets its `env_ipc_recving` back.
set_recving_back :
    (e : ℕ) (k t : Kernel)
    → (k.envs e).env_ipc_recving ≡ true
    → t.envs ≡ (set_recving e false k).envs
    → (j : ℕ) → (set_recving e true t).envs j ≡ k.envs j
set_recving_back e k t waits same j = rw same (elim (ℕ_discrete j e) [
  | yes y ↦ rw (y, ==_refl e) (ap (λ b. record (k.envs e) { env_ipc_recving = b }) (sym waits))
  | no n ↦ ground (arith, n)
])

undo_err :
    (e : ℕ) {A : Type 0} (r : Outcome A × Kernel) {x : Error}
    → (undo e r).0 ≡ err x
    → (undo e r).1 ≡ set_recving e true r.1
unfolding undo
undo_err e (ok a, k) h = absurd (ground (arith, h))
undo_err e (err x, k) h = refl
undo_err e (panicked, k) h = absurd (ground (arith, h))
undo_err e (switched, k) h = absurd (ground (arith, h))
undo_err e (waiting, k) h = absurd (ground (arith, h))

hand_over-Unsent :
    (cpu value srcva perm e c : ℕ) (k : Kernel) {x : Error}
    → (k.envs e).env_ipc_recving ≡ true
    → (hand_over cpu value srcva perm e c (set_recving e false k)).0 ≡ err x
    → Unsent k (hand_over cpu value srcva perm e c (set_recving e false k)).1
unfolding hand_over deliver
hand_over-Unsent cpu value srcva perm e c k {x} waits =
    if-cases (λ (r : Outcome (Unit {0}) × Kernel). r.0 ≡ err x → Unsent k r.1) (srcva == 0)
      (λ y h. absurd (ground (arith, h)))
      (λ n h. elim (and_then_err (undo e r) (λ _. deliver cpu e value (bit_or pte_v perm) c) h) [
        | inl (failed, stay) ↦ rw stay (back failed)
        | inr (_, sent, go) ↦ absurd (ground (arith, ap (λ p. p.0) go, h))
      ])
  where
    u : Kernel
    u = set_recving e false k

    r : Outcome (Unit {0}) × Kernel
    r = send_page c e srcva perm u

    back : {y : Error} → (undo e r).0 ≡ err y → Unsent k (undo e r).1
    back failed =
        let left = send_page-Leaves c e srcva perm u in
        rw (undo_err e r failed) (set_recving_back e k r.1 waits left.0, left.1)

pub send_to-cases :
    (cpu value srcva perm e c : ℕ) (k : Kernel)
    → ((send_to cpu value srcva perm e c k).0 ≡ ok tt
        → ((k.envs e).env_ipc_recving ≡ true)
          × Delivered value srcva perm e c k (send_to cpu value srcva perm e c k).1)
      × ((x : Error)
          → (send_to cpu value srcva perm e c k).0 ≡ err x
          → Unsent k (send_to cpu value srcva perm e c k).1)
unfolding send_to
send_to-cases cpu value srcva perm e c k =
    if-cases
      (λ (r : Outcome (Unit {0}) × Kernel).
        (r.0 ≡ ok tt → ((k.envs e).env_ipc_recving ≡ true) × Delivered value srcva perm e c k r.1)
        × ((x : Error) → r.0 ≡ err x → Unsent k r.1))
      (not (k.envs e).env_ipc_recving)
      (λ _. ((λ h. absurd (ground (arith, h))), λ x h. ((λ j. refl), refl)))
      (λ n.
        let waits : (k.envs e).env_ipc_recving ≡ true = ground (arith, n) in
        (
          (λ h. (waits, hand_over-Delivered cpu value srcva perm e c k h)),
          λ x h. hand_over-Unsent cpu value srcva perm e c k waits h,
        ))
