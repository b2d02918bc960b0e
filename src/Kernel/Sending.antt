-- ===== src/Kernel/Sending.antt =====
-- kern/syscall_all.c: `sys_ipc_try_send` as a whole.
use os_challenging_mission.Base.{
  ℕ, ◌≡◌, inl, inr, refl, ap, false, arith, ◌==◌, true, if-cases, sym, ◌∙◌, some, not, ◌&&◌,
}
use os_challenging_mission.Kernel.State.{current, cpu_curenv, Kernel}
use os_challenging_mission.Kernel.Env.{envid2env}
use os_challenging_mission.Kernel.Ipc.{send_as, send_to, sys_ipc_try_send, is_illegal_va}
use os_challenging_mission.Kernel.History.{current-pure, current_is}
use os_challenging_mission.Kernel.CallQueues.{envid2env-pure}
use os_challenging_mission.Errors.{and_then, and_then_ok, and_then_err, Error, err, Outcome, ok}
use os_challenging_mission.Kernel.Message.{Delivered, Unsent, send_to-cases}

-- `sys_ipc_try_send` that returns 0 has given the message to the env of that name, which was
-- waiting for one: its fields say the value, the sender and, if a page went along, the permission;
-- it waits no more and is runnable, last on the list, and no other env has changed. If it returns
-- an error, no env and not the list has changed: an env that was waiting still is.
pub sys_ipc_try_send_lem :
    (cpu envid value srcva perm : ℕ) (k : Kernel)
    → ((sys_ipc_try_send cpu envid value srcva perm k).0 ≡ ok tt
        → (e : ℕ) × (c : ℕ) × (envid2env cpu envid false k ≡ (ok e, k))
          × (cpu_curenv cpu k ≡ some c)
          × ((k.envs e).env_ipc_recving ≡ true)
          × Delivered value srcva perm e c k (sys_ipc_try_send cpu envid value srcva perm k).1)
      × ((x : Error)
          → (sys_ipc_try_send cpu envid value srcva perm k).0 ≡ err x
          → Unsent k (sys_ipc_try_send cpu envid value srcva perm k).1)
unfolding sys_ipc_try_send send_as
sys_ipc_try_send_lem cpu envid value srcva perm k =
    if-cases
      (λ (r : Outcome (Unit {0}) × Kernel).
        (r.0 ≡ ok tt
          → (e : ℕ) × (c : ℕ) × (envid2env cpu envid false k ≡ (ok e, k))
            × (cpu_curenv cpu k ≡ some c)
            × ((k.envs e).env_ipc_recving ≡ true)
            × Delivered value srcva perm e c k r.1)
        × ((x : Error) → r.0 ≡ err x → Unsent k r.1))
      (not (srcva == 0) && is_illegal_va srcva)
      (λ _. ((λ h. absurd (ground (arith, h))), λ x h. ((λ j. refl), refl)))
      (λ _. (returned, failed))
  where
    t : Kernel
    t = (envid2env cpu envid false k).1

    t_is : t ≡ k
    t_is = envid2env-pure cpu envid false k

    u_is : (current cpu t).1 ≡ k
    u_is = current-pure cpu t ∙ t_is

    returned :
        (and_then (envid2env cpu envid false k) (send_as cpu value srcva perm)).0 ≡ ok tt
        → (e : ℕ) × (c : ℕ) × (envid2env cpu envid false k ≡ (ok e, k))
          × (cpu_curenv cpu k ≡ some c)
          × ((k.envs e).env_ipc_recving ≡ true)
          × Delivered value srcva perm e c k
              (and_then (envid2env cpu envid false k) (send_as cpu value srcva perm)).1
    returned h =
        let (e, found, go) =
          and_then_ok (envid2env cpu envid false k) (send_as cpu value srcva perm) h in
        let h2 : (send_as cpu value srcva perm e t).0 ≡ ok tt = sym (ap (λ p. p.0) go) ∙ h in
        let (c, here, went) = and_then_ok (current cpu t) (send_to cpu value srcva perm e) h2 in
        let all : send_as cpu value srcva perm e t ≡ send_to cpu value srcva perm e c k =
          went ∙ ap (send_to cpu value srcva perm e c) u_is in
        let sent = (send_to-cases cpu value srcva perm e c k).0 (sym (ap (λ p. p.0) all) ∙ h2) in
        (
          e,
          c,
          (λ i. (found i, t_is i)),
          current_is cpu k (rw t_is at here),
          sent.0,
          rw (go, all) sent.1,
        )

    failed :
        (x : Error)
        → (and_then (envid2env cpu envid false k) (send_as cpu value srcva perm)).0 ≡ err x
        → Unsent k (and_then (envid2env cpu envid false k) (send_as cpu value srcva perm)).1
    failed x h =
        elim (and_then_err (envid2env cpu envid false k) (send_as cpu value srcva perm) h) [
          | inl (_, stay) ↦ rw (stay, t_is) ((λ j. refl), refl)
          | inr (e, found, go) ↦
              let h2 : (send_as cpu value srcva perm e t).0 ≡ err x = sym (ap (λ p. p.0) go) ∙ h in
              elim (and_then_err (current cpu t) (send_to cpu value srcva perm e) h2) [
                | inl (_, stay) ↦ rw (go, stay, u_is) ((λ j. refl), refl)
                | inr (c, here, went) ↦
                    let all : send_as cpu value srcva perm e t
                        ≡ send_to cpu value srcva perm e c k =
                      went ∙ ap (send_to cpu value srcva perm e c) u_is in
                    rw (go, all)
                      ((send_to-cases cpu value srcva perm e c k).1 x
                        (sym (ap (λ p. p.0) all) ∙ h2))
              ]
        ]
