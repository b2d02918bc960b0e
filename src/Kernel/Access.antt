-- ===== src/Kernel/Access.antt =====
-- kern/env.c: whom `envid2env` lets a caller name.
use os_challenging_mission.Base.{
  ℕ, ◌≡◌, ◌≢◌, ◌⊎◌, inl, inr, refl, true, false, not, ◌||◌, arith, ◌==◌, some, Bool-cases, ==_ne,
  if-cases,
}
use os_challenging_mission.Errors.{Outcome, ok, err, bad_env}
use os_challenging_mission.Kernel.State.{is_free, Kernel, cpu_curenv, envx}
use os_challenging_mission.Kernel.Env.{envid2env}

-- With `checkperm`, a caller `c` reaches by the name `envid`, other than 0, exactly the env of that
-- name that is in use, if it is the caller's own or a child's; every other name gives -E_BAD_ENV.
pub envid2env_lem :
    (cpu envid c : ℕ) (k : Kernel)
    → cpu_curenv cpu k ≡ some c
    → envid ≢ 0
    → ((envid2env cpu envid true k ≡ (ok (envx envid), k))
        × (is_free (k.envs (envx envid)).env_status ≡ false)
        × ((k.envs (envx envid)).env_id ≡ envid)
        × ((envx envid ≡ c) ⊎ ((k.envs (envx envid)).env_parent_id ≡ (k.envs c).env_id)))
      ⊎ ((envid2env cpu envid true k ≡ (err bad_env, k))
          × ((is_free (k.envs (envx envid)).env_status ≡ true)
              ⊎ ((k.envs (envx envid)).env_id ≢ envid)
              ⊎ ((envx envid ≢ c) × ((k.envs (envx envid)).env_parent_id ≢ (k.envs c).env_id))))
unfolding envid2env
envid2env_lem cpu envid c k at_c named = rw (==_ne envid 0 named) (
    if-cases Answer (is_free (k.envs e).env_status || not ((k.envs e).env_id == envid))
      (λ bad. inr (refl, nameless bad))
      (λ good. rw at_c (
        if-cases Answer (e == c || (k.envs e).env_parent_id == (k.envs c).env_id)
          (λ yes_. inl (refl, ground (arith, good), ground (arith, good), near yes_))
          (λ no_. inr (refl, inr (inr (ground (arith, no_), ground (arith, no_))))))))
  where
    e : ℕ
    e = envx envid

    Answer : Outcome ℕ × Kernel → Type 0
    Answer r =
        ((r ≡ (ok e, k))
          × (is_free (k.envs e).env_status ≡ false)
          × ((k.envs e).env_id ≡ envid)
          × ((e ≡ c) ⊎ ((k.envs e).env_parent_id ≡ (k.envs c).env_id)))
        ⊎ ((r ≡ (err bad_env, k))
            × ((is_free (k.envs e).env_status ≡ true)
                ⊎ ((k.envs e).env_id ≢ envid)
                ⊎ ((e ≢ c) × ((k.envs e).env_parent_id ≢ (k.envs c).env_id))))

    nameless :
        (is_free (k.envs e).env_status || not ((k.envs e).env_id == envid)) ≡ true
        → (is_free (k.envs e).env_status ≡ true)
          ⊎ ((k.envs e).env_id ≢ envid)
          ⊎ ((e ≢ c) × ((k.envs e).env_parent_id ≢ (k.envs c).env_id))
    nameless bad = elim (Bool-cases (is_free (k.envs e).env_status)) [
      | inl y ↦ inl y
      | inr n ↦ inr (inl (ground (arith, bad, n)))
    ]

    near :
        (e == c || (k.envs e).env_parent_id == (k.envs c).env_id) ≡ true
        → (e ≡ c) ⊎ ((k.envs e).env_parent_id ≡ (k.envs c).env_id)
    near h = elim (Bool-cases (e == c)) [
      | inl y ↦ inl (ground (arith, y))
      | inr n ↦ inr (ground (arith, h, n))
    ]
