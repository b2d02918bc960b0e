-- ===== src/Kernel/Syscall.antt =====
-- kern/syscall_all.c: the calls on environments and their memory. `cpu` is the CPU that traps.
use os_challenging_mission.Base.{
  ℕ, Bool, true, not, ◌&&◌, ◌||◌, ◌==◌, if◌then◌else◌, none, some, update,
}
use os_challenging_mission.Errors.{M, ok, err, inval, ◌>>=◌, ◌>>◌, fail}
use os_challenging_mission.Pmap.{page_alloc, page_lookup, page_insert, page_remove}
use os_challenging_mission.Kernel.State.{
  Trapframe, free, runnable, not_runnable, Env, Kernel, cpu_curenv, set_env, set_cpu, with_pmap,
  current, enqueue, dequeue,
}
use os_challenging_mission.Kernel.Env.{envid2env, env_alloc}
use os_challenging_mission.Kernel.Sched.{is_cpu, schedule, env_destroy}
use os_challenging_mission.Kernel.Ipc.{is_illegal_va, is_illegal_va_range}

unfoldable pub sys_getenvid : ℕ → M Kernel ℕ
sys_getenvid cpu = do c ← current cpu; λ k. (ok ((k.envs c).env_id), k)

unfoldable pub sys_yield : ℕ → M Kernel (Unit {0})
sys_yield cpu = schedule cpu true

-- The message that names both, and `env_destroy`.
unfoldable pub destroy_named : ℕ → ℕ → M Kernel (Unit {0})
destroy_named cpu e = do current cpu; env_destroy cpu e

unfoldable pub sys_env_destroy : ℕ → ℕ → M Kernel (Unit {0})
unfolding destroy_named
sys_env_destroy cpu envid = do e ← envid2env cpu envid true; destroy_named cpu e

unfoldable pub sys_set_tlb_mod_entry : ℕ → ℕ → ℕ → M Kernel (Unit {0})
sys_set_tlb_mod_entry cpu envid func = do
  e ← envid2env cpu envid true
  λ k. (ok tt, set_env e (record (k.envs e) { env_user_tlb_mod_entry = func }) k)

unfoldable pub sys_mem_alloc : ℕ → ℕ → ℕ → ℕ → M Kernel (Unit {0})
unfolding is_illegal_va
sys_mem_alloc cpu envid va perm = if is_illegal_va va then fail inval else (do
  e ← envid2env cpu envid true
  pp ← with_pmap page_alloc
  λ k. with_pmap (page_insert (k.envs e).env_pgdir (k.envs e).env_asid pp va perm) k)

unfoldable pub sys_mem_map : ℕ → ℕ → ℕ → ℕ → ℕ → ℕ → M Kernel (Unit {0})
unfolding is_illegal_va
sys_mem_map cpu srcid srcva dstid dstva perm =
    if is_illegal_va srcva || is_illegal_va dstva then fail inval else (do
      src ← envid2env cpu srcid true
      dst ← envid2env cpu dstid true
      found ← λ k. with_pmap (page_lookup (k.envs src).env_pgdir srcva) k
      elim found [
        | none ↦ fail inval
        | some (pp, _, _) ↦ λ k.
            with_pmap (page_insert (k.envs dst).env_pgdir (k.envs dst).env_asid pp dstva perm) k
      ])

unfoldable pub sys_mem_unmap : ℕ → ℕ → ℕ → M Kernel (Unit {0})
unfolding is_illegal_va
sys_mem_unmap cpu envid va = if is_illegal_va va then fail inval else (do
  e ← envid2env cpu envid true
  λ k. with_pmap (page_remove (k.envs e).env_pgdir (k.envs e).env_asid va) k)

-- What the child keeps of its parent: the trap frame, with 0 in $v0, and the priority.
abbrev pub child_fields : Trapframe → ℕ → Env → Env
child_fields tf pri v = record v {
  env_tf = record tf { regs = update tf.regs 2 0 };
  env_status = not_runnable;
  env_pri = pri;
}

-- Steps 2 to 4 of `sys_exofork`, and its result.
unfoldable pub copy_parent : ℕ → ℕ → ℕ → M Kernel ℕ
copy_parent cpu e c k =
    let tf = (k.cpu_data cpu).trapframe in
    (ok ((k.envs e).env_id), set_env e (child_fields tf (k.envs c).env_pri (k.envs e)) k)

unfoldable pub fork_from : ℕ → ℕ → M Kernel ℕ
unfolding copy_parent
fork_from cpu e = do c ← current cpu; copy_parent cpu e c

unfoldable pub bear_child : ℕ → ℕ → M Kernel ℕ
unfolding fork_from
bear_child cpu parent = do e ← env_alloc parent; fork_from cpu e

unfoldable pub sys_exofork : ℕ → M Kernel ℕ
unfolding sys_getenvid bear_child
sys_exofork cpu = do parent ← sys_getenvid cpu; bear_child cpu parent

-- Steps 3 and 4 of `sys_set_env_status`, under `env_sched_lock`; `wakes` is `status == ENV_RUNNABLE`.
unfoldable pub change_status : ℕ → Bool → Kernel → Kernel
change_status e wakes k =
    let t =
      set_env e (record (k.envs e) { env_status = if wakes then runnable else not_runnable }) k in
    elim (k.envs e).env_status [
      | free ↦ if wakes then enqueue e t else dequeue e t
      | runnable ↦ if wakes then t else dequeue e t
      | not_runnable ↦ if wakes then enqueue e t else t
    ]

-- Steps 3 to 5. ENV_RUNNABLE is 1 and ENV_NOT_RUNNABLE is 2.
unfoldable pub set_status : ℕ → ℕ → ℕ → M Kernel (Unit {0})
unfolding change_status
set_status cpu status e k =
    let t = change_status e (status == 1) k in
    if is_cpu (cpu_curenv cpu t) e then schedule cpu true t else (ok tt, t)

unfoldable pub sys_set_env_status : ℕ → ℕ → ℕ → M Kernel (Unit {0})
unfolding set_status
sys_set_env_status cpu envid status k =
    if not (status == 1) && not (status == 2)
    then (err inval, k)
    else (do e ← envid2env cpu envid true; set_status cpu status e) k

-- `tf` is the frame that the user has at the address `at_`.
unfoldable pub sys_set_trapframe : ℕ → ℕ → ℕ → Trapframe → M Kernel ℕ
unfolding is_illegal_va_range
sys_set_trapframe cpu envid at_ tf = if is_illegal_va_range at_ 152 then fail inval else (do
  e ← envid2env cpu envid true
  λ k.
      if is_cpu (cpu_curenv cpu k) e
      then (ok (tf.regs 2), set_cpu cpu (record (k.cpu_data cpu) { trapframe = tf }) k)
      else (ok 0, set_env e (record (k.envs e) { env_tf = tf }) k))
