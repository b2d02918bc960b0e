-- ===== src/Kernel/Ipc.antt =====
-- kern/syscall_all.c: `sys_ipc_recv` and `sys_ipc_try_send`, and the user addresses that they take.
use os_challenging_mission.Pmap.Tlb.{utemp, utop}
use Prim.Native.Nat.{bit_or}
use os_challenging_mission.Base.{
  ℕ, ◌+◌, ◌%◌, ◌^◌, Bool, true, false, not, ◌&&◌, ◌||◌, ◌==◌, ltb, leb, if◌then◌else◌, Option, none,
  some, update,
}
use os_challenging_mission.Errors.{
  M, ok, err, panicked, switched, waiting, inval, ipc_not_recv, ◌>>=◌, ◌>>◌, fail, Outcome,
}
use os_challenging_mission.Pmap.{page_lookup, page_insert, pte_v}
use os_challenging_mission.Kernel.State.{
  runnable, not_runnable, Env, Kernel, set_env, set_cpu, with_pmap, current, enqueue, dequeue,
}
use os_challenging_mission.Kernel.Env.{envid2env}
use os_challenging_mission.Kernel.Sched.{schedule}

unfoldable pub is_illegal_va : ℕ → Bool
is_illegal_va va = ltb va utemp || leb utop va

-- The sum wraps, as u_long is 32 bits wide.
unfoldable pub is_illegal_va_range : ℕ → ℕ → Bool
is_illegal_va_range va len =
    if len == 0
    then false
    else let end_ = (va + len) % 2 ^ 32 in ltb end_ va || ltb va utemp || ltb utop end_

abbrev pub set_v0 : ℕ → ℕ → Kernel → Kernel
set_v0 cpu v k =
    let c = k.cpu_data cpu in
    set_cpu cpu
      (record c { trapframe = record (c.trapframe) { regs = update c.trapframe.regs 2 v } }) k

abbrev pub receiving_fields : ℕ → Env → Env
receiving_fields dstva v = record v {
  env_ipc_recving = true;
  env_ipc_dstva = dstva;
  env_status = not_runnable;
  env_running = false;
  env_cpu_id = none;
}

-- Steps 2 to 4 of `sys_ipc_recv`, under `env_sched_lock`.
unfoldable pub block : ℕ → ℕ → Kernel → Kernel
block dstva e k = dequeue e (set_env e (receiving_fields dstva (k.envs e)) k)

-- Steps 2 to 6, for the current env `e`.
unfoldable pub receive : ℕ → ℕ → ℕ → M Kernel (Unit {0})
unfolding block
receive cpu dstva e k = schedule cpu true (set_v0 cpu 0 (block dstva e k))

unfoldable pub sys_ipc_recv : ℕ → ℕ → M Kernel (Unit {0})
unfolding receive is_illegal_va
sys_ipc_recv cpu dstva k =
    if not (dstva == 0) && is_illegal_va dstva
    then (err inval, k)
    else (do e ← current cpu; receive cpu dstva e) k

-- `e->env_ipc_recving = b`
abbrev pub set_recving : ℕ → Bool → Kernel → Kernel
set_recving e b k = set_env e (record (k.envs e) { env_ipc_recving = b }) k

abbrev pub received_fields : ℕ → ℕ → ℕ → Env → Env
received_fields value from perm v = record v {
  env_ipc_value = value;
  env_ipc_from = from;
  env_ipc_perm = perm;
}

-- Steps 5 and 6: the message, and the wake-up.
unfoldable pub deliver : ℕ → ℕ → ℕ → ℕ → ℕ → M Kernel (Unit {0})
deliver cpu e value ipc_perm c k =
    let v = received_fields value (k.envs c).env_id ipc_perm (k.envs e) in
    (ok tt, enqueue e (set_env e (record v { env_status = runnable }) k))

-- A failure of step 4 lets the target receive again.
unfoldable pub undo : ℕ → {A : Type 0} → Outcome A × Kernel → Outcome A × Kernel
undo e (ok a, k) = (ok a, k)
undo e (err x, k) = (err x, set_recving e true k)
undo e (panicked, k) = (panicked, k)
undo e (switched, k) = (switched, k)
undo e (waiting, k) = (waiting, k)

-- Step 4: the page at `srcva` of the sender goes to `env_ipc_dstva` of the target.
unfoldable pub send_found : ℕ → ℕ → Option (ℕ × ℕ × ℕ) → M Kernel (Unit {0})
send_found e perm none = fail inval
send_found e perm (some (pp, _, _)) = λ k.
    let v = k.envs e in with_pmap (page_insert v.env_pgdir v.env_asid pp v.env_ipc_dstva perm) k

unfoldable pub send_page : ℕ → ℕ → ℕ → ℕ → M Kernel (Unit {0})
unfolding send_found
send_page c e srcva perm k =
    (do found ← with_pmap (page_lookup (k.envs c).env_pgdir srcva); send_found e perm found) k

-- Steps 4 to 6, with the target `e` and the sender `c`.
unfoldable pub hand_over : ℕ → ℕ → ℕ → ℕ → ℕ → ℕ → M Kernel (Unit {0})
unfolding deliver undo send_page
hand_over cpu value srcva perm e c k =
    if srcva == 0
    then deliver cpu e value 0 c k
    else (do λ t. undo e (send_page c e srcva perm t); deliver cpu e value (bit_or pte_v perm) c) k

-- Step 3 and the rest.
unfoldable pub send_to : ℕ → ℕ → ℕ → ℕ → ℕ → ℕ → M Kernel (Unit {0})
unfolding hand_over
send_to cpu value srcva perm e c k =
    if not (k.envs e).env_ipc_recving
    then (err ipc_not_recv, k)
    else hand_over cpu value srcva perm e c (set_recving e false k)

unfoldable pub send_as : ℕ → ℕ → ℕ → ℕ → ℕ → M Kernel (Unit {0})
unfolding send_to
send_as cpu value srcva perm e = do c ← current cpu; send_to cpu value srcva perm e c

unfoldable pub sys_ipc_try_send : ℕ → ℕ → ℕ → ℕ → ℕ → M Kernel (Unit {0})
unfolding is_illegal_va send_as
sys_ipc_try_send cpu envid value srcva perm k =
    if not (srcva == 0) && is_illegal_va srcva
    then (err inval, k)
    else (do e ← envid2env cpu envid false; send_as cpu value srcva perm e) k
