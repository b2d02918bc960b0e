-- ===== src/Kernel/State.antt =====
-- include/env.h, include/trap.h and include/smp.h: what the kernel knows of environments and CPUs.
-- A `struct Env *` is an index of `envs`, a `Pde *` the page of the directory. -1 in an `int` field
-- that names a CPU is `none`. The two intrusive lists are lists of indices.
use os_challenging_mission.Base.{
  ℕ, ◌%◌, Bool, true, false, List, [], ◌∷◌, ◌++◌, ◌≡◌, Option, none, some, update, remove,
}
use os_challenging_mission.Base.Bitmap.{Bitmap}
use os_challenging_mission.Errors.{M, ok, panicked}
use os_challenging_mission.Pmap.{Pmap}

pub record Trapframe : Type 0 where
  pub regs : ℕ → ℕ
  pub cp0_status : ℕ
  pub hi : ℕ
  pub lo : ℕ
  pub cp0_badvaddr : ℕ
  pub cp0_cause : ℕ
  pub cp0_epc : ℕ

-- ENV_FREE, ENV_RUNNABLE and ENV_NOT_RUNNABLE
pub data Status : Type 0 where
  free runnable not_runnable : Status

abbrev pub is_free : Status → Bool
is_free free = true
is_free _ = false

abbrev pub is_runnable : Status → Bool
is_runnable runnable = true
is_runnable _ = false

abbrev pub nenv : ℕ
nenv = 1024

-- ENVX
abbrev pub envx : ℕ → ℕ
envx envid = envid % 1024

pub record Env : Type 0 where
  pub env_tf : Trapframe
  pub env_id : ℕ
  pub env_asid : ℕ
  pub env_parent_id : ℕ
  pub env_status : Status
  pub env_pgdir : ℕ
  pub env_pri : ℕ
  pub env_ipc_value : ℕ
  pub env_ipc_from : ℕ
  pub env_ipc_recving : Bool
  pub env_ipc_dstva : ℕ
  pub env_ipc_perm : ℕ
  pub env_user_tlb_mod_entry : ℕ
  pub env_runs : ℕ
  pub env_cpu_id : Option ℕ
  pub env_running : Bool
  pub env_pinned_cpu : Option ℕ
  pub env_kill_pending : Bool
  pub env_kill_done : Bool

-- `struct cpu_local_data`, with the frame that the last trap left on the CPU's kernel stack.
-- `sched_count` is the bit pattern of an `int`.
pub record Cpu : Type 0 where
  pub curenv : Option ℕ
  pub cur_pgdir : ℕ
  pub sched_count : ℕ
  pub trapframe : Trapframe

pub record Kernel : Type 0 where
  pub pmap : Pmap
  pub envs : ℕ → Env
  pub env_free_list : List ℕ
  pub env_sched_list : List ℕ
  pub base_pgdir : ℕ
  pub asid_bitmap : Bitmap
  pub next_envid : ℕ  -- `i` of `mkenvid`
  pub cpu_data : ℕ → Cpu

abbrev pub cpu_curenv : ℕ → Kernel → Option ℕ
cpu_curenv cpu k = (k.cpu_data cpu).curenv

abbrev pub set_env : ℕ → Env → Kernel → Kernel
set_env e v k = record k { envs = update k.envs e v }

abbrev pub set_cpu : ℕ → Cpu → Kernel → Kernel
set_cpu cpu c k = record k { cpu_data = update k.cpu_data cpu c }

-- A call on physical memory or on the identifiers, as a call on the kernel.
abbrev pub with_pmap : {A : Type 0} → M Pmap A → M Kernel A
with_pmap m k = ((m k.pmap).0, record k { pmap = (m k.pmap).1 })

abbrev pub with_asids : {A : Type 0} → M Bitmap A → M Kernel A
with_asids m k = ((m k.asid_bitmap).0, record k { asid_bitmap = (m k.asid_bitmap).1 })

-- `cpu_curenv()` where the caller dereferences it.
abbrev pub or_stop : {A : Type 0} → Option A → M Kernel A
or_stop none k = (panicked, k)
or_stop (some a) k = (ok a, k)

abbrev pub current : ℕ → M Kernel ℕ
current cpu k = or_stop (cpu_curenv cpu k) k

-- TAILQ_INSERT_TAIL and TAILQ_REMOVE on `env_sched_list`
abbrev pub enqueue : ℕ → Kernel → Kernel
enqueue e k = record k { env_sched_list = k.env_sched_list ++ e ∷ [] }

abbrev pub dequeue : ℕ → Kernel → Kernel
dequeue e k = record k { env_sched_list = remove e k.env_sched_list }

-- `t` has the envs and both lists of `k`.
abbrev pub Leaves : Kernel → Kernel → Type 0
Leaves k t =
    (t.envs ≡ k.envs) × (t.env_sched_list ≡ k.env_sched_list) × (t.env_free_list ≡ k.env_free_list)
