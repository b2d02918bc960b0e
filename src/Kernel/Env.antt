-- ===== src/Kernel/Env.antt =====
-- kern/env.c: the life of an environment.
use Prim.Native.Nat.{bit_or}
use os_challenging_mission.Base.{
  ℕ, zero, suc, ◌+◌, ◌*◌, ◌%◌, ◌^◌, Bool, List, true, false, not, ◌&&◌, ◌||◌, [], ◌∷◌, ◌==◌, ltb,
  leb, if◌then◌else◌, none, some, update, remove,
}
use os_challenging_mission.Errors.{M, ok, err, panicked, bad_env, no_free_env, ◌>>=◌, ◌>>◌}
use os_challenging_mission.Pmap.{
  Pmap, page_alloc, page_remove, page_decref, is_valid, pa2page, ref_inc, write_word,
  tlb_invalidate, page2pa, pte_v,
}
use os_challenging_mission.Asid.{asid_alloc, asid_free}
use os_challenging_mission.Kernel.State.{
  free, is_free, is_runnable, envx, Env, Kernel, cpu_curenv, set_env, with_pmap, with_asids,
  current,
}

-- `((++i) << (1 + LOG2NENV)) | (e - envs)` on a u_int
unfoldable pub mkenvid : ℕ → ℕ → ℕ
mkenvid i e = bit_or (i * 2048 % 2 ^ 32) e

unfoldable pub envid2env : ℕ → ℕ → Bool → M Kernel ℕ
envid2env cpu envid checkperm k =
    if envid == 0
    then current cpu k
    else let e = envx envid in
      if is_free (k.envs e).env_status || not ((k.envs e).env_id == envid)
      then (err bad_env, k)
      else if not checkperm
      then (ok e, k)
      else elim (cpu_curenv cpu k) [
        | none ↦ (panicked, k)
        | some c ↦
            if e == c || (k.envs e).env_parent_id == (k.envs c).env_id
            then (ok e, k)
            else (err bad_env, k)
      ]

-- PDX(UTOP) and PDX(UVPT)
abbrev pub pdx_utop : ℕ
pdx_utop = 509

abbrev pub pdx_uvpt : ℕ
pdx_uvpt = 511

-- The directory of a new env: the template between UTOP and UVPT, and itself at UVPT.
abbrev pub env_directory : (template fresh : ℕ → ℕ) → ℕ → ℕ → ℕ
env_directory template fresh pp i =
    if i == pdx_uvpt
    then bit_or (page2pa pp) pte_v
    else if leb pdx_utop i && ltb i pdx_uvpt
    then template i
    else fresh i

unfoldable pub env_setup_vm : ℕ → M Kernel (Unit {0})
env_setup_vm e = do
  pp ← with_pmap page_alloc
  λ k.
      let p = ref_inc pp k.pmap in
      (
        ok tt,
        record k {
          pmap = record p {
            memory = update p.memory pp (env_directory (p.memory k.base_pgdir) (p.memory pp) pp);
          };
          envs = update k.envs e (record (k.envs e) { env_pgdir = pp });
        },
      )

-- STATUS_IM6 | STATUS_IM7 | STATUS_IE | STATUS_EXL | STATUS_UM
abbrev pub user_status : ℕ
user_status = 0xc013

-- USTACKTOP - sizeof(int) - sizeof(char **)
abbrev pub first_sp : ℕ
first_sp = 0x7f3fdff8

abbrev pub fresh_fields : Env → Env
fresh_fields v = record v {
  env_user_tlb_mod_entry = 0;
  env_runs = 0;
  env_cpu_id = none;
  env_running = false;
  env_pinned_cpu = none;
  env_kill_pending = false;
}

-- Steps 3 and 4 of `env_alloc`, from the identifier on.
abbrev pub named_fields : ℕ → ℕ → ℕ → Env → Env
named_fields asid envid parent v = record v {
  env_asid = asid;
  env_id = envid;
  env_parent_id = parent;
  env_tf = record (v.env_tf) { cp0_status = user_status; regs = update v.env_tf.regs 29 first_sp };
}

-- Step 2 and the start of step 3.
unfoldable pub prepare : ℕ → M Kernel (Unit {0})
unfolding env_setup_vm
prepare e = do env_setup_vm e; λ k. (ok tt, set_env e (fresh_fields (k.envs e)) k)

-- The identifier, the registers and the free list.
unfoldable pub enroll : ℕ → ℕ → ℕ → M Kernel ℕ
unfolding mkenvid
enroll parent e asid k =
    let i = (k.next_envid + 1) % 2 ^ 32 in
    (
      ok e,
      record k {
        next_envid = i;
        envs = update k.envs e (named_fields asid (mkenvid i e) parent (k.envs e));
        env_free_list = remove e k.env_free_list;
      },
    )

unfoldable pub take_asid : ℕ → ℕ → M Kernel ℕ
unfolding enroll
take_asid parent e = do asid ← with_asids asid_alloc; enroll parent e asid

unfoldable pub alloc_at : ℕ → ℕ → M Kernel ℕ
unfolding prepare take_asid
alloc_at parent e = do prepare e; take_asid parent e

-- `alloc_at` with the first of the free envs.
unfoldable pub alloc_first : ℕ → List ℕ → M Kernel ℕ
unfolding alloc_at
alloc_first parent [] k = (err no_free_env, k)
alloc_first parent (e ∷ rest) k = alloc_at parent e k

unfoldable pub env_alloc : ℕ → M Kernel ℕ
unfolding alloc_first
env_alloc parent k = alloc_first parent k.env_free_list k

-- The loop over one page table: `n` entries from `pteno`.
free_ptes : ℕ → ℕ → ℕ → ℕ → ℕ → ℕ → M Pmap (Unit {0})
free_ptes pgdir asid pt pdeno zero pteno s = (ok tt, s)
free_ptes pgdir asid pt pdeno (suc n) pteno s =
    let rest = free_ptes pgdir asid pt pdeno n (suc pteno) in
    if is_valid (s.memory pt pteno)
    then (do page_remove pgdir asid (pdeno * 2 ^ 22 + pteno * 2 ^ 12); rest) s
    else rest s

-- The loop over the directory: `n` entries from `pdeno`.
free_pdes : ℕ → ℕ → ℕ → ℕ → M Pmap (Unit {0})
unfolding free_ptes
free_pdes pgdir asid zero pdeno s = (ok tt, s)
free_pdes pgdir asid (suc n) pdeno s =
    let rest = free_pdes pgdir asid n (suc pdeno) in
    if is_valid (s.memory pgdir pdeno)
    then (do
      let pde = s.memory pgdir pdeno
      pt ← pa2page pde
      free_ptes pgdir asid pt pdeno 1024 0
      λ t. (ok tt, write_word (pgdir, pdeno) 0 t)
      page_decref pt
      λ t. (ok tt, tlb_invalidate asid (0x7fc00000 + pdeno * 2 ^ 12) t)
      rest)
        s
    else rest s

-- The memory that `env_free` gives back.
unfoldable pub free_memory : ℕ → ℕ → M Pmap (Unit {0})
unfolding free_pdes
free_memory pgdir asid = do free_pdes pgdir asid pdx_utop 0; page_decref pgdir

abbrev pub freed_fields : Env → Env
freed_fields v = record v {
  env_status = free;
  env_running = false;
  env_cpu_id = none;
  env_pinned_cpu = none;
  env_kill_pending = false;
  env_kill_done = true;
}

-- The last part of `env_free`, under `env_sched_lock`.
unfoldable pub retire : ℕ → Kernel → Kernel
retire e k =
    let queue =
      if is_runnable (k.envs e).env_status then remove e k.env_sched_list else k.env_sched_list in
    record k {
      env_sched_list = queue;
      envs = update k.envs e (freed_fields (k.envs e));
      env_free_list = e ∷ k.env_free_list;
    }

-- What `env_free` gives back: the memory, and the identifier of the address space.
unfoldable pub free_space : ℕ → M Kernel (Unit {0})
free_space e k = with_pmap (free_memory (k.envs e).env_pgdir (k.envs e).env_asid) k

unfoldable pub free_asid : ℕ → M Kernel (Unit {0})
free_asid e k =
    let asid = (k.envs e).env_asid in
    (
      ok tt,
      record k {
        asid_bitmap = asid_free asid k.asid_bitmap;
        pmap = tlb_invalidate asid (0x7fc00000 + pdx_uvpt * 2 ^ 12) k.pmap;
      },
    )

unfoldable pub give_back : ℕ → M Kernel (Unit {0})
unfolding free_space free_asid
give_back e = do free_space e; free_asid e

unfoldable pub env_free : ℕ → M Kernel (Unit {0})
unfolding give_back
env_free e = do give_back e; λ t. (ok tt, retire e t)
