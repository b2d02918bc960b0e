-- ===== src/Kernel/Trap.antt =====
-- kern/tlbex.c: `do_tlb_mod`, which hands a write to a page that is not writable to the user.
use os_challenging_mission.Base.{
  ℕ, ◌+◌, ◌-◌, ◌≤◌, ◌≡◌, ◌||◌, arith, ◌==◌, ltb, leb, if◌then◌else◌, update,
}
use os_challenging_mission.Errors.{M, ok, panicked, ◌>>=◌, ◌>>◌}
use os_challenging_mission.Kernel.State.{Kernel, Trapframe, with_pmap, current, set_cpu}
use os_challenging_mission.Pmap.Tlb.{ustacktop, utop}
use os_challenging_mission.Pmap.{page_lookup}

-- sizeof(struct Trapframe)
abbrev pub frame_size : ℕ
frame_size = 152

-- The stack of the user's handler: a handler that faults again goes on below its own frame.
abbrev pub frame_at : ℕ → ℕ
frame_at sp = (if ltb sp ustacktop || leb utop sp then utop else sp) - frame_size

-- The frame that the trap returns with.
abbrev pub enter_handler : ℕ → Trapframe → Trapframe
enter_handler entry tf =
    let sp = frame_at (tf.regs 29) in
    record tf { regs = update (update tf.regs 4 sp) 29 (sp - 4); cp0_epc = entry }

-- The result is where in the user's memory the frame of the trap is stored, and the frame.
unfoldable pub do_tlb_mod : ℕ → M Kernel (ℕ × Trapframe)
do_tlb_mod cpu k =
    let c = k.cpu_data cpu in
    (do
      with_pmap (page_lookup c.cur_pgdir c.trapframe.cp0_badvaddr)
      e ← current cpu
      λ t.
          let entry = (t.envs e).env_user_tlb_mod_entry in
          if entry == 0 then (panicked, t) else (
            ok (frame_at (c.trapframe.regs 29), c.trapframe),
            set_cpu cpu (record c { trapframe = enter_handler entry c.trapframe }) t,
          ))
      k

frame_at-le : (sp : ℕ) → frame_at sp + frame_size ≤ utop
frame_at-le sp = ground arith

next_frame :
    (y : ℕ)
    → ustacktop + 4 ≤ y
    → y + frame_size ≤ utop
    → ustacktop + 156 ≤ y
    → frame_at (y - 4) + frame_size + 4 ≡ y
next_frame y h l m = ground (arith, h, l, m)

-- The frame of a fault in the handler stands below the frame that the handler works on, as long as
-- the stack lasts.
pub frame_at-enter_handler :
    (entry : ℕ) (tf : Trapframe)
    → ustacktop + 156 ≤ frame_at (tf.regs 29)
    → frame_at ((enter_handler entry tf).regs 29) + frame_size + 4 ≡ frame_at (tf.regs 29)
frame_at-enter_handler entry tf l =
    next_frame (frame_at (tf.regs 29)) (omega (arith, l)) (frame_at-le (tf.regs 29)) l
