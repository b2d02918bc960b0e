-- ===== src/Kernel/Parts.antt =====
-- kern/syscall_all.c: the parts of `sys_ipc_try_send`, one after another.
use os_challenging_mission.Base.{ℕ, ◌≡◌, refl}
use os_challenging_mission.Kernel.State.{Kernel}
use os_challenging_mission.Kernel.Steps.{Send, no_send, send_step}

abbrev pub go_on : ℕ → Send × Kernel → Send × Kernel
go_on cpu r = send_step cpu r.0 r.1

no_send-stays : (cpu : ℕ) (k : Kernel) → go_on cpu (no_send, k) ≡ (no_send, k)
unfolding send_step
no_send-stays cpu k = refl
