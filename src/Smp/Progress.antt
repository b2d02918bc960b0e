-- ===== src/Smp/Progress.antt =====
-- kern/smp.c: a caller that waits is answered.
use os_challenging_mission.Smp.{Smp}
use os_challenging_mission.Base.{ℕ, ◌≡◌, true}
use os_challenging_mission.Smp.System.{System, Step, Steps, later, stay}

pub first : {s t u : System} → Step s t → Steps t u → Steps s u
first x stay = later stay x
first x (later r y) = later (first x r) y

-- Steps that move no CPU in `smp_group_function_call` lead to where the call on `k` is done.
abbrev pub Answers : System → ℕ → Type 0
Answers s k = (u : System) × Steps s u × ((u.rows k).ipi_done ≡ true) × (u.task ≡ s.task)
