-- ===== src/Smp.antt =====
-- kern/smp.c, kern/tlbex.c: calls of a function on the other CPUs through mailboxes in shared memory
-- (SMP_USE_MMIO_IPI is 0), one access of shared memory at a time. A function pointer is a number, 0
-- is NULL; that a CPU runs a function is recorded in `ran`, the latest first.
pub mod System
pub mod Handshake
pub mod Delivery
pub mod Caller
pub mod Calls
pub mod Answers
pub mod Nested
pub mod Progress
mod Examples
use Prim.Native.Nat.{bit_and, bit_or}
use os_challenging_mission.Base.{
  ℕ, zero, suc, ◌+◌, ◌-◌, ◌^◌, Bool, true, false, not, ◌||◌, List, ◌∷◌, ◌==◌, leb, if◌then◌else◌,
  Option, none, some, update,
}

-- include/smp.h, include/malta.h
abbrev pub nr_cpus : ℕ
nr_cpus = 2

abbrev pub ipi_start : ℕ
ipi_start = 1

abbrev pub ipi_call : ℕ
ipi_call = 2

abbrev pub smp_boot_wait : ℕ
smp_boot_wait = 0x534d5030

abbrev pub smp_boot_ready_mark : ℕ
smp_boot_ready_mark = 0x534d5031

-- A function with its two arguments.
pub record Call : Type 0 where
  pub fn : ℕ
  pub arg0 : ℕ
  pub arg1 : ℕ

-- IPI_MBOX_FN, IPI_MBOX_ARG0, IPI_MBOX_ARG1
abbrev pub ipi_mbox_fn : ℕ
ipi_mbox_fn = 0

abbrev pub ipi_mbox_arg0 : ℕ
ipi_mbox_arg0 = 1

abbrev pub ipi_mbox_arg1 : ℕ
ipi_mbox_arg1 = 2

-- The entries of one CPU in the arrays of the file.
pub record Row : Type 0 where
  pub ipi_ready : Bool
  pub ipi_done : Bool
  pub ipi_pending : ℕ
  pub ipi_mailbox : ℕ → ℕ
  pub ipi_mailbox_lock : Bool
  pub ran : List Call

pub record Smp : Type 0 where
  pub rows : ℕ → Row
  pub smp_boot_ready : ℕ
  pub timer_schedule_ready : Bool

abbrev pub set_done : Bool → Row → Row
set_done b r = record r { ipi_done = b }

abbrev pub set_pending : ℕ → Row → Row
set_pending w r = record r { ipi_pending = w }

abbrev pub set_ready : Row → Row
set_ready r = record r { ipi_ready = true }

abbrev pub set_lock : Bool → Row → Row
set_lock b r = record r { ipi_mailbox_lock = b }

abbrev pub ipi_mailbox_write : ℕ → ℕ → Row → Row
ipi_mailbox_write slot value r = record r { ipi_mailbox = update r.ipi_mailbox slot value }

abbrev pub ipi_mailbox_read : ℕ → Row → ℕ
ipi_mailbox_read slot r = r.ipi_mailbox slot

abbrev pub note_ran : Call → Row → Row
note_ran call r = record r { ran = call ∷ r.ran }

-- One round of the loop of `smp_init`.
abbrev pub init_row : Row → Row
init_row r = record r {
  ipi_mailbox_lock = false;
  ipi_ready = false;
  ipi_done = true;
  ipi_pending = 0;
}

unfoldable pub init_rows : ℕ → ℕ → (ℕ → Row) → ℕ → Row
init_rows i zero rows = rows
init_rows i (suc n) rows = init_rows (suc i) n (update rows i (init_row (rows i)))

unfoldable pub smp_init : Smp → Smp
unfolding init_rows
smp_init m =
    let rows = init_rows 0 nr_cpus m.rows in
    record m { rows = update rows 0 (set_ready (rows 0)); smp_boot_ready = smp_boot_ready_mark }

abbrev pub smp_note_schedule_ready : ℕ → Smp → Smp
smp_note_schedule_ready cpu m = if cpu == 0 then record m { timer_schedule_ready = true } else m

-- Where `handle_ipi_irq` stands, with the values of its local variables: `seen` has read a status,
-- `clearing` has read the word that `&=` changes, `finished` has run the function.
pub data Handler : Type 0 where
  resting : Handler
  seen : (status : ℕ) → Handler
  clearing : (status value : ℕ) → Handler
  cleared : (status : ℕ) → Handler
  called : Handler
  got_fn : (fn : ℕ) → Handler
  got_arg0 : (fn arg0 : ℕ) → Handler
  got_args : (fn arg0 arg1 : ℕ) → Handler
  finished : Handler

-- `if (fn != 0) fn(arg0, arg1);`
abbrev pub run_fn : ℕ → ℕ → ℕ → Row → Row
run_fn fn arg0 arg1 r =
    if fn == 0 then r else note_ran (record { fn = fn; arg0 = arg0; arg1 = arg1 }) r

-- The next access of `handle_ipi_irq` to its CPU's entries.
unfoldable pub handler_step : Handler → Row → Handler × Row
handler_step resting r = (if r.ipi_pending == 0 then resting else seen r.ipi_pending, r)
handler_step (seen status) r = (clearing status r.ipi_pending, r)
handler_step (clearing status value) r =
    (cleared status, set_pending (bit_and value (2 ^ 32 - 1 - status)) r)
handler_step (cleared status) r = (
  if bit_and status ipi_call == 0 then resting else called,
  if bit_and status ipi_start == 0 then r else set_ready r,
)
handler_step called r = (got_fn (ipi_mailbox_read ipi_mbox_fn r), r)
handler_step (got_fn fn) r = (got_arg0 fn (ipi_mailbox_read ipi_mbox_arg0 r), r)
handler_step (got_arg0 fn arg0) r = (got_args fn arg0 (ipi_mailbox_read ipi_mbox_arg1 r), r)
handler_step (got_args fn arg0 arg1) r = (finished, run_fn fn arg0 arg1 r)
handler_step finished r = (resting, set_done true r)

-- Where `smp_group_function_call` stands in a round of its loop after `spin_lock`: what it did last,
-- or what it is in. `sending` has read the word that `|=` changes.
pub data Stage : Type 0 where
  locked undone put_fn put_arg0 put_arg1 : Stage
  sending : (value : ℕ) → Stage
  polling woken reset : Stage

-- The next access of that round to the entries of the target; none after `spin_unlock`.
unfoldable pub stage_step : Stage → Call → Row → Option Stage × Row
stage_step locked call r = (some undone, set_done false r)
stage_step undone call r = (some put_fn, ipi_mailbox_write ipi_mbox_fn call.fn r)
stage_step put_fn call r = (some put_arg0, ipi_mailbox_write ipi_mbox_arg0 call.arg0 r)
stage_step put_arg0 call r = (some put_arg1, ipi_mailbox_write ipi_mbox_arg1 call.arg1 r)
stage_step put_arg1 call r = (some (sending r.ipi_pending), r)
stage_step (sending value) call r = (some polling, set_pending (bit_or value ipi_call) r)
stage_step polling call r = (some (if r.ipi_done then woken else polling), r)
stage_step woken call r = (some reset, ipi_mailbox_write ipi_mbox_fn 0 r)
stage_step reset call r = (none, set_lock false r)

-- Where a CPU stands in `smp_group_function_call`: outside of it, at the head of its loop, at
-- `spin_lock`, or after it in a round.
pub data Task : Type 0 where
  idle : Task
  scan : (call : Call) → (cpu : ℕ) → Task
  locking : (call : Call) → (cpu : ℕ) → Task
  at : (call : Call) → (cpu : ℕ) → (stage : Stage) → Task

abbrev pub smp_group_function_call : Call → Task
smp_group_function_call call = if call.fn == 0 then idle else scan call 0

unfoldable pub after : Call → ℕ → Option Stage → Task
after call cpu none = scan call (cpu + 1)
after call cpu (some stage) = at call cpu stage

-- The head of the loop: `if (cpu == self || !ipi_ready[cpu]) continue;`
unfoldable pub next_cpu : ℕ → Call → ℕ → Row → Task
next_cpu self call cpu r =
    if leb nr_cpus cpu
    then idle
    else if (cpu == self) || not r.ipi_ready
    then scan call (cpu + 1)
    else locking call cpu

-- The next access of the CPU `self` in `smp_group_function_call`; `spin_lock` takes the lock in one
-- access, and tries again while it is taken.
unfoldable pub task_step : ℕ → Task → (ℕ → Row) → Task × (ℕ → Row)
unfolding stage_step next_cpu after
task_step self idle rows = (idle, rows)
task_step self (scan call cpu) rows = (next_cpu self call cpu (rows cpu), rows)
task_step self (locking call cpu) rows =
    if (rows cpu).ipi_mailbox_lock
    then (locking call cpu, rows)
    else (at call cpu locked, update rows cpu (set_lock true (rows cpu)))
task_step self (at call cpu stage) rows =
    let r = stage_step stage call (rows cpu) in (after call cpu r.0, update rows cpu r.1)

-- `tlb_invalidate`: after its own TLB, the ones of the other CPUs, once the second CPU may start.
abbrev pub tlb_invalidate : ℕ → ℕ → ℕ → Smp → Task
tlb_invalidate tlb_invalidate_local asid va m =
    if m.smp_boot_ready == smp_boot_ready_mark
    then smp_group_function_call (record { fn = tlb_invalidate_local; arg0 = asid; arg1 = va })
    else idle
