-- ===== src/Kernel.antt =====
-- The kernel's environments and CPUs: include/env.h, kern/env.c, kern/sched.c, kern/syscall_all.c.
pub mod State
pub mod Env
pub mod Sched
pub mod Ipc
pub mod Syscall
pub mod Queues
pub mod CallQueues
pub mod History
pub mod Birth
pub mod Fork
pub mod Steps
pub mod Parts
pub mod Choice
pub mod Fairness
pub mod Message
pub mod Sending
pub mod Access
mod Examples
pub mod Boot
pub mod Device
pub mod Trap
