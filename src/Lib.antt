-- ===== src/Lib.antt =====
-- MOS, a teaching kernel for MIPS that runs on several CPUs: a model of its core and what holds of it.
--
-- The parts and how they interact. A trap enters the kernel on one CPU and calls a system call of
-- kern/syscall_all.c. These look up an env by its id (`envid2env` of kern/env.c), change its fields
-- and its address space (kern/pmap.c) and end in `schedule` (kern/sched.c) if the CPU is given up.
-- The file system is an env too, which the others send requests as messages. The scheduler chooses
-- from `env_sched_list`, and `env_run` switches the CPU. An env that is destroyed gives back its
-- pages, its address space identifier and its slot.
--
-- The files:
--   Base      numbers, lists, arrays as functions, bits of words and bitmaps
--   Errors    include/error.h; `M S A`, a call on a state S: a value, an error, a panic, a switch of
--             the CPU to another env, or a wait, with the state that is left
--   Pmap      kern/pmap.c, include/pmap.h, include/mmu.h. The state `Pmap` is the free list, the
--             reference counts and the words of memory; `pages[i]` is the number i
--             Pmap/Free, Pmap/History: the free list; Pmap/Init: its start; Pmap/Entry, Pmap/Tabled:
--             page tables; Pmap/Mapping, Pmap/Unmap: translations; Pmap/Tlb,
--             Pmap/Refill: the TLB refill of kern/tlbex.c
--   Asid      kern/env.c: `asid_alloc` and `asid_free`
--   Kernel    Kernel/State: include/env.h, include/trap.h, include/smp.h; Kernel/Env: kern/env.c;
--             Kernel/Sched: kern/sched.c, with `env_run` and `env_destroy` of kern/env.c; Kernel/Ipc
--             and Kernel/Syscall: kern/syscall_all.c; Kernel/Boot: `env_init`
--             Kernel/Queues, Kernel/CallQueues, Kernel/Birth, Kernel/Fork, Kernel/History,
--             Kernel/Steps: the run queue and the free list; Kernel/Parts: the parts of a send;
--             Kernel/Choice, Kernel/Fairness: the scheduler; Kernel/Message, Kernel/Sending:
--             messages; Kernel/Access: `envid2env`; Kernel/Device: the check of the device calls;
--             Kernel/Trap: `do_tlb_mod` of kern/tlbex.c
--   Pipe      user/lib/pipe.c: `pipe_read` and `pipe_write` as steps that interleave; Pipe/Streams,
--             Pipe/Fifo: the order of the bytes
--   Fs        fs/fs.c and user/include/fs.h: the file system. Fs is the block cache, Fs/Blocks the
--             bitmap, Fs/File the blocks of a file, Fs/Dir directories, Fs/Path paths, Fs/Ops the
--             calls that resize, write back, close and remove files
--             Fs/Allocation, Fs/Allocating: the bitmap; Fs/Cache: cache and disk; Fs/Mapping: direct
--             blocks; Fs/Lookup, Fs/Walk: directories and paths
--   Serv      fs/serv.c: the server of the file system, which holds `fs_lock` for each request;
--             Serv/Table: the open files; Serv/Replies: requests and replies
--   Queue     include/queue.h: LIST and TAILQ as pointers in a heap; Queue/Segment, Queue/Refine,
--             Queue/Removal, Queue/Operations: the lists that they stand for, which Kernel and Pmap use
--   Descriptors  user/lib/fd.c: descriptors as pages of an env, with the devices as parameters;
--             Descriptors/Table: `fd_alloc`; Descriptors/Dup, Descriptors/Sharing: `dup`
--   Print     lib/print.c: `print_num` and `print_char`; Print/Digits: the digits; Print/Format:
--             `vprintfmt` and `print_str`
--   Memory    lib/string.c: `memcpy` (Memory, Memory/Copy) and `memset` (Memory/Fill)
--   Smp       kern/smp.c: calls of a function on the other CPUs, access by access of shared memory;
--             Smp/System: the CPUs interleaved; Smp/Handshake, Smp/Delivery, Smp/Caller, Smp/Calls:
--             the mailboxes; Smp/Answers, Smp/Progress: what callers rely on; Smp/Nested: the
--             interrupts that enter a handler again
--   Format    tools/fsformat.c: how a disk image is built; Format/Files: files and directories;
--             Format/Swap, Format/Turned: the order of bytes; Format/Mount, Format/Served: the
--             server of fs/fs.c reads the image
--   Shell     user/sh.c: the tokens of a command line (`raw_gettoken` is `_gettoken`); Shell/Words,
--             Shell/Tokens: what they are; Shell/Parse: `parsecmd`, over an interface of user calls
-- A definition has the name of its C function. Where a function is long, its later steps are
-- definitions of their own, named for what they do.
--
-- Several CPUs: each system call is one step, though the code lets go of its locks within some.
-- Only `sys_ipc_try_send` is also in parts, in Kernel/Steps: before, between and after its sections
-- under `env_sched_lock`, with steps of the other CPUs in between. The refill of the TLB is one
-- step too, so no other CPU takes pages in it. The loop in which `schedule` waits for an env ends
-- its step with `waiting`; `schedule_retry` is its next round, so that other CPUs may come between.
-- The interrupts between CPUs are finer: in Smp each access of shared memory is a step, in any
-- order of the CPUs, on a memory that all of them see alike (the code has its `sync` instructions);
-- taking a spin lock is one access, as it is with the `ll` and `sc` of the assembly. In Smp/System
-- a handler of these interrupts is not entered again on its CPU while it is at work; Smp/Nested has
-- the timer interrupts that do so.
--
-- Numbers: an address or a register is a natural number below 2 ^ 32, `pp_ref` wraps at 2 ^ 16, the
-- counters of ids, runs and time slices at 2 ^ 32. The cache of the file system is an array of
-- words, and a pointer into it the number of its word; `ide_read` and `ide_write` move whole
-- blocks. Loops recurse on the number of their rounds (1024 entries of a page table, 509 of a
-- directory, 256 identifiers, 1024 envs, the bytes of a copy); the loops over the words of a copy
-- have fuel for each of its bytes, which is enough as a round takes four. A path has fuel for each
-- of its bytes, of which a round takes one; the digits of `u` have fuel u + 1, and `readn` for each
-- byte that it wants; the loop of the TLB refill has fuel 2 or more, and needs two rounds; the
-- loops over a command line have fuel for more than its bytes, and `parsecmd` for each token;
-- `vprintfmt` has fuel, a round for each '%', and gives nothing if it runs out or if a width does not
-- fit an int.
--
-- Not modelled: the messages that are printed; the wait of `env_destroy` for another CPU; the
-- timer, the loop in which a second CPU starts and the interrupt registers of a board that has them
-- (kern/smp.c); the allocator and `map_segment` of the boot; loading of programs; the table of
-- exception handlers (kern/traps.c); console calls, and the device calls but for their check; the
-- self test of the file system and its disk driver (fs/ide.c); reading of a line and the start of
-- programs (user/sh.c); the rest of the user library (user/lib) and of lib; assembly, which is not
-- C.
mod Base
pub mod Asid
pub mod Errors
pub mod Pmap
pub mod Kernel
pub mod Pipe
pub mod Memory
pub mod Fs
pub mod Serv
pub mod Queue
pub mod Descriptors
pub mod Print
pub mod Smp
pub mod Format
pub mod Shell
