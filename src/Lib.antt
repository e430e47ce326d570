-- ===== src/Lib.antt =====
-- HarLin Kernel: models of parts of the kernel's C code, and theorems about them.
--
-- The kernel (src/harlin, headers in src/head) is a 64-bit x86 system in one binary: memory
-- management below, processes and their communication above it, then file systems, drivers, a
-- network stack, a shell and the system calls. The parts modelled here are those that keep tables
-- of their own and are called by all the others:
--
--   Spinlock src/harlin/core/spinlock.c: the lock under which the other parts change their tables,
--            with atomic_cmpxchg of src/asm/core/atomic.asm. `System` is the lock word, the word
--            behind it in memory, and where each processor stands.
--   Notify   src/harlin/proc/signal.c: event masks of the tasks. `Table` is the pair of arrays
--            pending_bits and blocked_bits.
--   Pmm      src/harlin/mem/pmm.c: the physical page allocator. `Pmm` is the bitmap with its
--            three numbers. vmm.c, kmalloc.c and slab.c draw their pages from it.
--   Pipe     src/harlin/proc/pipe.c: pipes between processes. `Pipe` is struct pipe. Buffers come
--            from kmalloc, and processes that wait are woken through process_wake. The blocking
--            calls are sequences of steps (Pipe/Blocking).
--   Ipc      src/harlin/proc/ipc.c: semaphores (Ipc/Sem) and message queues (Ipc/Msg).
--   Wait     src/harlin/proc/wait.c: exit codes for processes that wait. `State` is the table with
--            its flag; it is seen as a map from processes to codes.
--   Perm     src/harlin/fs/perm.c: the permission check of files.
--   PathWalk src/harlin/fs/path_walk.c: the parts of a path and its normal form.
--   MemFs    src/harlin/fs/mem_fs.c: files in memory. `Nodes` is the table of nodes, which are linked
--            to a tree; paths are split by PathWalk. MemFs/Calls has the calls.
--   CowFs    src/harlin/fs/cow_fs.c: versions of these files. `Cow` is the table of versions and the
--            counter of their names. Forking a file creates it through MemFs.
--   ReadCache  src/harlin/fs/page_cache.c: pages by key. `Cache` is the table of slots with its
--            counters, the page allocator of Pmm, and the content of the pages.
--   Partition  src/harlin/fs/partition.c: the partitions of a disk, whose sectors are an argument.
--   Scheduler  src/harlin/proc/scheduler.c: the table of processes and the process that each CPU
--            runs (`Sched`); Scheduler/Timer has the timer interrupt, Scheduler/Life handles, exit
--            and fork, which change the pipes, queues, semaphores and pages too (`Kernel`).
--
-- A module of a part holds its state as a record and one definition for each function of the C
-- file, under the function's name without its prefix (pmm_alloc is Pmm.alloc, Harlin_NotifyPop is
-- Notify.pop); the modules below it hold the proofs, and its Examples module tests and instances.
-- Base holds the lists, bits and integers that all parts share.
--
-- State is passed explicitly. A function that holds a lock, or runs with interrupts off, is one
-- step; that the lock can be acquired is assumed there, while Spinlock says when it cannot. The
-- functions of ipc.c and of the file systems take no lock, and are one step here too, up to each
-- sleep: calls that overlap are not covered, but for what Ipc.Sem.Overlap shows of one. Words
-- of 32 bits wrap where the code can make them wrap (`% 2 ^ 32`); an `int` that is checked for a
-- range is an integer, ℤ, and becomes an index by `index`. C arrays are lists: a read out of
-- bounds gives a default value, which the guards of the code exclude. What other code returns
-- (kmalloc, the end of the kernel from the linker) is an argument. Calls of process_wake are
-- returned as the list of the processes woken. A call that puts its process to sleep ends with
-- the answer `asleep`, and what runs after the wake-up is a call of its own.
--
-- Each function of the scheduler is one step here, and the steps of all CPUs come in any order
-- (Scheduler.Run). schedule and the timer interrupt run with interrupts off, while
-- scheduler_sleep and process_block_current have them on until they call schedule, and no lock is
-- taken against another CPU: an interrupt in between, and what two CPUs do at the same time, are
-- not covered. Registers are read as an argument,
-- and what is loaded into the CPU is a result, as is the list of the addresses passed to
-- vmm_unmap. Where no process is ready, `schedule` halts; each wake-up is a further step
-- `dispatch`.
--
-- Loops over tables are structural recursion on the number of rounds left. The loop of
-- Harlin_NotifyPump has no bound in the code; it runs on fuel of 33, which is enough since each
-- round clears one of 32 bits (Notify.Pump). The loops of mem_fs.c over the children of a
-- directory run on fuel of 128, the number of nodes, which is enough since the children are
-- distinct nodes (MemFs.Valid.few_kids). The chain of extended sectors in partition.c has no
-- bound; fuel above 16 is enough where each of its sectors lists a partition (Partition.Chain). In
-- mem_fs.c an index of -1 is `none`, and the name that resolve_parent_create returns, a pointer
-- into its own stack frame, is taken to be intact.
--
-- Not modelled: log and screen output, the self-tests of the C files, the variants of the lock
-- that save the interrupt flag, other assembly, device registers, the other allocators, the other
-- file systems, drivers, the network stack, the shell, the system calls and the boot code. In
-- scheduler.c process_create and process_create_elf are left out, which build page tables, and
-- the setter of the kernel stack. process_set_current, which does not check the process and which
-- no part of the kernel calls, makes a process current in Scheduler.Run only on the CPU whose number
-- it bears; elsewhere it could put one process on two CPUs.
pub mod Base
pub mod Ipc
pub mod Notify
pub mod Perm
pub mod Pmm
pub mod PathWalk
pub mod MemFs
pub mod CowFs
pub mod ReadCache
pub mod Partition
pub mod Scheduler
pub mod Spinlock
pub mod Wait
pub mod Pipe
