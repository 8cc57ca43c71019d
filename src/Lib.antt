-- ===== src/Lib.antt =====
-- A model of the kernel of GNU OS, and what holds of it.
--
-- The parts. Tasks run on one processor under a cooperative scheduler with a timer that asks for
-- preemption (kernel/sched/sched.c). They talk through IPC channels (kernel/ipc/ipc.c): queues of 32
-- messages, and a rendezvous in which the sender waits until its message was taken. A message may
-- carry a capability, an entry of the table of kernel/security/capability.c: the sender has to hold a
-- transferable one with the rights that it sends, and the receiver gets a new entry of its own. A work
-- queue (kernel/sched/workqueue.c) hands items to worker tasks that sleep on a wait queue of the
-- scheduler, and kernel/security/seccomp.c keeps the action for each system call and the audit events.
-- The reader-writer lock of kernel/lib/rwlock.c spins on two words. kernel/mm/pmm.c hands out pages of
-- memory from blocks of 2^k pages, which it splits and merges. kernel/ipc/shm.c gives named segments of
-- memory to the threads that attach to them. kernel/syscall/syscall.c runs the handler of a system
-- call unless seccomp denies it, and audits it; kernel/mm/uaccess.c copies between the kernel and memory
-- that is mapped for the user. kernel/mm/numa.c reads the memory nodes from a table of the firmware.
--
-- The files, and the code that they follow:
--   Base        lists, machine words and other helpers; models no code. Base/Arguments is what a number
--               out of range and a thread number mean, said apart from the code.
--   Names       `ipc_strnlen`, `ipc_name_equal`, `ipc_name_copy` of kernel/ipc/ipc.c, and
--               the same three of kernel/ipc/shm.c; Names/Same says when two names are the same.
--   Ring        the ring buffer that sched.c and ipc.c both write out (head, tail and a count).
--   Capability  kernel/security/capability.c: the table, `capability_create`,
--               `capability_validate_transfer`, `capability_copy_for_owner`, `capability_describe`.
--               Capability/Api is what the channels use of it.
--   Ipc         kernel/ipc/ipc.c: Ipc/Channel the table of channels with creation and search,
--               Ipc/Queue the queues, Ipc/Rendezvous the passes of the rendezvous loops.
--   Seccomp     kernel/security/seccomp.c: the action table and the audit ring.
--   Workqueue   kernel/sched/workqueue.c: submission, the worker's passes, and its sleep.
--   Shm         kernel/ipc/shm.c: Shm the table and the calls; Attached the threads of one segment,
--               Lookup the search for a name, Fresh a new segment, Attach, Create and Roundtrip what
--               the calls do, History any sequence of them.
--   Syscall     kernel/syscall/syscall.c: Syscall the table, the dispatch and the handlers; Register,
--               Dispatch and Denied what the calls do.
--   Uaccess     kernel/mm/uaccess.c: Uaccess the test of a range and the copies, Flags the bits of a mapped
--               page, Pages the loop over the pages, Range what the test lets through, Copy what a
--               copy changes.
--   Pmm         kernel/mm/pmm.c: Pmm the state and the list operations, Pmm/Blocks splitting and merging,
--               Pmm/Api the calls. The other files there are about what holds of them: FreeList and
--               Links the free lists, Partition, Divided, Closing and Writes the blocks while a call
--               runs, Taking, Merging, Reserving, Ranges one operation each, Sound, Pages, Returns,
--               Initial, Reserved the calls, History any sequence of them.
--   Numa        kernel/mm/numa.c: Numa the table of nodes, the SRAT parsing and the lookups; Nodes, Adding
--               and Sound what holds of the table, Lookup of the lookups.
--   Spinlock    kernel/lib/spinlock.c and kernel/lib/mutex.c, which have the same code: the exchange and
--               the store of each thread as steps.
--   Rwlock      kernel/lib/rwlock.c: the atomic operations of each thread as steps.
--   Sched       kernel/sched/sched.c: Sched/State the static variables, Sched/Pick the choice of the
--               next task and `sched_run`, Sched/Switch yield, preemption, exit and task creation,
--               Sched/WaitQueue the wait queues. The other files there are about what holds of them:
--               Consistent and Running when the variables fit together, Handoff, Wake, WakeAll, Run,
--               Create one operation each, History any sequence of them.
--
-- State is passed on explicitly: a function takes the tables as they are before the call and gives its
-- answer with the tables after it. The kernel holds a spinlock with interrupts off while it works on a
-- table, so one locked part is one step; a history is the list of the steps in the order in which they
-- got the lock. A call that switches to another task is followed to the switch.
--
-- Numbers are natural numbers, and where the code counts in a machine word the wrap-around is written
-- out (`inc16`, `inc64`, `u16`, `u64`). Status codes are integers. An array is a list of its fixed
-- length; a read past its end, which the code does not make, gives the zero element. The arrays of the
-- page allocator are functions of the index.
--
-- Loops are recursion on the rounds that they have left: table loops on the table, copies on the size,
-- the scheduler's queue loops on the number of entries at their start, as the code bounds them, the page
-- allocator's loops on the orders or the pages that are left, the loops over a range of addresses on its
-- pages. The loop over the firmware's entries has a fuel of the table's length, of which each entry takes
-- two bytes at least. `sched_wait_queue_wake_all` has no bound of its own, and is recursion on fuel: each
-- round but the last takes an entry off the queue, so one round more than it has entries is enough. The
-- loops of the locks, the two rendezvous loops and that of `workqueue_execute_one` wait for other tasks,
-- so each of their passes is a step.
--
-- Not modelled: the page tables of kernel/mm/vmm.c, whose query and mapping of pages enter as what they
-- answer; RCU; interrupts, timers and drivers, which are access to the hardware; the start of the kernel;
-- the programs and the loader in user space. The log lines are left out. Page allocation enters as the
-- page that it gave, and what `sched_current_task` returns as the number of the task.
pub mod Base
pub mod Ring
pub mod Names
pub mod Capability
pub mod Ipc
pub mod Sched
pub mod Seccomp
pub mod Workqueue
pub mod Spinlock
pub mod Rwlock
pub mod Pmm
pub mod Shm
pub mod Uaccess
pub mod Syscall
pub mod Numa
