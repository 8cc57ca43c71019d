-- ===== src/Sched.antt =====
-- kernel/sched/sched.c and kernel/include/gnuos/sched.h: tasks, the ready queue, the choice of the
-- next task, wait queues, and the operations that move tasks between their states.
pub mod State
pub mod Pick
pub mod Switch
pub mod WaitQueue
pub mod Consistent
pub mod Running
pub mod Handoff
pub mod Wake
pub mod WakeAll
pub mod Run
pub mod Start
pub mod Create
pub mod Keeps
pub mod History
pub mod Samples
mod Tests
