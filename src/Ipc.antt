-- ===== src/Ipc.antt =====
-- kernel/ipc/ipc.c and kernel/include/gnuos/ipc.h: named channels with a message queue and a
-- rendezvous slot each, in three parts, and their runs on small inputs.
pub mod Channel
pub mod Queue
pub mod Rendezvous
pub mod Sound
mod Tests
