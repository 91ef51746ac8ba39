-- ===== src/Kernel.antt =====
-- kernel/: the processes, their state queues and the schedulers.
pub mod Pcb
pub mod State
pub mod Queues
pub mod Shared
pub mod Api
pub mod Placement
pub mod Scheduler
pub mod Start
pub mod Tracking
pub mod Run
pub mod Server
pub mod Io
mod Tests
