-- ===== src/Memory.antt =====
-- memoria/: the memory server's storage.
pub mod State
pub mod Frames
pub mod Process
pub mod Pages
pub mod Address
pub mod Swap
pub mod Dump
pub mod Requests
pub mod Server
pub mod Ownership
mod Tests
