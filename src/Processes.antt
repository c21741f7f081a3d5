-- ===== src/Processes.antt =====
-- proc_demos/: programs that start processes, wait for them and read how they ended.
pub mod Status
pub mod Children
pub mod Times
pub mod Handshake
pub mod Programs
