-- ===== src/Files.antt =====
-- file_io/, std_io/tempfile.c and sys_info/getpwnam_demo.c: what the system says of files and users.
pub mod Modes
pub mod Flags
pub mod Users
pub mod Temporary
pub mod Reports
