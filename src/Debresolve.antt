-- ===== src/Debresolve.antt =====
-- daemon/debresolve.c
pub mod Info
pub mod Reading
pub mod Lines
pub mod OldVersions
pub mod OldFormat
pub mod Fuel
pub mod Members
pub mod Archive
pub mod Extract
pub mod Contents
pub mod Unpacking
pub mod Subproc
pub mod Shell
