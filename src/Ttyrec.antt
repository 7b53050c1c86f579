-- ===== src/Ttyrec.antt =====
-- ttyrec.c, in parts.
pub mod Process
pub mod Session
pub mod Rotation
pub mod Output
pub mod Watcher
pub mod Input
pub mod CommandLine
pub mod FileName
pub mod Shutdown
pub mod Launch
