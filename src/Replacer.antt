-- ===== src/Replacer.antt =====
-- src/replacer: what a process has open below the mounted directory is opened again through the mount.
pub mod Layout
pub mod Select
pub mod Machine
pub mod Run
pub mod Prepare
mod Tests
