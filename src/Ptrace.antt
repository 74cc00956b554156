-- ===== src/Ptrace.antt =====
-- Tracing a process, src/ptrace/mod.rs: the manager that counts the handles of a process, and what a
-- handle does with the traced process. Process ids are numbers that are no less than zero.
pub mod System
pub mod Manager
pub mod Guard
pub mod Calls
mod Tests
