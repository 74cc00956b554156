-- ===== src/Injector.antt =====
-- src/injector: the faults that are injected, and when.
mod Tests
pub mod Config
pub mod Method
pub mod Filter
pub mod Context
pub mod Fault
pub mod Latency
pub mod Mistake
pub mod AttrOverride
pub mod Multi
