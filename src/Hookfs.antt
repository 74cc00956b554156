-- ===== src/Hookfs.antt =====
-- src/hookfs: the hooked file system.
mod Tests
pub mod Errors
pub mod Reply
pub mod Utils
pub mod InodeMap
pub mod Os
pub mod State
pub mod Inject
pub mod Attrs
pub mod Nodes
pub mod Files
pub mod Dirs
pub mod Xattrs
pub mod Service
pub mod Stable
pub mod Rooted
pub mod Quiet
pub mod Refusals
pub mod Handles
pub mod Switch
