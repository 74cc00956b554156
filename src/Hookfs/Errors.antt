-- ===== src/Hookfs/Errors.antt =====
-- src/hookfs/errors.rs: the errors of the file system and the numbers that the kernel is told.
use toda.Base.{ℕ}

pub data HookFsError : Type 0 where
  sys : ℕ → HookFsError
  inode_not_found : ℕ → HookFsError
  fh_not_found : ℕ → HookFsError
  invalid_str unknown_file_type strip_prefix_error unknown_error : HookFsError

-- nix::Error: `Sys` carries the errno, the other cases carry no number.
pub data NixError : Type 0 where
  sys : ℕ → NixError
  invalid_path invalid_utf8 unsupported_operation : NixError

-- `impl From<nix::Error> for HookFsError`
unfoldable pub from_nix : NixError → HookFsError
from_nix (NixError.sys errno) = HookFsError.sys errno
from_nix _ = unknown_error

abbrev pub efault : ℕ
efault = 14

abbrev pub einval : ℕ
einval = 22

abbrev pub enosys : ℕ
enosys = 38

-- `impl Into<libc::c_int> for HookFsError`
unfoldable pub into_c_int : HookFsError → ℕ
into_c_int (HookFsError.sys errno) = errno
into_c_int (inode_not_found inode) = efault
into_c_int (fh_not_found fh) = efault
into_c_int unknown_file_type = einval
into_c_int invalid_str = einval
into_c_int strip_prefix_error = efault
into_c_int unknown_error = efault
