-- ===== src/Hookfs/Refusals.antt =====
-- An injected error prevents the request (src/hookfs/mod.rs, src/hookfs/async_fs.rs): which
-- injection a request goes through first, and the error that an answer carries.
pub mod Answered
pub mod Prevented
pub mod Sent
use toda.Base.{◌∙◌, ℕ, ◌≡◌, refl, ap, arith, Option, none, some}
use toda.Action.{Result, err, ⊤, pure, ◌>>=◌, ◌>>◌, after_step}
use toda.Action.Ensures.{Ensures, Any, Ensures-pure, after}
use toda.Injector.Method
use toda.Hookfs.Errors.{HookFsError, into_c_int}
use toda.Hookfs.Reply.{Answer, reply_err, reply}
use toda.Hookfs.Os.{Platform}
use toda.Hookfs.State.{State, Call}
use toda.Hookfs.Inject.{
  inject_with_ino, inject_with_parent_and_name, inject_with_fh, inject_with_dir_fh,
}
use toda.Hookfs.Inject.Keeps
use toda.Hookfs.Service.{
  Request, Served, serve, spawn_reply, run_readdir, listing_of, nothing, empty, entry, attr, bytes,
  opened, written, listing, stat_fs, xattr, created, lock,
}
use toda.Hookfs.Service.Request.{
  lookup, forget, getattr, setattr, readlink, mknod, mkdir, unlink, rmdir, symlink, rename, link,
  open_file, read, write_file, flush, release, fsync, opendir, readdir, releasedir, fsyncdir,
  statfs, setxattr, getxattr, listxattr, removexattr, access, create_file, getlk, setlk, bmap, init,
  destroy,
}
use toda.Hookfs.Attrs
use toda.Hookfs.Nodes
use toda.Hookfs.Files
use toda.Hookfs.Dirs
use toda.Hookfs.Xattrs

-- The injection that a request goes through before anything else; some have none.
unfoldable pub first_injection : (p : Platform) → Request p → Call p ⊤
first_injection p (lookup parent name) = inject_with_parent_and_name p Method.lookup parent name
first_injection p (getattr ino) = inject_with_ino p Method.getattr ino
first_injection p (setattr ino mode uid gid size atime mtime) = inject_with_ino p Method.setattr ino
first_injection p (readlink ino) = inject_with_ino p Method.readlink ino
first_injection p (mknod parent name mode rdev uid gid) =
    inject_with_parent_and_name p Method.mknod parent name
first_injection p (mkdir parent name mode uid gid) =
    inject_with_parent_and_name p Method.mkdir parent name
first_injection p (unlink parent name) = inject_with_parent_and_name p Method.unlink parent name
first_injection p (rmdir parent name) = inject_with_parent_and_name p Method.rmdir parent name
first_injection p (symlink parent name link_path uid gid) =
    inject_with_parent_and_name p Method.symlink parent name
first_injection p (rename parent name newparent newname) =
    inject_with_parent_and_name p Method.rename parent name
first_injection p (link ino newparent newname) = inject_with_ino p Method.link ino
first_injection p (open_file ino flags) = inject_with_ino p Method.open_file ino
first_injection p (read fh offset size) = inject_with_fh p Method.read fh
first_injection p (write_file fh offset contents) = inject_with_fh p Method.write fh
first_injection p (flush fh) = inject_with_fh p Method.flush fh
first_injection p (fsync fh) = inject_with_fh p Method.fsync fh
first_injection p (opendir ino flags) = inject_with_ino p Method.opendir ino
first_injection p (readdir fh offset buffer) = inject_with_dir_fh p Method.readdir fh
first_injection p (statfs ino) = inject_with_ino p Method.statfs ino
first_injection p (setxattr ino name value flags) = inject_with_ino p Method.setxattr ino
first_injection p (getxattr ino name size) = inject_with_ino p Method.getxattr ino
first_injection p (listxattr ino size) = inject_with_ino p Method.listxattr ino
first_injection p (removexattr ino name) = inject_with_ino p Method.removexattr ino
first_injection p (access ino mask) = inject_with_ino p Method.access ino
first_injection p (create_file parent name mode flags uid gid) =
    inject_with_parent_and_name p Method.create parent name
first_injection p _ = pure tt

-- The error number that an answer carries.
unfoldable pub error_of : {A : Type 0} → Answer A → Option ℕ
error_of (reply_err n) = some n
error_of _ = none

unfoldable pub served_error : {p : Platform} → Served p → Option ℕ
unfolding error_of
served_error nothing = none
served_error (empty a) = error_of a
served_error (entry a) = error_of a
served_error (attr a) = error_of a
served_error (bytes a) = error_of a
served_error (opened a) = error_of a
served_error (written a) = error_of a
served_error (listing a) = error_of a
served_error (stat_fs a) = error_of a
served_error (xattr a) = error_of a
served_error (created a) = error_of a
served_error (lock a) = error_of a
