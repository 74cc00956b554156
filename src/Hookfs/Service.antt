-- ===== src/Hookfs/Service.antt =====
-- src/hookfs/async_fs.rs: requests of the kernel, each run to its end and answered. Arguments that
-- no method of `HookFs` reads are left out.
mod Answers
mod Entries
pub mod Sent
pub use Answers.*
pub use Entries.*
use toda.Base.{ℕ, Option, List, [], ◌∷◌}
use toda.Base.Int.{ℤ}
use toda.Action.{Result, ok, err, panic, ⊤}
use toda.FilePath.{FilePath, Name}
use toda.Hookfs.Errors.{enosys, into_c_int}
use toda.Hookfs.Os.{Platform}
use toda.Hookfs.Reply.{
  Entry, Open, Attr, Data, StatFs, Write, Create, Lock, Xattr, Answer, reply, reply_ok, reply_err,
  dropped,
}
use toda.Hookfs.State.{State, Call}
use toda.Hookfs.Utils.{TimeOrNow}
use toda.Hookfs.Attrs
use toda.Hookfs.Nodes
use toda.Hookfs.Files
use toda.Hookfs.Dirs
use toda.Hookfs.Xattrs

-- The methods of `trait AsyncFileSystemImpl`. `mode`, `uid`, `gid` and `flags` are the bits.
pub data Request (p : Platform) : Type 0 where
  init destroy : Request p
  lookup : (parent : ℕ) (name : Name) → Request p
  forget : (ino nlookup : ℕ) → Request p
  getattr : (ino : ℕ) → Request p
  setattr : (ino : ℕ) (mode uid gid size : Option ℕ) (atime mtime : Option TimeOrNow) → Request p
  readlink : (ino : ℕ) → Request p
  mknod : (parent : ℕ) (name : Name) (mode rdev uid gid : ℕ) → Request p
  mkdir : (parent : ℕ) (name : Name) (mode uid gid : ℕ) → Request p
  unlink rmdir : (parent : ℕ) (name : Name) → Request p
  symlink : (parent : ℕ) (name : Name) (link_path : FilePath) (uid gid : ℕ) → Request p
  rename : (parent : ℕ) (name : Name) (newparent : ℕ) (newname : Name) → Request p
  link : (ino newparent : ℕ) (newname : Name) → Request p
  open_file : (ino flags : ℕ) → Request p
  read : (fh : ℕ) (offset : ℤ) (size : ℕ) → Request p
  write_file : (fh : ℕ) (offset : ℤ) (contents : List ℕ) → Request p
  flush release fsync : (fh : ℕ) → Request p
  opendir : (ino flags : ℕ) → Request p
  readdir : (fh : ℕ) (offset : ℤ) (buffer : p.replies.Buffer) → Request p
  releasedir : (fh : ℕ) → Request p
  fsyncdir : (ino : ℕ) → Request p
  statfs : (ino : ℕ) → Request p
  setxattr : (ino : ℕ) (name : Name) (value : List ℕ) (flags : ℕ) → Request p
  getxattr : (ino : ℕ) (name : Name) (size : ℕ) → Request p
  listxattr : (ino size : ℕ) → Request p
  removexattr : (ino : ℕ) (name : Name) → Request p
  access : (ino mask : ℕ) → Request p
  create_file : (parent : ℕ) (name : Name) (mode flags uid gid : ℕ) → Request p
  getlk setlk bmap : Request p

module _ (p : Platform) where
  -- `impl Filesystem for AsyncFileSystem`
  unfoldable pub serve : Request p → State p → Served p × State p
  serve init s = on_init p s
  serve destroy s = on_destroy p s
  serve (lookup parent name) s = on_lookup p parent name s
  serve (forget ino nlookup) s = on_forget p ino nlookup s
  serve (getattr ino) s = on_getattr p ino s
  serve (setattr ino mode uid gid size atime mtime) s =
      on_setattr p ino mode uid gid size atime mtime s
  serve (readlink ino) s = on_readlink p ino s
  serve (mknod parent name mode rdev uid gid) s = on_mknod p parent name mode rdev uid gid s
  serve (mkdir parent name mode uid gid) s = on_mkdir p parent name mode uid gid s
  serve (unlink parent name) s = on_unlink p parent name s
  serve (rmdir parent name) s = on_rmdir p parent name s
  serve (symlink parent name link_path uid gid) s = on_symlink p parent name link_path uid gid s
  serve (rename parent name newparent newname) s = on_rename p parent name newparent newname s
  serve (link ino newparent newname) s = on_link p ino newparent newname s
  serve (open_file ino flags) s = on_open_file p ino flags s
  serve (read fh offset size) s = on_read p fh offset size s
  serve (write_file fh offset contents) s = on_write_file p fh offset contents s
  serve (flush fh) s = on_flush p fh s
  serve (release fh) s = on_release p fh s
  serve (fsync fh) s = on_fsync p fh s
  serve (opendir ino flags) s = on_opendir p ino flags s
  serve (readdir fh offset buffer) s = on_readdir p fh offset buffer s
  serve (releasedir fh) s = on_releasedir p fh s
  serve (fsyncdir ino) s = on_fsyncdir p ino s
  serve (statfs ino) s = on_statfs p ino s
  serve (setxattr ino name value flags) s = on_setxattr p ino name value flags s
  serve (getxattr ino name size) s = on_getxattr p ino name size s
  serve (listxattr ino size) s = on_listxattr p ino size s
  serve (removexattr ino name) s = on_removexattr p ino name s
  serve (access ino mask) s = on_access p ino mask s
  serve (create_file parent name mode flags uid gid) s =
      on_create_file p parent name mode flags uid gid s
  serve getlk s = on_getlk p s
  serve setlk s = on_setlk p s
  serve bmap s = on_bmap p s

  -- A history of requests.
  unfoldable pub serve_all : List (Request p) → State p → State p
  serve_all [] s = s
  serve_all (r ∷ rs) s = serve_all rs (serve r s).1
