-- ===== src/Hookfs/Service/Entries.antt =====
-- `impl Filesystem for AsyncFileSystem` of src/hookfs/async_fs.rs: for each request of the kernel,
-- the method of `HookFs` that runs and how its result is answered.
use toda.Base.{ℕ, Option, List}
use toda.Base.Int.{ℤ}
use toda.FilePath.{FilePath, Name}
use toda.Hookfs.Errors.{enosys}
use toda.Hookfs.Os.{Platform}
use toda.Hookfs.Reply.{reply_ok, reply_err}
use toda.Hookfs.State.{State}
use toda.Hookfs.Utils.{TimeOrNow}
use toda.Hookfs.Attrs
use toda.Hookfs.Nodes
use toda.Hookfs.Files
use toda.Hookfs.Dirs
use toda.Hookfs.Xattrs
use toda.Hookfs.Service.Answers.{
  Served, nothing, empty, entry, attr, bytes, opened, written, stat_fs, xattr, created, lock,
  spawn_reply, run_readdir, run_silently,
}

module _ (p : Platform) where
  abbrev pub on_init : State p → Served p × State p
  on_init s = (empty (reply_ok tt), record s { world = p.os.umask 0 s.world })

  abbrev pub on_destroy : State p → Served p × State p
  on_destroy s = (nothing, s)

  abbrev pub on_lookup : ℕ → Name → State p → Served p × State p
  on_lookup parent name s = spawn_reply p entry (Attrs.lookup p parent name) s

  abbrev pub on_forget : ℕ → ℕ → State p → Served p × State p
  on_forget ino nlookup s = run_silently p (Attrs.forget p ino nlookup) s

  abbrev pub on_getattr : ℕ → State p → Served p × State p
  on_getattr ino s = spawn_reply p attr (Attrs.getattr p ino) s

  abbrev pub on_setattr :
      ℕ
      → Option ℕ
      → Option ℕ
      → Option ℕ
      → Option ℕ
      → Option TimeOrNow
      → Option TimeOrNow
      → State p
      → Served p × State p
  on_setattr ino mode uid gid size atime mtime s =
      spawn_reply p attr (Attrs.setattr p ino mode uid gid size atime mtime) s

  abbrev pub on_readlink : ℕ → State p → Served p × State p
  on_readlink ino s = spawn_reply p bytes (Attrs.readlink p ino) s

  abbrev pub on_mknod : ℕ → Name → ℕ → ℕ → ℕ → ℕ → State p → Served p × State p
  on_mknod parent name mode rdev uid gid s =
      spawn_reply p entry (Nodes.mknod p parent name mode rdev uid gid) s

  abbrev pub on_mkdir : ℕ → Name → ℕ → ℕ → ℕ → State p → Served p × State p
  on_mkdir parent name mode uid gid s =
      spawn_reply p entry (Nodes.mkdir p parent name mode uid gid) s

  abbrev pub on_unlink : ℕ → Name → State p → Served p × State p
  on_unlink parent name s = spawn_reply p empty (Nodes.unlink p parent name) s

  abbrev pub on_rmdir : ℕ → Name → State p → Served p × State p
  on_rmdir parent name s = spawn_reply p empty (Nodes.rmdir p parent name) s

  abbrev pub on_symlink : ℕ → Name → FilePath → ℕ → ℕ → State p → Served p × State p
  on_symlink parent name link_path uid gid s =
      spawn_reply p entry (Nodes.symlink p parent name link_path uid gid) s

  abbrev pub on_rename : ℕ → Name → ℕ → Name → State p → Served p × State p
  on_rename parent name newparent newname s =
      spawn_reply p empty (Nodes.rename p parent name newparent newname) s

  abbrev pub on_link : ℕ → ℕ → Name → State p → Served p × State p
  on_link ino newparent newname s = spawn_reply p entry (Nodes.link p ino newparent newname) s

  abbrev pub on_open_file : ℕ → ℕ → State p → Served p × State p
  on_open_file ino flags s = spawn_reply p opened (Files.open_file p ino flags) s

  abbrev pub on_read : ℕ → ℤ → ℕ → State p → Served p × State p
  on_read fh offset size s = spawn_reply p bytes (Files.read p fh offset size) s

  abbrev pub on_write_file : ℕ → ℤ → (List ℕ) → State p → Served p × State p
  on_write_file fh offset contents s =
      spawn_reply p written (Files.write_file p fh offset contents) s

  abbrev pub on_flush : ℕ → State p → Served p × State p
  on_flush fh s = spawn_reply p empty (Files.flush p fh) s

  abbrev pub on_release : ℕ → State p → Served p × State p
  on_release fh s = spawn_reply p empty (Files.release p fh) s

  abbrev pub on_fsync : ℕ → State p → Served p × State p
  on_fsync fh s = spawn_reply p empty (Files.fsync p fh) s

  abbrev pub on_opendir : ℕ → ℕ → State p → Served p × State p
  on_opendir ino flags s = spawn_reply p opened (Dirs.opendir p ino flags) s

  abbrev pub on_readdir : ℕ → ℤ → p.replies.Buffer → State p → Served p × State p
  on_readdir fh offset buffer s = run_readdir p (Dirs.readdir p fh offset buffer) s

  abbrev pub on_releasedir : ℕ → State p → Served p × State p
  on_releasedir fh s = spawn_reply p empty (Dirs.releasedir p fh) s

  abbrev pub on_fsyncdir : ℕ → State p → Served p × State p
  on_fsyncdir ino s = spawn_reply p empty (Dirs.fsyncdir p ino) s

  abbrev pub on_statfs : ℕ → State p → Served p × State p
  on_statfs ino s = spawn_reply p stat_fs (Dirs.statfs p ino) s

  abbrev pub on_setxattr : ℕ → Name → (List ℕ) → ℕ → State p → Served p × State p
  on_setxattr ino name value flags s =
      spawn_reply p empty (Xattrs.setxattr p ino name value flags) s

  abbrev pub on_getxattr : ℕ → Name → ℕ → State p → Served p × State p
  on_getxattr ino name size s = spawn_reply p xattr (Xattrs.getxattr p ino name size) s

  abbrev pub on_listxattr : ℕ → ℕ → State p → Served p × State p
  on_listxattr ino size s = spawn_reply p xattr (Xattrs.listxattr p ino size) s

  abbrev pub on_removexattr : ℕ → Name → State p → Served p × State p
  on_removexattr ino name s = spawn_reply p empty (Xattrs.removexattr p ino name) s

  abbrev pub on_access : ℕ → ℕ → State p → Served p × State p
  on_access ino mask s = spawn_reply p empty (Dirs.access p ino mask) s

  abbrev pub on_create_file : ℕ → Name → ℕ → ℕ → ℕ → ℕ → State p → Served p × State p
  on_create_file parent name mode flags uid gid s =
      spawn_reply p created (Files.create_file p parent name mode flags uid gid) s

  abbrev pub on_getlk : State p → Served p × State p
  on_getlk s = spawn_reply p lock (Files.getlk p) s

  abbrev pub on_setlk : State p → Served p × State p
  on_setlk s = spawn_reply p empty (Files.setlk p) s

  abbrev pub on_bmap : State p → Served p × State p
  on_bmap s = (empty (reply_err enosys), s)
