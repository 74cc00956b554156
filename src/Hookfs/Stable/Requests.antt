-- ===== src/Hookfs/Stable/Requests.antt =====
-- A stable invariant over whole histories of requests (src/hookfs/async_fs.rs).
use toda.Base.{List, [], ◌∷◌, All}
use toda.Action.Ensures.{after}
use toda.FilePath.{Name}
use toda.Hookfs.Os.{Platform}
use toda.Hookfs.State.{State}
use toda.Hookfs.Service.{Request, serve, serve_all}
use toda.Hookfs.Service.Request.{
  lookup, forget, getattr, setattr, readlink, mknod, mkdir, unlink, rmdir, symlink, rename, link,
  open_file, read, write_file, flush, release, fsync, opendir, readdir, releasedir, fsyncdir,
  statfs, setxattr, getxattr, listxattr, removexattr, access, create_file, getlk, setlk, bmap, init,
  destroy,
}
use toda.Hookfs.Files.{getlk as getlk_of, setlk as setlk_of}
use toda.Hookfs.Stable.{Stable}
use toda.Hookfs.Stable.Handlers
use toda.Hookfs.Stable.FileHandlers

module _ (p : Platform) (N : Name → Type 0) (W : Type 0) where
  -- The names of the request are allowed, and so is writing if it writes.
  unfoldable pub Allowed : Request p → Type 0
  Allowed (lookup parent name) = N name
  Allowed (mknod parent name mode rdev uid gid) = N name
  Allowed (mkdir parent name mode uid gid) = N name
  Allowed (unlink parent name) = N name
  Allowed (rmdir parent name) = N name
  Allowed (symlink parent name link_path uid gid) = N name
  Allowed (rename parent name newparent newname) = N name × N newname
  Allowed (link ino newparent newname) = N newname
  Allowed (create_file parent name mode flags uid gid) = N name
  Allowed (write_file fh offset contents) = W
  Allowed _ = Unit

module _ (p : Platform) (st : Stable p) where
  open st use {I, P, N, W}

  pub keeps_serve : (r : Request p) (s : State p) → Allowed p N W r → I s → I (serve p r s).1
  unfolding serve Allowed getlk_of setlk_of
  keeps_serve init s a i = st.world s _ i
  keeps_serve destroy s a i = i
  keeps_serve (lookup parent name) s a i = after (Handlers.keeps_lookup p st parent name a) s i
  keeps_serve (forget ino nlookup) s a i = after (Handlers.keeps_forget p st ino nlookup) s i
  keeps_serve (getattr ino) s a i = after (Handlers.keeps_getattr p st ino) s i
  keeps_serve (setattr ino mode uid gid size atime mtime) s a i =
      after (Handlers.keeps_setattr p st ino mode uid gid size atime mtime) s i
  keeps_serve (readlink ino) s a i = after (Handlers.keeps_readlink p st ino) s i
  keeps_serve (mknod parent name mode rdev uid gid) s a i =
      after (Handlers.keeps_mknod p st parent name mode rdev uid gid a) s i
  keeps_serve (mkdir parent name mode uid gid) s a i =
      after (Handlers.keeps_mkdir p st parent name mode uid gid a) s i
  keeps_serve (unlink parent name) s a i = after (Handlers.keeps_unlink p st parent name a) s i
  keeps_serve (rmdir parent name) s a i = after (Handlers.keeps_rmdir p st parent name a) s i
  keeps_serve (symlink parent name link_path uid gid) s a i =
      after (Handlers.keeps_symlink p st parent name link_path uid gid a) s i
  keeps_serve (rename parent name newparent newname) s a i =
      after (Handlers.keeps_rename p st parent name newparent newname a.0 a.1) s i
  keeps_serve (link ino newparent newname) s a i =
      after (Handlers.keeps_link p st ino newparent newname a) s i
  keeps_serve (open_file ino flags) s a i = after (FileHandlers.keeps_open_file p st ino flags) s i
  keeps_serve (read fh offset size) s a i = after (FileHandlers.keeps_read p st fh offset size) s i
  keeps_serve (write_file fh offset contents) s a i =
      after (FileHandlers.keeps_write_file p st fh offset contents a) s i
  keeps_serve (flush fh) s a i = after (FileHandlers.keeps_flush p st fh) s i
  keeps_serve (release fh) s a i = after (FileHandlers.keeps_release p st fh) s i
  keeps_serve (fsync fh) s a i = after (FileHandlers.keeps_fsync p st fh) s i
  keeps_serve (opendir ino flags) s a i = after (FileHandlers.keeps_opendir p st ino flags) s i
  keeps_serve (readdir fh offset buffer) s a i =
      after (FileHandlers.keeps_readdir p st fh offset buffer) s i
  keeps_serve (releasedir fh) s a i = after (st.closes_dir fh) s i
  keeps_serve (fsyncdir ino) s a i = after (FileHandlers.keeps_fsyncdir p st ino) s i
  keeps_serve (statfs ino) s a i = after (FileHandlers.keeps_statfs p st ino) s i
  keeps_serve (setxattr ino name value flags) s a i =
      after (FileHandlers.keeps_setxattr p st ino name value flags) s i
  keeps_serve (getxattr ino name size) s a i =
      after (FileHandlers.keeps_getxattr p st ino name size) s i
  keeps_serve (listxattr ino size) s a i = after (FileHandlers.keeps_listxattr p st ino size) s i
  keeps_serve (removexattr ino name) s a i =
      after (FileHandlers.keeps_removexattr p st ino name) s i
  keeps_serve (access ino mask) s a i = after (FileHandlers.keeps_access p st ino mask) s i
  keeps_serve (create_file parent name mode flags uid gid) s a i =
      after (FileHandlers.keeps_create_file p st parent name mode flags uid gid a) s i
  keeps_serve getlk s a i = i
  keeps_serve setlk s a i = i
  keeps_serve bmap s a i = i

  -- A stable invariant holds after every history of allowed requests, whatever each answers.
  pub serve_all-keeps :
      (rs : List (Request p)) (s : State p) → All (Allowed p N W) rs → I s → I (serve_all p rs s)
  unfolding serve_all Allowed
  serve_all-keeps [] s a i = i
  serve_all-keeps (r ∷ rs) s a i = serve_all-keeps rs _ a.1 (keeps_serve r s a.0 i)
