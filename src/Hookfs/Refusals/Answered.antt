-- ===== src/Hookfs/Refusals/Answered.antt =====
-- That a request whose first injection fails is answered with that error.
use toda.Base.{◌∙◌, ℕ, ◌≡◌, refl, ap, arith, some}
use toda.Action.{Result, err, ⊤, ◌>>=◌, ◌>>◌, after_step}
use toda.Hookfs.Errors.{HookFsError, into_c_int}
use toda.Hookfs.Reply.{Answer, reply_err, reply}
use toda.Hookfs.Os.{Platform}
use toda.Hookfs.State.{State, Call}
use toda.Hookfs.Service.{
  Request, Served, serve, spawn_reply, run_readdir, listing_of, empty, entry, attr, bytes, opened,
  written, listing, stat_fs, xattr, created,
}
use toda.Hookfs.Service.Request.{
  lookup, forget, getattr, setattr, readlink, mknod, mkdir, unlink, rmdir, symlink, rename, link,
  open_file, read, write_file, flush, release, fsync, opendir, readdir, releasedir, fsyncdir,
  statfs, setxattr, getxattr, listxattr, removexattr, access, create_file, getlk, setlk, bmap, init,
  destroy,
}
use toda.Hookfs.Attrs
use toda.Hookfs.Nodes
use toda.Hookfs.Files
use toda.Hookfs.Dirs
use toda.Hookfs.Xattrs
use toda.Hookfs.Refusals.{first_injection, error_of, served_error}

module _ (p : Platform) where
  abbrev pub Refused : Served p × State p → HookFsError → State p → Type 0
  Refused (answer, s') e s = (served_error answer ≡ some (into_c_int e)) × (s' ≡ s)

  -- A call whose first step fails does nothing else.
  stopped :
      {A B : Type 0} (m : Call p A) (k : Call p B) (s : State p) (e : HookFsError)
      → (m s).0 ≡ err e
      → (m >> k) s ≡ (err e, (m s).1)
  unfolding ◌>>◌ ◌>>=◌
  stopped m k s e h = ap (λ r. after_step (λ a. k) r (m s).1) h

  refused :
      {A B : Type 0} (wrap : Answer B → Served p) (m : Call p A) (k : Call p B) (s : State p)
      (e : HookFsError)
      → ((n : ℕ) → served_error (wrap (reply_err n)) ≡ some n)
      → (m s).0 ≡ err e
      → Refused (spawn_reply p wrap (m >> k) s) e (m s).1
  unfolding reply
  refused wrap m k s e w h =
      let done = stopped m k s e h in
      (ap (λ r. served_error (wrap (reply r.0))) done ∙ w (into_c_int e), ap (λ r. r.1) done)

  Refused-listing :
      {A : Type 0} (m : Call p A) (k : Call p (Result ⊤ × p.replies.Buffer)) (s : State p)
      (e : HookFsError)
      → (m s).0 ≡ err e
      → Refused (run_readdir p (m >> k) s) e (m s).1
  unfolding served_error error_of
  Refused-listing m k s e h =
      let done = stopped m k s e h in
      (ap (λ r. served_error {p = p} (listing (listing_of p r.0))) done, ap (λ r. r.1) done)

  pub serve-Refused :
      (r : Request p) (s : State p) (e : HookFsError)
      → (first_injection p r s).0 ≡ err e
      → Refused (serve p r s) e (first_injection p r s).1
  unfolding serve first_injection served_error error_of Attrs.lookup Attrs.getattr Attrs.setattr
      Attrs.readlink Nodes.mknod Nodes.mkdir Nodes.unlink Nodes.rmdir Nodes.symlink Nodes.rename
      Nodes.link Files.open_file Files.read Files.write_file Files.flush Files.fsync
      Files.create_file Dirs.opendir Dirs.readdir Dirs.statfs Dirs.access Xattrs.setxattr
      Xattrs.getxattr Xattrs.listxattr Xattrs.removexattr
  serve-Refused (lookup parent name) s e h = refused entry _ _ s e (λ n. refl) h
  serve-Refused (getattr ino) s e h = refused attr _ _ s e (λ n. refl) h
  serve-Refused (setattr ino mode uid gid size atime mtime) s e h =
      refused attr _ _ s e (λ n. refl) h
  serve-Refused (readlink ino) s e h = refused bytes _ _ s e (λ n. refl) h
  serve-Refused (mknod parent name mode rdev uid gid) s e h = refused entry _ _ s e (λ n. refl) h
  serve-Refused (mkdir parent name mode uid gid) s e h = refused entry _ _ s e (λ n. refl) h
  serve-Refused (unlink parent name) s e h = refused empty _ _ s e (λ n. refl) h
  serve-Refused (rmdir parent name) s e h = refused empty _ _ s e (λ n. refl) h
  serve-Refused (symlink parent name link_path uid gid) s e h = refused entry _ _ s e (λ n. refl) h
  serve-Refused (rename parent name newparent newname) s e h = refused empty _ _ s e (λ n. refl) h
  serve-Refused (link ino newparent newname) s e h = refused entry _ _ s e (λ n. refl) h
  serve-Refused (open_file ino flags) s e h = refused opened _ _ s e (λ n. refl) h
  serve-Refused (read fh offset size) s e h = refused bytes _ _ s e (λ n. refl) h
  serve-Refused (write_file fh offset contents) s e h = refused written _ _ s e (λ n. refl) h
  serve-Refused (flush fh) s e h = refused empty _ _ s e (λ n. refl) h
  serve-Refused (fsync fh) s e h = refused empty _ _ s e (λ n. refl) h
  serve-Refused (opendir ino flags) s e h = refused opened _ _ s e (λ n. refl) h
  serve-Refused (statfs ino) s e h = refused stat_fs _ _ s e (λ n. refl) h
  serve-Refused (setxattr ino name value flags) s e h = refused empty _ _ s e (λ n. refl) h
  serve-Refused (getxattr ino name size) s e h = refused xattr _ _ s e (λ n. refl) h
  serve-Refused (listxattr ino size) s e h = refused xattr _ _ s e (λ n. refl) h
  serve-Refused (removexattr ino name) s e h = refused empty _ _ s e (λ n. refl) h
  serve-Refused (access ino mask) s e h = refused empty _ _ s e (λ n. refl) h
  serve-Refused (create_file parent name mode flags uid gid) s e h =
      refused created _ _ s e (λ n. refl) h
  serve-Refused (readdir fh offset buffer) s e h = Refused-listing _ _ s e h
  serve-Refused init s e h = ground arith
  serve-Refused destroy s e h = ground arith
  serve-Refused (forget ino n) s e h = ground arith
  serve-Refused (release fh) s e h = ground arith
  serve-Refused (releasedir fh) s e h = ground arith
  serve-Refused (fsyncdir ino) s e h = ground arith
  serve-Refused getlk s e h = ground arith
  serve-Refused setlk s e h = ground arith
  serve-Refused bmap s e h = ground arith
