-- ===== src/Hookfs/Refusals/Prevented.antt =====
-- That nothing else of such a request is done.
use toda.Base.{◌∙◌, ◌≡◌, refl, ap, some}
use toda.Action.{err}
use toda.Action.Ensures.{Ensures, Any, Ensures-pure, after}
use toda.Injector.Method
use toda.Hookfs.Errors.{HookFsError, into_c_int}
use toda.Hookfs.Os.{Platform}
use toda.Hookfs.State.{State}
use toda.Hookfs.Inject.Keeps
use toda.Hookfs.Service.{Request, serve}
use toda.Hookfs.Service.Request.{
  lookup, forget, getattr, setattr, readlink, mknod, mkdir, unlink, rmdir, symlink, rename, link,
  open_file, read, write_file, flush, release, fsync, opendir, readdir, releasedir, fsyncdir,
  statfs, setxattr, getxattr, listxattr, removexattr, access, create_file, getlk, setlk, bmap, init,
  destroy,
}
use toda.Hookfs.Refusals.{first_injection, served_error}
use toda.Hookfs.Refusals.Answered.{serve-Refused}

module _ (p : Platform) where
  Untouched : State p → State p → Type 0
  Untouched s t = (t.fs ≡ s.fs) × (t.world ≡ s.world)

  -- The injection of a request changes the injectors' context at most.
  first_injection-Untouched :
      (r : Request p) (s : State p) → Ensures (Untouched s) Any (first_injection p r)
  unfolding first_injection Untouched
  first_injection-Untouched (lookup parent name) s =
      Keeps.keeps_inject_with_parent p (Untouched s) (λ t c i. i) Method.lookup parent name
  first_injection-Untouched (getattr ino) s =
      Keeps.keeps_inject_with_ino p (Untouched s) (λ t c i. i) Method.getattr ino
  first_injection-Untouched (setattr ino mode uid gid size atime mtime) s =
      Keeps.keeps_inject_with_ino p (Untouched s) (λ t c i. i) Method.setattr ino
  first_injection-Untouched (readlink ino) s =
      Keeps.keeps_inject_with_ino p (Untouched s) (λ t c i. i) Method.readlink ino
  first_injection-Untouched (mknod parent name mode rdev uid gid) s =
      Keeps.keeps_inject_with_parent p (Untouched s) (λ t c i. i) Method.mknod parent name
  first_injection-Untouched (mkdir parent name mode uid gid) s =
      Keeps.keeps_inject_with_parent p (Untouched s) (λ t c i. i) Method.mkdir parent name
  first_injection-Untouched (unlink parent name) s =
      Keeps.keeps_inject_with_parent p (Untouched s) (λ t c i. i) Method.unlink parent name
  first_injection-Untouched (rmdir parent name) s =
      Keeps.keeps_inject_with_parent p (Untouched s) (λ t c i. i) Method.rmdir parent name
  first_injection-Untouched (symlink parent name link_path uid gid) s =
      Keeps.keeps_inject_with_parent p (Untouched s) (λ t c i. i) Method.symlink parent name
  first_injection-Untouched (rename parent name newparent newname) s =
      Keeps.keeps_inject_with_parent p (Untouched s) (λ t c i. i) Method.rename parent name
  first_injection-Untouched (link ino newparent newname) s =
      Keeps.keeps_inject_with_ino p (Untouched s) (λ t c i. i) Method.link ino
  first_injection-Untouched (open_file ino flags) s =
      Keeps.keeps_inject_with_ino p (Untouched s) (λ t c i. i) Method.open_file ino
  first_injection-Untouched (read fh offset size) s =
      Keeps.keeps_inject_with_fh p (Untouched s) (λ t c i. i) Method.read fh
  first_injection-Untouched (write_file fh offset contents) s =
      Keeps.keeps_inject_with_fh p (Untouched s) (λ t c i. i) Method.write fh
  first_injection-Untouched (flush fh) s =
      Keeps.keeps_inject_with_fh p (Untouched s) (λ t c i. i) Method.flush fh
  first_injection-Untouched (fsync fh) s =
      Keeps.keeps_inject_with_fh p (Untouched s) (λ t c i. i) Method.fsync fh
  first_injection-Untouched (opendir ino flags) s =
      Keeps.keeps_inject_with_ino p (Untouched s) (λ t c i. i) Method.opendir ino
  first_injection-Untouched (readdir fh offset buffer) s =
      Keeps.keeps_inject_with_dir_fh p (Untouched s) (λ t c i. i) Method.readdir fh
  first_injection-Untouched (statfs ino) s =
      Keeps.keeps_inject_with_ino p (Untouched s) (λ t c i. i) Method.statfs ino
  first_injection-Untouched (setxattr ino name value flags) s =
      Keeps.keeps_inject_with_ino p (Untouched s) (λ t c i. i) Method.setxattr ino
  first_injection-Untouched (getxattr ino name size) s =
      Keeps.keeps_inject_with_ino p (Untouched s) (λ t c i. i) Method.getxattr ino
  first_injection-Untouched (listxattr ino size) s =
      Keeps.keeps_inject_with_ino p (Untouched s) (λ t c i. i) Method.listxattr ino
  first_injection-Untouched (removexattr ino name) s =
      Keeps.keeps_inject_with_ino p (Untouched s) (λ t c i. i) Method.removexattr ino
  first_injection-Untouched (access ino mask) s =
      Keeps.keeps_inject_with_ino p (Untouched s) (λ t c i. i) Method.access ino
  first_injection-Untouched (create_file parent name mode flags uid gid) s =
      Keeps.keeps_inject_with_parent p (Untouched s) (λ t c i. i) Method.create parent name
  first_injection-Untouched init s = Ensures-pure tt tt
  first_injection-Untouched destroy s = Ensures-pure tt tt
  first_injection-Untouched (forget ino n) s = Ensures-pure tt tt
  first_injection-Untouched (release fh) s = Ensures-pure tt tt
  first_injection-Untouched (releasedir fh) s = Ensures-pure tt tt
  first_injection-Untouched (fsyncdir ino) s = Ensures-pure tt tt
  first_injection-Untouched getlk s = Ensures-pure tt tt
  first_injection-Untouched setlk s = Ensures-pure tt tt
  first_injection-Untouched bmap s = Ensures-pure tt tt

  -- Where the first injection of a request fails with an error, the request is answered with the
  -- number of that error, no call of the kernel was made, and the file system is as it was.
  pub serve-first_injection :
      (r : Request p) (s : State p) (e : HookFsError)
      → (first_injection p r s).0 ≡ err e
      → (served_error (serve p r s).0 ≡ some (into_c_int e))
        × ((serve p r s).1.fs ≡ s.fs)
        × ((serve p r s).1.world ≡ s.world)
  unfolding Untouched
  serve-first_injection r s e h =
      let (answered, same) = serve-Refused p r s e h in
      let (fs, world) = after (first_injection-Untouched r s) s (refl, refl) in
      (answered, ap (λ t. t.fs) same ∙ fs, ap (λ t. t.world) same ∙ world)
