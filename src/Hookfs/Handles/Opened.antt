-- ===== src/Hookfs/Handles/Opened.antt =====
-- A file from `open` over `read` to `release`, as requests (src/hookfs/mod.rs).
use toda.Base.{ℕ, ◌≡◌, refl, false, some}
use toda.Action.{Action, ok, ◌>>◌, ◌>>=◌}
use toda.Injector.Method
use toda.Injector.Method.{Method}
use toda.FilePath.{FilePath}
use toda.Hookfs.InodeMap.{get_path}
use toda.Hookfs.Attrs.{truncate_bits}
use toda.Hookfs.Reply.{Reply, reply_ok, reply_err, reply, dropped}
use toda.Hookfs.Errors.{NixError, from_nix, into_c_int}
use toda.Hookfs.Os.{Platform, SlabLaws, done, failed, File}
use toda.Hookfs.State.{State, nix}
use toda.Hookfs.Files.{
  open_file, release, remove_file, close_file, without, o_append, o_direct, s_irwxu,
}
use toda.Hookfs.Service.{Request, serve, empty}

module _ (p : Platform) (files : SlabLaws p.files) where
  -- The flags with which a file is opened: those that the kernel asked for, less two.
  abbrev pub asked : ℕ → ℕ
  asked flags = truncate_bits p p.os.all_oflags (without (without flags o_append) o_direct)

  module _ (ino flags fd : ℕ) (path : FilePath) (s : State p)
      (disabled : s.fs.enable_injection ≡ false) (known : get_path ino s.fs.inode_map ≡ ok path)
      (opens : (p.os.open_file path (asked flags) s_irwxu s.world).0 ≡ done fd) where
    abbrev file : File
    file = record { fd = fd; original_path = path }

    abbrev handle : ℕ
    handle = (p.files.insert file s.fs.opened_files).0

    abbrev after_open : State p
    after_open = record s {
      fs = record s.fs { opened_files = (p.files.insert file s.fs.opened_files).1 };
      world = (p.os.open_file path (asked flags) s_irwxu s.world).1;
    }

  -- `release` of an open file whose descriptor does not close is answered with that error, and the
  -- handle stays open: of the file system nothing changes.
  pub serve-release_failed :
      (fh : ℕ) (s : State p) (f : File) (e : NixError)
      → p.files.get fh s.fs.opened_files ≡ some f
      → (p.os.close f.fd s.world).0 ≡ failed e
      → let (answer, t) = serve p (Request.release fh) s in
        (answer ≡ empty (reply_err (into_c_int (from_nix e))))
        × (t.fs ≡ s.fs)
        × (t.world ≡ (p.os.close f.fd s.world).1)
  unfolding serve release close_file remove_file ◌>>◌ ◌>>=◌ reply nix
  serve-release_failed fh s f e h c = rw (h, c) (refl, refl, refl)

  -- A descriptor is closed once: after a release of an open file whose descriptor closes, a second
  -- release of the handle panics, so its reply object is dropped with no call on it; it changes
  -- nothing, and of the kernel only the one `close` was called.
  pub serve-release_twice :
      (fh : ℕ) (s : State p) (f : File)
      → p.files.get fh s.fs.opened_files ≡ some f
      → (p.os.close f.fd s.world).0 ≡ done tt
      → let (answer, t) = serve p (Request.release fh) s in
        let (second, u) = serve p (Request.release fh) t in
        (answer ≡ empty (reply_ok tt))
        × (second ≡ empty dropped)
        × (u ≡ t)
        × (t.world ≡ (p.os.close f.fd s.world).1)
  unfolding serve release close_file remove_file ◌>>◌ ◌>>=◌ reply nix
  serve-release_twice fh s f h c =
      let (m, r, gone) = files.remove_present fh s.fs.opened_files f h in
      rw (h, c, r, gone, files.remove_missing fh m gone) (refl, refl, refl, refl)
