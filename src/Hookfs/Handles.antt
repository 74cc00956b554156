-- ===== src/Hookfs/Handles.antt =====
-- Open files and directories from `open` to `release` (src/hookfs/mod.rs).
pub mod Opened
use toda.Base.{ℕ, ◌≡◌, ◌≢◌, refl, none, some}
use toda.Action.{ok, ◌>>◌, ◌>>=◌}
use toda.Hookfs.Reply.{dropped, reply_ok, reply}
use toda.Hookfs.Os.{Platform, SlabLaws, done, File}
use toda.Hookfs.State.{State, nix}
use toda.Hookfs.Files.{release, remove_file, close_file}
use toda.Hookfs.Dirs.{releasedir}
use toda.Hookfs.Service.{serve, empty}
use toda.Hookfs.Service.Request.{releasedir as releasedir_request, release as release_request}

module _ (p : Platform) (files : SlabLaws p.files) (dirs : SlabLaws p.dirs) where
  -- `release` of a handle that is not open panics, so its reply object is dropped with no call on it,
  -- and nothing changes.
  pub serve-release_unknown :
      (fh : ℕ) (s : State p)
      → p.files.get fh s.fs.opened_files ≡ none
      → serve p (release_request fh) s ≡ (empty dropped, s)
  unfolding serve release close_file remove_file ◌>>◌ ◌>>=◌ reply
  serve-release_unknown fh s h = rw (h, files.remove_missing fh s.fs.opened_files h) refl

  -- `releasedir` of a handle that is not open panics, so its reply object is dropped with no call on it,
  -- and nothing changes.
  pub serve-releasedir_unknown :
      (fh : ℕ) (s : State p)
      → p.dirs.get fh s.fs.opened_dirs ≡ none
      → serve p (releasedir_request fh) s ≡ (empty dropped, s)
  unfolding serve releasedir reply
  serve-releasedir_unknown fh s h = rw (dirs.remove_missing fh s.fs.opened_dirs h) refl

  -- `release` of an open file whose descriptor closes answers well: the handle is free then, every
  -- other open file keeps its handle, and of the kernel only `close` was called.
  pub serve-release_known :
      (fh : ℕ) (s : State p) (f : File)
      → p.files.get fh s.fs.opened_files ≡ some f
      → (p.os.close f.fd s.world).0 ≡ done tt
      → let (answer, t) = serve p (release_request fh) s in
        (answer ≡ empty (reply_ok tt))
        × (p.files.get fh t.fs.opened_files ≡ none)
        × ((k : ℕ) → k ≢ fh → p.files.get k t.fs.opened_files ≡ p.files.get k s.fs.opened_files)
        × (t.world ≡ (p.os.close f.fd s.world).1)
  unfolding serve release close_file remove_file ◌>>◌ ◌>>=◌ reply nix
  serve-release_known fh s f h c =
      let (m, r, gone) = files.remove_present fh s.fs.opened_files f h in
      rw (h, c, r) (refl, gone, λ k d. files.remove_others fh k s.fs.opened_files m r d, refl)
