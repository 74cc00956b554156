-- ===== src/Hookfs/Stable.antt =====
-- What an invariant must be kept by, so that every request keeps it: the few calls on the state
-- that the handlers are made of.
pub mod Rules
pub mod Handlers
pub mod FileHandlers
pub mod Requests
use toda.Base.{ℕ, ◌≡◌, Option, none, some, List}
use toda.Action.{Result, ok, err, ⊤}
use toda.Action.Ensures.{Ensures, Any}
use toda.FilePath.{FilePath, Name}
use toda.Injector.Method.{Method}
use toda.Hookfs.Os.{Platform, File, Dir}
use toda.Hookfs.Reply.{FileAttr, Reply}
use toda.Hookfs.InodeMap.{InodeMap, get_path, insert_path, remove_path, increase_ref, decrease_ref}
use toda.Hookfs.State.{State, with_inodes, child, modify_inodes}
use toda.Hookfs.Inject.{inject, inject_attr, inject_reply, inject_write_data}
use toda.Hookfs.Files.{insert_file, remove_file}
use toda.Hookfs.Dirs.{insert_dir, releasedir}

pub record Stable (p : Platform) : Type 1 where
  -- the invariant; what holds of the paths it keeps; the names that a request may carry
  pub I : State p → Type 0
  pub P : FilePath → Type 0
  pub N : Name → Type 0
  -- whether data may be written
  pub W : Type 0
  pub world : (s : State p) (w : p.os.World) → I s → I (record s { world = w })
  pub known :
      (s : State p) (ino : ℕ) {path : FilePath}
      → I s
      → get_path ino s.fs.inode_map ≡ ok path
      → P path
  pub child_of : (path : FilePath) (name : Name) → P path → N name → P (child p path name)
  pub inserts :
      (ino : ℕ) (path : FilePath) → P path → Ensures I Any (modify_inodes p (insert_path ino path))
  pub removes : (ino : ℕ) (path : FilePath) → Ensures I Any (modify_inodes p (remove_path ino path))
  pub increases : (ino : ℕ) → Ensures I Any (modify_inodes p (increase_ref ino))
  pub decreases : (ino n : ℕ) → Ensures I Any (modify_inodes p (decrease_ref ino n))
  pub opens : (f : File) → P f.original_path → Ensures I Any (insert_file p f)
  pub closes : (fh : ℕ) → Ensures I Any (remove_file p fh)
  pub opens_dir : (d : Dir) → P d.original_path → Ensures I Any (insert_dir p d)
  pub closes_dir : (fh : ℕ) → Ensures I Any (releasedir p fh)
  pub known_file :
      (s : State p) (fh : ℕ) {f : File}
      → I s
      → p.files.get fh s.fs.opened_files ≡ some f
      → P f.original_path
  pub known_dir :
      (s : State p) (fh : ℕ) {d : Dir}
      → I s
      → p.dirs.get fh s.fs.opened_dirs ≡ some d
      → P d.original_path
  pub injects : (method : Method) (path : FilePath) → P path → Ensures I Any (inject p method path)
  pub injects_attr :
      (a : FileAttr) (path : FilePath) → P path → Ensures I Any (inject_attr p a path)
  pub injects_reply :
      (method : Method) (path : FilePath) (r : Reply)
      → P path
      → Ensures I Any (inject_reply p method path r)
  pub injects_write_data : (fh : ℕ) (xs : List ℕ) → W → Ensures I Any (inject_write_data p fh xs)
