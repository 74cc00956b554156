-- ===== src/Hookfs/Rooted/Shown.antt =====
-- Where the kernel's paths are shown to the injectors: `rebuild_path` of src/hookfs/mod.rs.
use toda.Base.{refl, ℕ, ◌≡◌, ◌++◌}
use toda.Action.{ok}
use toda.FilePath.{FilePath, join}
use toda.FilePath.Laws.{strip_prefix-append}
use toda.Hookfs.Os.{Platform}
use toda.Hookfs.InodeMap.{get_path}
use toda.Hookfs.InodeMap.Keeping.{knows-get_path}
use toda.Hookfs.State.{State, rebuild_path}
use toda.Hookfs.Rooted.{IsRooted}

module _ (p : Platform) (mount root : FilePath) (s : State p) (i : IsRooted p mount root s) where
  -- Where all paths begin with the original directory, `rebuild_path` succeeds on the path of every
  -- inode: it gives the rest of the path joined to the mount point.
  pub rebuild_path-get_path :
      (ino : ℕ) (path : FilePath)
      → get_path ino s.fs.inode_map ≡ ok path
      → (q : FilePath) × (path ≡ root ++ q) × (rebuild_path p s.fs path ≡ ok (join mount q))
  unfolding rebuild_path
  rebuild_path-get_path ino path e =
      let (q, below) = i.of_inodes ino path (knows-get_path ino s.fs.inode_map path e) in
      (q, below, rw (i.original, i.mounted, below, strip_prefix-append root q) refl)
