-- ===== src/Hookfs/Rooted.antt =====
-- Every path that src/hookfs/mod.rs keeps, of an inode, an open file or an open directory, is below
-- the original directory, so `rebuild_path` can show it below the mount point.
pub mod Paths
pub mod Steps
pub mod Stays
pub mod Shown
use Paths.{Under}
use toda.Base.{ℕ, ◌≡◌, true, some}
use toda.FilePath.{FilePath}
use toda.Hookfs.Os.{Platform, File, Dir}
use toda.Hookfs.InodeMap.Paths.{knows}
use toda.Hookfs.State.{HookFs, State}

module _ (p : Platform) (mount root : FilePath) where
  pub record RootedFs (fs : HookFs p) : Type 0 where
    pub mounted : fs.mount_path ≡ mount
    pub original : fs.original_path ≡ root
    pub of_inodes :
        (ino : ℕ) (path : FilePath) → knows fs.inode_map ino path ≡ true → Under root path
    pub of_files :
        (fh : ℕ) (f : File) → p.files.get fh fs.opened_files ≡ some f → Under root f.original_path
    pub of_dirs :
        (fh : ℕ) (d : Dir) → p.dirs.get fh fs.opened_dirs ≡ some d → Under root d.original_path

  abbrev pub IsRooted : State p → Type 0
  IsRooted s = RootedFs s.fs
