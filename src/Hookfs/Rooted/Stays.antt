-- ===== src/Hookfs/Rooted/Stays.antt =====
-- That every path stays below the original directory, through every history of requests.
use toda.Hookfs.Rooted.Paths.{Under, Under-root, IsRelative}
use toda.Base.{
  refl, subst, ◌==◌, List, arith, Bool-cases, inl, inr, nat_eq, ◌&&◌, All, list_beq_iff,
}
use toda.Action.{⊤}
use toda.FilePath.{FilePath, path_beq, component_eq}
use toda.Injector.Context.{Context}
use toda.Hookfs.Os.{Platform, SlabLaws}
use toda.Hookfs.InodeMap.Paths.{knows-empty, knows-insert_path}
use toda.Base.Map
use toda.Injector.Multi.{MultiInjector}
use toda.Hookfs.State.{new}
use toda.Hookfs.Service.{Request, serve_all}
use toda.Hookfs.Stable.Requests
use toda.Hookfs.Rooted.{RootedFs, IsRooted}
use toda.Hookfs.Rooted.Steps.{rooted}

-- The names that a request carries are relative paths.
unfoldable pub IsRelativeRequest : (p : Platform) → Request p → Type 0
IsRelativeRequest p r = Requests.Allowed p IsRelative ⊤ r

module _ (p : Platform) (mount root : FilePath) (files : SlabLaws p.files)
    (dirs : SlabLaws p.dirs) where
  new-IsRooted :
      (injector : MultiInjector p.external) → RootedFs p mount root (new p mount root injector)
  unfolding new
  new-IsRooted injector = record {
    mounted = refl;
    original = refl;
    of_inodes = λ ino path e. elim (Bool-cases (ino == 1 && path_beq root path)) [
      | inl same ↦
          subst (λ t. Under root t) (ground (arith, list_beq_iff root path)) (Under-root root)
      | inr other ↦
          ground (arith, knows-insert_path 1 ino root path Map.empty, knows-empty ino path)
    ];
    of_files = λ fh f e. ground (arith, files.get_new fh);
    of_dirs = λ fh d e. ground (arith, dirs.get_new fh);
  }

  -- A file system of `HookFs::new` has, after every history of requests with relative names and
  -- whatever each of them answered, the mount point and the original directory that it was made
  -- with, and every path it keeps of an inode, an open file or an open directory begins with the
  -- original directory.
  pub serve_all-IsRooted :
      (injector : MultiInjector p.external) (w : p.os.World) (c : Context p.external)
      (rs : List (Request p))
      → All (IsRelativeRequest p) rs
      → IsRooted p mount root
          (serve_all p rs (record { fs = new p mount root injector; world = w; context = c }))
  unfolding IsRelativeRequest rooted
  serve_all-IsRooted injector w c rs h =
      Requests.serve_all-keeps p (rooted p mount root files dirs) rs _ h (new-IsRooted injector)
