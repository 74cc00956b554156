-- ===== src/Hookfs/Rooted/Steps.antt =====
-- The calls that the handlers are made of keep every path below the original directory.
use toda.Hookfs.Rooted.Paths.{Under, Under-join, IsRelative}
use toda.Base.{
  refl, subst, ℕ, ◌≡◌, ◌==◌, true, Option, none, some, arith, Bool-cases, inl, inr, nat_eq, ◌&&◌,
  list_beq_iff,
}
use toda.Action.{⊤, ok}
use toda.Action.Ensures.{Ensures, Any, Post}
use toda.FilePath.{FilePath, parse, path_beq, component_eq}
use toda.Hookfs.Os.{Platform, SlabLaws, File, Dir}
use toda.Hookfs.InodeMap.{InodeMap, insert_path, remove_path, increase_ref, decrease_ref, get_path}
use toda.Hookfs.InodeMap.Paths.{knows, knows-insert_path, knows-remove_path}
use toda.Hookfs.InodeMap.Keeping.{knows-get_path, knows-increase_ref, knows-decrease_ref}
use toda.Hookfs.State.{State, modify_inodes}
use toda.Hookfs.Inject.Keeps
use toda.Hookfs.Files.{insert_file, remove_file}
use toda.Hookfs.Files
use toda.Hookfs.Dirs
use toda.Hookfs.Dirs.{insert_dir, releasedir}
use toda.Hookfs.Os.Slabs.{insert-Holds, remove-Holds}
use toda.Hookfs.Stable.{Stable}
use toda.Hookfs.Rooted.{IsRooted}

module _ (p : Platform) (mount root : FilePath) (files : SlabLaws p.files)
    (dirs : SlabLaws p.dirs) where
  abbrev I : State p → Type 0
  I = IsRooted p mount root

  modify_inodes_keeps :
      (f : InodeMap → InodeMap)
      → ((m : InodeMap) (ino : ℕ) (path : FilePath)
          → ((i : ℕ) (q : FilePath) → knows m i q ≡ true → Under root q)
          → knows (f m) ino path ≡ true
          → Under root path)
      → Ensures I Any (modify_inodes p f)
  unfolding modify_inodes
  modify_inodes_keeps f h = record {
    run = λ s i. (
      record {
        mounted = i.mounted;
        original = i.original;
        of_inodes = λ ino path e. h s.fs.inode_map ino path i.of_inodes e;
        of_files = i.of_files;
        of_dirs = i.of_dirs;
      },
      tt,
    );
  }

  pub inserts :
      (ino : ℕ) (path : FilePath)
      → Under root path
      → Ensures I Any (modify_inodes p (insert_path ino path))
  inserts ino path u = modify_inodes_keeps (insert_path ino path) λ m j q h e.
      elim (Bool-cases (j == ino && path_beq path q)) [
        | inl same ↦
            (let eq : path ≡ q = ground (arith, list_beq_iff path q) in
              subst (λ t. Under root t) eq u)
        | inr other ↦ h j q (ground (arith, knows-insert_path ino j path q m))
      ]

  pub removes : (ino : ℕ) (path : FilePath) → Ensures I Any (modify_inodes p (remove_path ino path))
  removes ino path =
      modify_inodes_keeps (remove_path ino path)
        λ m j q h e. h j q (ground (arith, knows-remove_path ino j path q m))

  pub increases : (ino : ℕ) → Ensures I Any (modify_inodes p (increase_ref ino))
  increases ino =
      modify_inodes_keeps (increase_ref ino)
        λ m j q h e. h j q (ground (arith, knows-increase_ref ino j q m))

  pub decreases : (ino n : ℕ) → Ensures I Any (modify_inodes p (decrease_ref ino n))
  decreases ino n =
      modify_inodes_keeps (decrease_ref ino n) λ m j q h e. h j q (knows-decrease_ref ino n j q m e)

  with_files :
      (s : State p) (m : p.files.S)
      → ((k : ℕ) (f : File) → p.files.get k m ≡ some f → Under root f.original_path)
      → I s
      → I (record s { fs = record s.fs { opened_files = m } })
  with_files s m h i = record {
    mounted = i.mounted;
    original = i.original;
    of_inodes = i.of_inodes;
    of_files = h;
    of_dirs = i.of_dirs;
  }

  with_dirs :
      (s : State p) (w : p.os.World) (m : p.dirs.S)
      → ((k : ℕ) (d : Dir) → p.dirs.get k m ≡ some d → Under root d.original_path)
      → I s
      → I (record s { fs = record s.fs { opened_dirs = m }; world = w })
  with_dirs s w m h i = record {
    mounted = i.mounted;
    original = i.original;
    of_inodes = i.of_inodes;
    of_files = i.of_files;
    of_dirs = h;
  }

  pub opens : (f : File) → Under root f.original_path → Ensures I Any (insert_file p f)
  unfolding insert_file
  opens f u = record {
    run = λ s i. (
      with_files s _
          (insert-Holds files (λ g. Under root g.original_path) f s.fs.opened_files u i.of_files) i,
      tt,
    );
  }

  pub opens_dir : (d : Dir) → Under root d.original_path → Ensures I Any (insert_dir p d)
  unfolding insert_dir
  opens_dir d u = record {
    run = λ s i. (
      with_dirs s s.world _
          (insert-Holds dirs (λ g. Under root g.original_path) d s.fs.opened_dirs u i.of_dirs) i,
      tt,
    );
  }

  closed :
      (s : State p) (o : Option p.files.S)
      → ((m : p.files.S)
          → o ≡ some m
          → (k : ℕ) (f : File) → p.files.get k m ≡ some f
          → Under root f.original_path)
      → I s
      → Post I Any (Files.or_crash p o s)
  closed s none h i = i
  closed s (some m) h i = (with_files s m (h m refl) i, tt)

  pub closes : (fh : ℕ) → Ensures I Any (remove_file p fh)
  unfolding remove_file
  closes fh = record {
    run = λ s i.
        closed s (p.files.remove fh s.fs.opened_files)
          (λ m e.
            remove-Holds files (λ g. Under root g.original_path) fh s.fs.opened_files m e
              i.of_files)
          i;
  }

  closed_dir :
      (s : State p) (o : Option p.dirs.S) (d : Option Dir)
      → ((m : p.dirs.S)
          → o ≡ some m
          → (k : ℕ) (f : Dir) → p.dirs.get k m ≡ some f
          → Under root f.original_path)
      → I s
      → Post I Any (Dirs.or_crash p o d s)
  closed_dir s none d h i = i
  closed_dir s (some m) d h i = (with_dirs s (Dirs.drop_dir p d s.world) m (h m refl) i, tt)

  pub closes_dir : (fh : ℕ) → Ensures I Any (releasedir p fh)
  unfolding releasedir
  closes_dir fh = record {
    run = λ s i.
        closed_dir s (p.dirs.remove fh s.fs.opened_dirs) _
          (λ m e.
            remove-Holds dirs (λ g. Under root g.original_path) fh s.fs.opened_dirs m e i.of_dirs)
          i;
  }

  pub known :
      (s : State p) (ino : ℕ) {path : FilePath}
      → I s
      → get_path ino s.fs.inode_map ≡ ok path
      → Under root path
  known s ino {path} i e = i.of_inodes ino path (knows-get_path ino s.fs.inode_map path e)

  unfoldable pub rooted : Stable p
  rooted = record {
    I = I;
    P = Under root;
    N = IsRelative;
    W = ⊤;
    world = λ s w i. i;
    known = known;
    child_of = λ path name u n. Under-join root path (parse name) n u;
    inserts = inserts;
    removes = removes;
    increases = increases;
    decreases = decreases;
    opens = opens;
    closes = closes;
    opens_dir = opens_dir;
    closes_dir = closes_dir;
    known_file = λ s fh {f} i e. i.of_files fh f e;
    known_dir = λ s fh {d} i e. i.of_dirs fh d e;
    injects = λ method path u. Keeps.keeps_inject p I (λ s c i. i) method path;
    injects_attr = λ a path u. Keeps.keeps_inject_attr p I (λ s c i. i) a path;
    injects_reply = λ method path r u. Keeps.keeps_inject_reply p I (λ s c i. i) method path r;
    injects_write_data = λ fh xs w. Keeps.keeps_inject_write_data p I (λ s c i. i) fh xs;
  }
