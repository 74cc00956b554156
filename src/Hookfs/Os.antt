-- ===== src/Hookfs/Os.antt =====
-- What the file system takes from outside the repository: the calls of the kernel (through the
-- crates `nix` and `libc`, and `std::fs`), the slab of the crate `slab`, and the directory buffer of
-- the crate `fuser`. A call gets the state of the world and gives the next one.
pub mod Slabs
pub mod Sample
use toda.Base.{ℕ, ◌≡◌, ◌≢◌, Bool, Option, none, some, List}
use toda.Base.Int.{ℤ}
use toda.Action.{⊤}
use toda.FilePath.{FilePath, Name}
use toda.External.{External}
use toda.Hookfs.Errors.{NixError}
use toda.Hookfs.Reply.{FileType, StatFs}
use toda.Hookfs.Utils.{Stat, Timespec, DirType}

-- The result of a call, with its error: a nix::Error, or the errno of the C library.
pub data Outcome (E A : Type 0) : Type 0 where
  done : A → Outcome E A
  failed : E → Outcome E A

-- nix::dir::Entry
pub record DirEntry : Type 0 where
  pub ino : ℕ
  pub file_type : Option DirType
  pub file_name : Name

-- A buffer that a C function filled, and the size that it returned.
pub record Filled : Type 0 where
  pub ret : ℕ
  pub buffer : List ℕ

pub record Os : Type 1 where
  pub World : Type 0
  -- nix
  pub lstat : FilePath → World → Outcome NixError Stat × World
  pub fchownat : FilePath → Option ℕ → Option ℕ → World → Outcome NixError ⊤ × World
  pub fchmodat : FilePath → ℕ → World → Outcome NixError ⊤ × World
  pub truncate : FilePath → ℤ → World → Outcome NixError ⊤ × World
  pub readlink : FilePath → World → Outcome NixError Name × World
  pub mkdir : FilePath → ℕ → World → Outcome NixError ⊤ × World
  pub unlink : FilePath → World → Outcome NixError ⊤ × World
  pub symlinkat : FilePath → FilePath → World → Outcome NixError ⊤ × World
  pub renameat : FilePath → FilePath → World → Outcome NixError ⊤ × World
  pub linkat : FilePath → FilePath → World → Outcome NixError ⊤ × World
  pub open_file : FilePath → ℕ → ℕ → World → Outcome NixError ℕ × World
  pub close : ℕ → World → Outcome NixError ⊤ × World
  pub fsync : ℕ → World → Outcome NixError ⊤ × World
  pub open_dir : FilePath → ℕ → ℕ → World → Outcome NixError ℕ × World
  pub dir_entries : ℕ → World → List (Outcome NixError DirEntry) × World
  pub close_dir : ℕ → World → World
  pub statfs : FilePath → World → Outcome NixError StatFs × World
  pub access : FilePath → ℕ → World → Outcome NixError ⊤ × World
  pub umask : ℕ → World → World
  -- libc, on paths and names as bytes; an error is the errno
  pub mknod : List ℕ → ℕ → ℕ → World → Outcome ℕ ⊤ × World
  pub rmdir : List ℕ → World → Outcome ℕ ⊤ × World
  pub utimensat : List ℕ → Timespec → Timespec → World → Outcome ℕ ⊤ × World
  pub lsetxattr : List ℕ → List ℕ → List ℕ → ℕ → World → Outcome ℕ ⊤ × World
  pub lgetxattr : List ℕ → List ℕ → ℕ → World → Outcome ℕ Filled × World
  pub llistxattr : List ℕ → ℕ → World → Outcome ℕ Filled × World
  pub lremovexattr : List ℕ → List ℕ → World → Outcome ℕ ⊤ × World
  pub pread : ℕ → ℕ → ℤ → World → Outcome ℕ Filled × World
  pub pwrite : ℕ → List ℕ → ℤ → World → Outcome ℕ ℕ × World
  -- `std::fs::File::open(path)?.sync_all()?`; its errors are not told apart
  pub sync_all : FilePath → World → Outcome ⊤ ⊤ × World
  -- the flags that nix knows: `OFlag::all()`, `Mode::all()`, `AccessFlags::all()`
  pub all_oflags : ℕ
  pub all_modes : ℕ
  pub all_access : ℕ

-- slab::Slab: `insert` picks the key; `remove` of a key that is not there panics.
pub record Slab (T : Type 0) : Type 1 where
  pub S : Type 0
  pub new : S
  pub insert : T → S → ℕ × S
  pub get : ℕ → S → Option T
  pub remove : ℕ → S → Option S

-- What the crate documents of it.
pub record SlabLaws {T : Type 0} (s : Slab T) : Type 0 where
  pub get_new : (k : ℕ) → s.get k s.new ≡ none
  pub insert_fresh : (t : T) (m : s.S) → s.get (s.insert t m).0 m ≡ none
  pub get_inserted : (t : T) (m : s.S) → s.get (s.insert t m).0 (s.insert t m).1 ≡ some t
  pub get_others :
      (t : T) (m : s.S) (k : ℕ) → k ≢ (s.insert t m).0 → s.get k (s.insert t m).1 ≡ s.get k m
  pub remove_missing : (k : ℕ) (m : s.S) → s.get k m ≡ none → s.remove k m ≡ none
  pub remove_present :
      (k : ℕ) (m : s.S) (t : T)
      → s.get k m ≡ some t
      → (m' : s.S) × (s.remove k m ≡ some m') × (s.get k m' ≡ none)
  pub remove_others :
      (k j : ℕ) (m m' : s.S) → s.remove k m ≡ some m' → j ≢ k → s.get j m' ≡ s.get j m

-- fuser::ReplyDirectory: `add` answers true if the entry did not fit.
pub record DirBuffer : Type 1 where
  pub Buffer : Type 0
  pub add : ℕ → ℕ → FileType → Name → Buffer → Bool × Buffer

-- `struct File`, `struct Dir` of src/hookfs/mod.rs; a nix::dir::Dir is a number.
pub record File : Type 0 where
  pub fd : ℕ
  pub original_path : FilePath

pub record Dir : Type 0 where
  pub dir : ℕ
  pub original_path : FilePath

pub record Platform : Type 1 where
  pub external : External
  pub os : Os
  pub files : Slab File
  pub dirs : Slab Dir
  pub replies : DirBuffer
