-- ===== src/Mount/System.antt =====
-- What src/mount.rs and src/mount_injector.rs take from outside: the calls of the kernel on a world of
-- their own, procfs, fuser and retry. A failed call gives a number.
pub mod Sample
use toda.Base.{ℕ, suc, ◌≡◌, ◌⊎◌, inl, inr, List, [], ◌∷◌, if◌then◌else◌}
use toda.Task.{Task, Exit, returns, fails, ⊤}
use toda.FilePath.{FilePath, path_beq}

pub record MountSystem : Type 1 where
  pub World : Type 0
  -- the mount points of `Process::myself()?.mountinfo()?`
  pub mountinfo : World → (ℕ ⊎ List FilePath) × World
  pub create_dir_all : FilePath → World → (ℕ ⊎ ⊤) × World
  -- `mount` with MS_MOVE and with MS_BIND, from a path to a path, and `umount`
  pub mount_move : FilePath → FilePath → World → (ℕ ⊎ ⊤) × World
  pub mount_bind : FilePath → FilePath → World → (ℕ ⊎ ⊤) × World
  pub umount : FilePath → World → (ℕ ⊎ ⊤) × World
  -- `fuser::mount` up to where it serves requests, with the errors that it returns before or after
  pub fuse_mount : FilePath → World → (ℕ ⊎ ⊤) × World
  -- `retry(Fixed::from_millis(delay).take(times), operation)`, where every error is tried again
  pub retry : ℕ → ℕ → (World → (ℕ ⊎ ⊤) × World) → World → (ℕ ⊎ ⊤) × World

pub data MountError : Type 0 where
  system : ℕ → MountError
  root_mount path_is_root no_file_name not_utf8 handler_is_empty : MountError

abbrev pub system_exit : {A : Type 0} → ℕ ⊎ A → Exit MountError A
system_exit (inl e) = fails (system e)
system_exit (inr a) = returns a

unfoldable pub called : {W A : Type 0} → (W → (ℕ ⊎ A) × W) → Task MountError W A
called call w = let (r, w') = call w in (system_exit r, w')

-- What is mounted: a directory, or the file system of this program.
pub data Origin : Type 0 where
  directory : FilePath → Origin
  fuse : Origin

-- For each path, what is mounted there, the last mount first.
abbrev pub Table : Type 0
Table = FilePath → List Origin

abbrev pub first_or : Origin → List Origin → Origin
first_or o [] = o
first_or o (p ∷ ps) = p

abbrev pub rest_of : List Origin → List Origin
rest_of [] = []
rest_of (o ∷ os) = os

abbrev pub shown : FilePath → Table → Origin
shown p t = first_or (directory p) (t p)

abbrev pub push : FilePath → Origin → Table → Table
push p o t q = if path_beq q p then o ∷ t q else t q

abbrev pub pop : FilePath → Table → Table
pop p t q = if path_beq q p then rest_of (t q) else t q

abbrev pub OnOk : {A : Type 0} → ℕ ⊎ A → Type 0 → Type 0
OnOk (inl e) P = Unit
OnOk (inr a) P = P

abbrev pub OnError : {A : Type 0} → ℕ ⊎ A → Type 0 → Type 0
OnError (inl e) P = P
OnError (inr a) P = Unit

abbrev pub again : {W : Type 0} → (W → (ℕ ⊎ ⊤) × W) → (ℕ ⊎ ⊤) × W → (ℕ ⊎ ⊤) × W
again next (inl e, w) = next w
again next (inr t, w) = (inr t, w)

-- What mount(2), umount(2) and retry document of calls on paths none of which lies below another.
module _ (x : MountSystem) where
  open x use {World, mountinfo, create_dir_all, mount_move, mount_bind, umount, fuse_mount, retry}

  pub record MountLaws : Type 0 where
    pub table : World → Table
    pub mountinfo_table : (w : World) → table (mountinfo w).1 ≡ table w
    pub create_dir_all_table : (p : FilePath) (w : World) → table (create_dir_all p w).1 ≡ table w
    pub move_table :
        (p q : FilePath) (w : World)
        → OnOk
            (mount_move p q w).0
            (table (mount_move p q w).1 ≡ push q (shown p (table w)) (pop p (table w)))
    pub bind_table :
        (p q : FilePath) (w : World)
        → OnOk
            (mount_bind p q w).0
            (table (mount_bind p q w).1 ≡ push q (shown p (table w)) (table w))
    pub umount_table :
        (p : FilePath) (w : World) → OnOk (umount p w).0 (table (umount p w).1 ≡ pop p (table w))
    pub umount_failed :
        (p : FilePath) (w : World) → OnError (umount p w).0 (table (umount p w).1 ≡ table w)
    pub fuse_table :
        (p : FilePath) (w : World)
        → OnOk (fuse_mount p w).0 (table (fuse_mount p w).1 ≡ push p fuse (table w))
    pub retry_zero : (delay : ℕ) (f : World → (ℕ ⊎ ⊤) × World) (w : World) → retry delay 0 f w ≡ f w
    pub retry_suc :
        (delay times : ℕ) (f : World → (ℕ ⊎ ⊤) × World) (w : World)
        → retry delay (suc times) f w ≡ again (retry delay times f) (f w)
