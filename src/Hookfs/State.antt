-- ===== src/Hookfs/State.antt =====
-- `struct HookFs` of src/hookfs/mod.rs with the world around it, and the calls on its parts. Each
-- request runs from its start to its end: what other requests do while it awaits is not seen.
use toda.Base.{ℕ, ◌==◌, Bool, true, false, Option, none, some, List, [], ◌∷◌, nat_eq, if◌then◌else◌}
use toda.Base.Map
use toda.Action.{Action, Result, ok, err, ⊤, pure, throw, or_throw}
use toda.FilePath.{FilePath, Name, join, parse, strip_prefix}
use toda.Injector.Context.{Context}
use toda.Injector.Multi.{MultiInjector}
use toda.Hookfs.Errors.{HookFsError, NixError, from_nix}
use toda.Hookfs.InodeMap.{InodeMap, insert_path, increase_ref, get_path}
use toda.Hookfs.Os.{Platform, Outcome, done, failed, File, Dir}

pub record HookFs (p : Platform) : Type 0 where
  pub mount_path : FilePath
  pub original_path : FilePath
  pub enable_injection : Bool
  pub opened_files : p.files.S
  pub opened_dirs : p.dirs.S
  pub injector : MultiInjector p.external
  pub inode_map : InodeMap

pub record State (p : Platform) : Type 0 where
  pub fs : HookFs p
  pub world : p.os.World
  pub context : Context p.external

-- `HookFs::new`
unfoldable pub new : (p : Platform) → FilePath → FilePath → MultiInjector p.external → HookFs p
new p mount_path original_path injector = record {
  mount_path = mount_path;
  original_path = original_path;
  enable_injection = false;
  opened_files = p.files.new;
  opened_dirs = p.dirs.new;
  injector = injector;
  inode_map = insert_path 1 original_path Map.empty;
}

-- `enable_injection`, `disable_injection`
unfoldable pub set_injection : (p : Platform) → Bool → HookFs p → HookFs p
set_injection p enabled fs = record fs { enable_injection = enabled }

abbrev pub Call : Platform → Type 0 → Type 0
Call p A = Action (State p) A

module _ (p : Platform) where
  open p use {os, external}

  abbrev pub after_nix : {A : Type 0} → Outcome NixError A → Result A
  after_nix (done a) = ok a
  after_nix (failed e) = err (from_nix e)

  abbrev pub after_libc : {A : Type 0} → Outcome ℕ A → Result A
  after_libc (done a) = ok a
  after_libc (failed errno) = err (HookFsError.sys errno)

  -- `spawn_blocking(move || call).await??` for a call of nix, and one of libc whose failure is read
  -- from errno by `Error::last()`.
  unfoldable pub nix : {A : Type 0} → (os.World → Outcome NixError A × os.World) → Call p A
  nix call s = let (r, w) = call s.world in (after_nix r, record s { world = w })

  unfoldable pub libc : {A : Type 0} → (os.World → Outcome ℕ A × os.World) → Call p A
  libc call s = let (r, w) = call s.world in (after_libc r, record s { world = w })

  -- A call on the injectors.
  unfoldable pub injecting : {A : Type 0} → Action (Context external) A → Call p A
  injecting act s = let (r, c) = act s.context in (r, record s { context = c })

  abbrev pub with_inodes : HookFs p → (InodeMap → InodeMap) → HookFs p
  with_inodes fs f = record fs { inode_map = f fs.inode_map }

  unfoldable pub modify_inodes : (InodeMap → InodeMap) → Call p ⊤
  modify_inodes f s = (ok tt, record s { fs = with_inodes s.fs f })

  -- `inode_map.get_path(ino)?`
  unfoldable pub path_of : ℕ → Call p FilePath
  path_of ino s = (get_path ino s.fs.inode_map, s)

  -- `inode_map.insert_path(ino, path); inode_map.increase_ref(ino);`
  unfoldable pub remember : ℕ → FilePath → Call p ⊤
  remember ino path = modify_inodes λ m. increase_ref ino (insert_path ino path m)

  abbrev or_strip_error : Option FilePath → FilePath → Result FilePath
  or_strip_error none mount_path = err HookFsError.strip_prefix_error
  or_strip_error (some tail) mount_path = ok (join mount_path tail)

  -- `HookFs::rebuild_path`
  unfoldable pub rebuild_path : HookFs p → FilePath → Result FilePath
  rebuild_path fs path = or_strip_error (strip_prefix path fs.original_path) fs.mount_path

  -- `opened_files.get(fh)?`, `opened_dirs.get_mut(fh)?`
  unfoldable pub file_of : ℕ → Call p File
  file_of fh s = or_throw (p.files.get fh s.fs.opened_files) (HookFsError.fh_not_found fh) s

  unfoldable pub dir_of : ℕ → Call p Dir
  dir_of fh s = or_throw (p.dirs.get fh s.fs.opened_dirs) (HookFsError.fh_not_found fh) s

  abbrev has_nul : List ℕ → Bool
  has_nul [] = false
  has_nul (c ∷ s) = if c == 0 then true else has_nul s

  -- `CString::new(bytes)?`
  unfoldable pub c_string : List ℕ → Call p (List ℕ)
  c_string s = if has_nul s then throw HookFsError.invalid_str else pure s

  -- `parent_path.join(name)`
  abbrev pub child : FilePath → Name → FilePath
  child parent name = join parent (parse name)
