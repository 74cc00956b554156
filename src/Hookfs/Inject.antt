-- ===== src/Hookfs/Inject.antt =====
-- The macros of src/hookfs/mod.rs that call the injectors, and `get_file_attr`.
pub mod Keeps
use toda.Base.{ℕ, List, Option, none, some, if◌then◌else◌}
use toda.Action.{Result, ok, err, panic, ⊤, ◌>>=◌, pure, lift, when}
use toda.FilePath.{FilePath, Name}
use toda.Injector.Method.{Method}
use toda.Injector.Multi
use toda.Hookfs.Os.{Platform, File}
use toda.Hookfs.Reply.{
  FileAttr, Reply, Entry, Open, Attr, Data, StatFs, Write, Create, Xattr, entry, open_reply, attr,
  bytes, stat_fs, write, create, xattr,
}
use toda.Hookfs.InodeMap.{get_path}
use toda.Hookfs.State.{Call, nix, injecting, rebuild_path, child}
use toda.Hookfs.Utils.{convert_libc_stat_to_fuse_stat}

module _ (p : Platform) where
  -- `self.rebuild_path(path)?`
  unfoldable pub rebuilt : FilePath → Call p FilePath
  rebuilt path s = (rebuild_path p s.fs path, s)

  unfoldable pub if_enabled : Call p ⊤ → Call p ⊤
  if_enabled act s = when s.fs.enable_injection act s

  -- `inject!`
  unfoldable pub inject : Method → FilePath → Call p ⊤
  inject method path = if_enabled (do
    target ← rebuilt path
    λ s. injecting p (Multi.inject p.external s.fs.injector method target) s)

  abbrev pub inject_at : Result FilePath → Method → Call p ⊤
  inject_at (ok path) method = inject method path
  inject_at (err e) method = pure tt
  inject_at panic method = pure tt

  abbrev pub child_at : Result FilePath → Name → Result FilePath
  child_at (ok parent) name = ok (child p parent name)
  child_at (err e) name = err e
  child_at panic name = panic

  -- `inject_with_ino!`
  unfoldable pub inject_with_ino : Method → ℕ → Call p ⊤
  unfolding inject
  inject_with_ino method ino s = inject_at (get_path ino s.fs.inode_map) method s

  -- `inject_with_parent_and_name!`
  unfoldable pub inject_with_parent_and_name : Method → ℕ → Name → Call p ⊤
  unfolding inject
  inject_with_parent_and_name method parent name s =
      inject_at (child_at (get_path parent s.fs.inode_map) name) method s

  abbrev pub path_of_open :
      {A : Type 0} → (A → FilePath) → Option A → Call p ⊤ → (FilePath → Call p ⊤) → Call p ⊤
  path_of_open path none otherwise f = otherwise
  path_of_open path (some a) otherwise f = f (path a)

  -- `inject_with_fh!`
  unfoldable pub inject_with_fh : Method → ℕ → Call p ⊤
  unfolding inject
  inject_with_fh method fh s =
      path_of_open (λ f. f.original_path) (p.files.get fh s.fs.opened_files) (pure tt)
        (inject method) s

  -- `inject_with_dir_fh!`
  unfoldable pub inject_with_dir_fh : Method → ℕ → Call p ⊤
  unfolding inject
  inject_with_dir_fh method fh s =
      path_of_open (λ d. d.original_path) (p.dirs.get fh s.fs.opened_dirs) (pure tt) (inject method)
        s

  unfoldable pub write_data_of : Option File → List ℕ → Call p (List ℕ)
  write_data_of none xs = pure xs
  write_data_of (some file) xs = do
    target ← rebuilt file.original_path
    λ s. injecting p (Multi.inject_write_data p.external s.fs.injector target xs) s

  -- `inject_write_data!`: the switch `enable_injection` is not asked.
  unfoldable pub inject_write_data : ℕ → List ℕ → Call p (List ℕ)
  unfolding write_data_of
  inject_write_data fh xs s = write_data_of (p.files.get fh s.fs.opened_files) xs s

  unfoldable pub alter_attr : FileAttr → FilePath → Call p FileAttr
  alter_attr a target s =
      let (a', c) = Multi.inject_attr p.external s.fs.injector a target s.context in
      (ok a', record s { context = c })

  -- `inject_attr!`
  unfoldable pub inject_attr : FileAttr → FilePath → Call p FileAttr
  unfolding alter_attr
  inject_attr a path s = (if s.fs.enable_injection then rebuilt path >>= alter_attr a else pure a) s

  -- `inject_reply!`
  unfoldable pub inject_reply : Method → FilePath → Reply → Call p Reply
  inject_reply method path r s =
      (if s.fs.enable_injection
          then (do
            target ← rebuilt path
            λ t. injecting p (Multi.inject_reply p.external t.fs.injector method target r) t)
          else pure r)
        s

  -- `get_file_attr`
  unfoldable pub get_file_attr : FilePath → Call p FileAttr
  unfolding inject_attr
  get_file_attr path = do
    stat ← nix p (p.os.lstat path)
    a ← lift (convert_libc_stat_to_fuse_stat stat)
    inject_attr a path

-- A reply that is borrowed as `Reply::X(&mut reply)` keeps its kind.
abbrev pub entry_of : Entry → Reply → Entry
entry_of old (entry e) = e
entry_of old _ = old

abbrev pub open_of : Open → Reply → Open
open_of old (open_reply o) = o
open_of old _ = old

abbrev pub attr_of : Attr → Reply → Attr
attr_of old (attr a) = a
attr_of old _ = old

abbrev pub data_of : Data → Reply → Data
data_of old (bytes d) = d
data_of old _ = old

abbrev pub stat_fs_of : StatFs → Reply → StatFs
stat_fs_of old (stat_fs st) = st
stat_fs_of old _ = old

abbrev pub write_of : Write → Reply → Write
write_of old (write w) = w
write_of old _ = old

abbrev pub create_of : Create → Reply → Create
create_of old (create c) = c
create_of old _ = old

abbrev pub xattr_of : Xattr → Reply → Xattr
xattr_of old (xattr x) = x
xattr_of old _ = old

module _ (p : Platform) where
  -- `let mut reply = Entry::new(stat, 0); inject_reply!(self, METHOD, path, reply, Entry);`
  abbrev pub reply_entry : Method → FilePath → FileAttr → Call p Entry
  reply_entry method path stat =
      let e : Entry = record { stat = stat; generation = 0 } in
      inject_reply p method path (entry e) >>= λ r. pure (entry_of e r)

  abbrev pub reply_attr : Method → FilePath → FileAttr → Call p Attr
  reply_attr method path stat =
      let a : Attr = record { attr = stat } in
      inject_reply p method path (attr a) >>= λ r. pure (attr_of a r)

  abbrev pub reply_data : Method → FilePath → List ℕ → Call p Data
  reply_data method path xs =
      let d : Data = record { bytes = xs } in
      inject_reply p method path (bytes d) >>= λ r. pure (data_of d r)

  abbrev pub reply_open : Method → FilePath → ℕ → ℕ → Call p Open
  reply_open method path fh flags =
      let o : Open = record { fh = fh; flags = flags } in
      inject_reply p method path (open_reply o) >>= λ r. pure (open_of o r)
