-- ===== src/Hookfs/Attrs.antt =====
-- `lookup`, `forget`, `getattr`, `setattr`, `readlink` of src/hookfs/mod.rs.
use toda.Base.{ℕ, Option, none, some}
use Prim.Native.Nat.{bit_and}
use toda.Action.{⊤, ◌>>=◌, ◌>>◌, pure, lift}
use toda.FilePath.{FilePath, Name, as_bytes}
use toda.Injector.Method
use toda.Hookfs.Os.{Platform}
use toda.Hookfs.Reply.{Entry, Attr, Data}
use toda.Hookfs.InodeMap.{decrease_ref}
use toda.Hookfs.State.{Call, nix, libc, modify_inodes, path_of, remember, c_string, child}
use toda.Hookfs.Inject.{
  inject_with_ino, inject_with_parent_and_name, get_file_attr, reply_entry, reply_attr, reply_data,
}
use toda.Hookfs.Utils.{TimeOrNow, convert_time, to_i64}

module _ (p : Platform) where
  open p use {os}

  unfoldable pub lookup : ℕ → Name → Call p Entry
  lookup parent name = do
    inject_with_parent_and_name p Method.lookup parent name
    parent_path ← path_of p parent
    let path = child p parent_path name
    stat ← get_file_attr p path
    remember p stat.ino path
    reply_entry p Method.lookup path stat

  unfoldable pub forget : ℕ → ℕ → Call p ⊤
  forget ino nlookup = modify_inodes p (decrease_ref ino nlookup)

  unfoldable pub getattr : ℕ → Call p Attr
  getattr ino = do
    inject_with_ino p Method.getattr ino
    path ← path_of p ino
    stat ← get_file_attr p path
    reply_attr p Method.getattr path stat

  -- `async_lchown`, `async_fchmodat` with `Mode::from_bits_truncate`, `async_truncate`
  abbrev pub async_lchown : FilePath → Option ℕ → Option ℕ → Call p ⊤
  async_lchown path uid gid = nix p (os.fchownat path uid gid)

  abbrev pub truncate_bits : ℕ → ℕ → ℕ
  truncate_bits all bits = bit_and all bits

  abbrev pub change_mode : FilePath → Option ℕ → Call p ⊤
  change_mode path none = pure tt
  change_mode path (some mode) = nix p (os.fchmodat path (truncate_bits os.all_modes mode))

  abbrev pub change_size : FilePath → Option ℕ → Call p ⊤
  change_size path none = pure tt
  change_size path (some size) = nix p (os.truncate path (to_i64 size))

  unfoldable pub setattr :
      ℕ
      → Option ℕ
      → Option ℕ
      → Option ℕ
      → Option ℕ
      → Option TimeOrNow
      → Option TimeOrNow
      → Call p Attr
  setattr ino mode uid gid size atime mtime = do
    inject_with_ino p Method.setattr ino
    path ← path_of p ino
    async_lchown path uid gid
    change_mode path mode
    change_size path size
    atime' ← lift (convert_time atime)
    mtime' ← lift (convert_time mtime)
    cpath ← c_string p (as_bytes path)
    libc p (os.utimensat cpath atime' mtime')
    stat ← get_file_attr p path
    reply_attr p Method.getattr path stat

  unfoldable pub readlink : ℕ → Call p Data
  readlink ino = do
    inject_with_ino p Method.readlink ino
    link_path ← path_of p ino
    target ← nix p (os.readlink link_path)
    target' ← c_string p target
    reply_data p Method.readlink link_path target'
