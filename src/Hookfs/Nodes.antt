-- ===== src/Hookfs/Nodes.antt =====
-- `mknod`, `mkdir`, `unlink`, `rmdir`, `symlink`, `rename`, `link` of src/hookfs/mod.rs.
use toda.Base.{ℕ, some}
use toda.Action.{⊤, ◌>>=◌, ◌>>◌}
use toda.FilePath.{FilePath, Name, as_bytes}
use toda.Injector.Method
use toda.Hookfs.Os.{Platform}
use toda.Hookfs.Reply.{Entry}
use toda.Hookfs.InodeMap.{insert_path, remove_path}
use toda.Hookfs.State.{Call, nix, libc, modify_inodes, path_of, remember, c_string, child}
use toda.Hookfs.Inject.{
  inject, inject_with_ino, inject_with_parent_and_name, get_file_attr, reply_entry,
}
use toda.Hookfs.Attrs.{async_lchown, truncate_bits}

module _ (p : Platform) where
  open p use {os}

  -- The end that the calls share which make a new name: its attributes, the inode map, the reply.
  unfoldable pub enter : FilePath → Call p Entry
  enter path = do
    stat ← get_file_attr p path
    remember p stat.ino path
    reply_entry p Method.lookup path stat

  -- The injector is asked twice.
  unfoldable pub mknod : ℕ → Name → ℕ → ℕ → ℕ → ℕ → Call p Entry
  unfolding enter
  mknod parent name mode rdev uid gid = do
    inject_with_parent_and_name p Method.mknod parent name
    parent_path ← path_of p parent
    let path = child p parent_path name
    inject p Method.mknod path
    cpath ← c_string p (as_bytes path)
    libc p (os.mknod cpath mode rdev)
    async_lchown p path (some uid) (some gid)
    enter path

  unfoldable pub mkdir : ℕ → Name → ℕ → ℕ → ℕ → Call p Entry
  unfolding enter
  mkdir parent name mode uid gid = do
    inject_with_parent_and_name p Method.mkdir parent name
    parent_path ← path_of p parent
    let path = child p parent_path name
    nix p (os.mkdir path (truncate_bits p os.all_modes mode))
    async_lchown p path (some uid) (some gid)
    enter path

  unfoldable pub unlink : ℕ → Name → Call p ⊤
  unlink parent name = do
    inject_with_parent_and_name p Method.unlink parent name
    parent_path ← path_of p parent
    let path = child p parent_path name
    stat ← get_file_attr p path
    nix p (os.unlink path)
    modify_inodes p (remove_path stat.ino path)

  unfoldable pub rmdir : ℕ → Name → Call p ⊤
  rmdir parent name = do
    inject_with_parent_and_name p Method.rmdir parent name
    parent_path ← path_of p parent
    let path = child p parent_path name
    stat ← get_file_attr p path
    cpath ← c_string p (as_bytes path)
    libc p (os.rmdir cpath)
    modify_inodes p (remove_path stat.ino path)

  unfoldable pub symlink : ℕ → Name → FilePath → ℕ → ℕ → Call p Entry
  unfolding enter
  symlink parent name link uid gid = do
    inject_with_parent_and_name p Method.symlink parent name
    parent_path ← path_of p parent
    let path = child p parent_path name
    nix p (os.symlinkat link path)
    async_lchown p path (some uid) (some gid)
    enter path

  -- The flags of the request are not used.
  unfoldable pub rename : ℕ → Name → ℕ → Name → Call p ⊤
  rename parent name newparent newname = do
    inject_with_parent_and_name p Method.rename parent name
    parent_path ← path_of p parent
    let old_path = child p parent_path name
    new_parent_path ← path_of p newparent
    let new_path = child p new_parent_path newname
    nix p (os.renameat old_path new_path)
    stat ← get_file_attr p new_path
    modify_inodes p (remove_path stat.ino old_path)
    modify_inodes p (insert_path stat.ino new_path)

  unfoldable pub link : ℕ → ℕ → Name → Call p Entry
  unfolding enter
  link ino newparent newname = do
    inject_with_ino p Method.link ino
    original_path ← path_of p ino
    new_parent_path ← path_of p newparent
    let new_path = child p new_parent_path newname
    nix p (os.linkat original_path new_path)
    enter new_path
