-- ===== src/Hookfs/Xattrs.antt =====
-- `setxattr`, `getxattr`, `listxattr`, `removexattr` of src/hookfs/mod.rs.
use toda.Base.{ℕ, ◌%◌, List, [], ◌∷◌, length, ◌==◌, if◌then◌else◌}
use toda.Base.Int.{two32}
use toda.Action.{⊤, ◌>>=◌, ◌>>◌, pure, throw}
use toda.FilePath.{Name, as_bytes}
use toda.Injector.Method
use toda.Hookfs.Errors.{HookFsError}
use toda.Hookfs.Os.{Platform}
use toda.Hookfs.Reply.{Xattr, xattr}
use toda.Hookfs.Reply.{Xattr}
use toda.Hookfs.State.{Call, libc, path_of, c_string}
use toda.Hookfs.Inject.{inject_with_ino, inject_reply, xattr_of}
use toda.Hookfs.Files.{resized}

-- `if size == 0 { Xattr::size(..) } else { Xattr::data(..) }`
abbrev pub xattr_reply : ℕ → ℕ → List ℕ → Xattr
xattr_reply size len contents =
    if size == 0 then Xattr.size (len % two32) else Xattr.contents contents

module _ (p : Platform) where
  open p use {os}

  -- `&data[0]` of an empty value panics in the task, which awaits as an unknown error.
  unfoldable pub async_setxattr : List ℕ → List ℕ → List ℕ → ℕ → Call p ⊤
  async_setxattr path name [] flags = throw HookFsError.unknown_error
  async_setxattr path name (b ∷ value) flags = libc p (os.lsetxattr path name (b ∷ value) flags)

  unfoldable pub setxattr : ℕ → Name → List ℕ → ℕ → Call p ⊤
  unfolding async_setxattr
  setxattr ino name value flags = do
    inject_with_ino p Method.setxattr ino
    path ← path_of p ino
    cpath ← c_string p (as_bytes path)
    cname ← c_string p name
    async_setxattr cpath cname value flags

  unfoldable pub getxattr : ℕ → Name → ℕ → Call p Xattr
  getxattr ino name size = do
    inject_with_ino p Method.getxattr ino
    path ← path_of p ino
    cpath ← c_string p (as_bytes path)
    cname ← c_string p name
    filled ← libc p (os.lgetxattr cpath cname size)
    let contents = resized filled
    let reply = xattr_reply size (length contents) contents
    r ← inject_reply p Method.getxattr path (xattr reply)
    pure (xattr_of reply r)

  -- The whole buffer is sent, whatever the call returned. The number of a failure is read on another
  -- thread than that of the call, so it may be any.
  unfoldable pub listxattr : ℕ → ℕ → Call p Xattr
  listxattr ino size = do
    inject_with_ino p Method.listxattr ino
    path ← path_of p ino
    cpath ← c_string p (as_bytes path)
    filled ← libc p (os.llistxattr cpath size)
    let reply = xattr_reply size filled.ret filled.buffer
    r ← inject_reply p Method.listxattr path (xattr reply)
    pure (xattr_of reply r)

  unfoldable pub removexattr : ℕ → Name → Call p ⊤
  removexattr ino name = do
    inject_with_ino p Method.removexattr ino
    path ← path_of p ino
    cpath ← c_string p (as_bytes path)
    cname ← c_string p name
    libc p (os.lremovexattr cpath cname)
