-- ===== src/Hookfs/Files.antt =====
-- `open`, `read`, `write`, `flush`, `release`, `fsync`, `create` of src/hookfs/mod.rs, and the locks,
-- which are left to the kernel.
use Prim.Native.Nat.{bit_and}
use toda.Base.{ℕ, ◌-◌, ◌%◌, Option, none, some, List}
use toda.Base.Int.{ℤ, two32}
use toda.Action.{ok, ⊤, ◌>>=◌, ◌>>◌, pure, throw, crash}
use toda.FilePath.{Name}
use toda.Base.{take, replicate, ◌++◌}
use toda.Injector.Method
use toda.Hookfs.Errors.{HookFsError, enosys}
use toda.Hookfs.Os.{Platform, File, Filled}
use toda.Hookfs.Reply.{Open, Data, Write, Create, Lock, write, create}
use toda.Hookfs.State.{HookFs, Call, nix, libc, path_of, remember, file_of, child}
use toda.Hookfs.Inject.{
  inject_with_ino, inject_with_fh, inject_with_parent_and_name, inject_write_data, inject_reply,
  get_file_attr, reply_open, reply_data, write_of, create_of,
}
use toda.Hookfs.Attrs.{async_lchown, truncate_bits}

abbrev pub o_append : ℕ
o_append = 0o2000

abbrev pub o_direct : ℕ
o_direct = 0o40000

-- `flags & !flag` on the 32 bits of the flags
abbrev pub without : ℕ → ℕ → ℕ
without flags flag = bit_and flags (two32 - 1 - flag)

-- stat::Mode::S_IRWXU
abbrev pub s_irwxu : ℕ
s_irwxu = 0o700

-- `buf.resize(ret as usize, 0)`
abbrev pub resized : Filled → List ℕ
resized r = take r.ret (r.buffer ++ replicate r.ret 0)

module _ (p : Platform) where
  open p use {os}

  abbrev with_files : HookFs p → p.files.S → HookFs p
  with_files fs files = record fs { opened_files = files }

  -- `opened_files.write().await.insert(File::new(fd, path)) as u64`
  unfoldable pub insert_file : File → Call p ℕ
  insert_file file s =
      let (fh, files) = p.files.insert file s.fs.opened_files in
      (ok fh, record s { fs = with_files s.fs files })

  abbrev pub or_crash : Option p.files.S → Call p ⊤
  or_crash none = crash
  or_crash (some files) = λ s. (ok tt, record s { fs = with_files s.fs files })

  -- `opened_files.remove(fh)`
  unfoldable pub remove_file : ℕ → Call p ⊤
  remove_file fh s = or_crash (p.files.remove fh s.fs.opened_files) s

  unfoldable pub close_file : Option File → Call p ⊤
  close_file none = pure tt
  close_file (some file) = nix p (os.close file.fd)

  unfoldable pub open_file : ℕ → ℕ → Call p Open
  open_file ino flags = do
    inject_with_ino p Method.open_file ino
    let filtered_flags = truncate_bits p os.all_oflags (without (without flags o_append) o_direct)
    path ← path_of p ino
    fd ← nix p (os.open_file path filtered_flags s_irwxu)
    fh ← insert_file (record { fd = fd; original_path = path })
    reply_open p Method.open_file path fh 0

  unfoldable pub read : ℕ → ℤ → ℕ → Call p Data
  read fh offset size = do
    inject_with_fh p Method.read fh
    file ← file_of p fh
    filled ← libc p (os.pread file.fd size offset)
    reply_data p Method.read file.original_path (resized filled)

  unfoldable pub write_file : ℕ → ℤ → List ℕ → Call p Write
  write_file fh offset contents = do
    inject_with_fh p Method.write fh
    altered ← inject_write_data p fh contents
    file ← file_of p fh
    size ← libc p (os.pwrite file.fd altered offset)
    let w : Write = record { size = size % two32 }
    r ← inject_reply p Method.write file.original_path (write w)
    pure (write_of w r)

  unfoldable pub flush : ℕ → Call p ⊤
  flush fh = do inject_with_fh p Method.flush fh; file ← file_of p fh; nix p (os.fsync file.fd)

  -- A handle that is not open makes the removal panic.
  unfoldable pub release : ℕ → Call p ⊤
  release fh = do (λ s. close_file (p.files.get fh s.fs.opened_files) s); remove_file fh

  unfoldable pub fsync : ℕ → Call p ⊤
  fsync fh = do inject_with_fh p Method.fsync fh; file ← file_of p fh; nix p (os.fsync file.fd)

  unfoldable pub create_file : ℕ → Name → ℕ → ℕ → ℕ → ℕ → Call p Create
  create_file parent name mode flags uid gid = do
    inject_with_parent_and_name p Method.create parent name
    parent_path ← path_of p parent
    let path = child p parent_path name
    let filtered_flags = truncate_bits p os.all_oflags (without flags o_append)
    fd ← nix p (os.open_file path filtered_flags (truncate_bits p os.all_modes mode))
    async_lchown p path (some uid) (some gid)
    stat ← get_file_attr p path
    fh ← insert_file (record { fd = fd; original_path = path })
    remember p stat.ino path
    let c : Create = record { attr = stat; generation = 0; fh = fh; flags = flags }
    r ← inject_reply p Method.create path (create c)
    pure (create_of c r)

  unfoldable pub getlk : Call p Lock
  getlk = throw (HookFsError.sys enosys)

  unfoldable pub setlk : Call p ⊤
  setlk = throw (HookFsError.sys enosys)
