-- ===== src/Hookfs/Dirs.antt =====
-- `opendir`, `readdir`, `releasedir`, `fsyncdir`, `statfs`, `access` of src/hookfs/mod.rs.
pub mod Pages
mod Tests
use toda.Base.{
  ℕ, ◌+◌, ◌%◌, Bool, true, false, Option, none, some, List, [], ◌∷◌, drop, length, leb,
  if◌then◌else◌,
}
use toda.Base.Int.{ℤ, two32}
use toda.Action.{Result, ok, err, ⊤, ◌>>=◌, ◌>>◌, pure, crash}
use toda.Injector.Method
use toda.Hookfs.Errors.{HookFsError, NixError, from_nix}
use toda.Hookfs.Os.{Platform, Dir, DirEntry, DirBuffer, Outcome, done, failed}
use toda.Hookfs.Reply.{Open, StatFs, stat_fs}
use toda.Hookfs.State.{HookFs, Call, nix, path_of, dir_of}
use toda.Hookfs.Inject.{inject_with_ino, inject_with_dir_fh, inject_reply, reply_open, stat_fs_of}
use toda.Hookfs.Attrs.{truncate_bits}
use toda.Hookfs.Files.{without, o_append, s_irwxu}
use toda.Hookfs.Utils.{convert_filetype, to_u64}

-- The loop of `readdir` over the entries from the offset on; `index` is the number of the next.
-- The buffer may have been filled before an entry fails.
module _ (b : DirBuffer) where
  abbrev pub add_next : Bool × b.Buffer → (b.Buffer → Result ⊤ × b.Buffer) → Result ⊤ × b.Buffer
  add_next (true, buffer) next = (ok tt, buffer)
  add_next (false, buffer) next = next buffer

  abbrev add_entry :
      ℕ → DirEntry → b.Buffer → (b.Buffer → Result ⊤ × b.Buffer) → Result ⊤ × b.Buffer
  add_entry index entry buffer next = elim entry.file_type [
    | none ↦ (err HookFsError.unknown_file_type, buffer)
    | some t ↦
        add_next (b.add entry.ino (index + 1) (convert_filetype t) entry.file_name buffer) next
  ]

  unfoldable pub add_entries : ℕ → List (Outcome NixError DirEntry) → b.Buffer → Result ⊤ × b.Buffer
  add_entries index [] buffer = (ok tt, buffer)
  add_entries index (failed e ∷ rest) buffer = (err (from_nix e), buffer)
  add_entries index (done entry ∷ rest) buffer =
      add_entry index entry buffer (λ buffer'. add_entries (index + 1) rest buffer')

  -- What `readdir` puts into the buffer from all entries and an offset.
  unfoldable pub fill_page : ℕ → List (Outcome NixError DirEntry) → b.Buffer → Result ⊤ × b.Buffer
  unfolding add_entries
  fill_page offset entries buffer =
      if leb (length entries) offset
      then (ok tt, buffer)
      else add_entries offset (drop offset entries) buffer

module _ (p : Platform) where
  open p use {os, replies}

  abbrev with_dirs : HookFs p → p.dirs.S → HookFs p
  with_dirs fs dirs = record fs { opened_dirs = dirs }

  unfoldable pub insert_dir : Dir → Call p ℕ
  insert_dir d s =
      let (fh, dirs) = p.dirs.insert d s.fs.opened_dirs in
      (ok fh, record s { fs = with_dirs s.fs dirs })

  unfoldable pub opendir : ℕ → ℕ → Call p Open
  opendir ino flags = do
    inject_with_ino p Method.opendir ino
    path ← path_of p ino
    let filtered_flags = truncate_bits p os.all_oflags (without flags o_append)
    d ← nix p (os.open_dir path filtered_flags s_irwxu)
    fh ← insert_dir (record { dir = d; original_path = path })
    reply_open p Method.opendir path fh flags

  -- The entries of an open directory, from its first.
  unfoldable pub all_entries : Dir → Call p (List (Outcome NixError DirEntry))
  all_entries d s = let (es, w) = os.dir_entries d.dir s.world in (ok es, record s { world = w })

  -- The buffer is the caller's: it comes back with the result.
  unfoldable pub readdir : ℕ → ℤ → replies.Buffer → Call p (Result ⊤ × replies.Buffer)
  unfolding fill_page
  readdir fh offset buffer = do
    inject_with_dir_fh p Method.readdir fh
    d ← dir_of p fh
    es ← all_entries d
    pure (fill_page replies (to_u64 offset) es buffer)

  abbrev pub drop_dir : Option Dir → os.World → os.World
  drop_dir none w = w
  drop_dir (some d) w = os.close_dir d.dir w

  abbrev pub or_crash : Option p.dirs.S → Option Dir → Call p ⊤
  or_crash none d = crash
  or_crash (some dirs) d =
      λ s. (ok tt, record s { fs = with_dirs s.fs dirs; world = drop_dir d s.world })

  -- Removing the entry drops the directory, which closes it; a handle that is not open panics.
  unfoldable pub releasedir : ℕ → Call p ⊤
  releasedir fh s = or_crash (p.dirs.remove fh s.fs.opened_dirs) (p.dirs.get fh s.fs.opened_dirs) s

  abbrev pub after_sync : Outcome ⊤ ⊤ → Result ⊤
  after_sync (done u) = ok u
  after_sync (failed u) = err HookFsError.unknown_error

  unfoldable pub fsyncdir : ℕ → Call p ⊤
  fsyncdir ino = do
    path ← path_of p ino
    λ s. let (r, w) = os.sync_all path s.world in (after_sync r, record s { world = w })

  -- The numbers are those of the root of the original tree.
  unfoldable pub statfs : ℕ → Call p StatFs
  statfs ino = do
    inject_with_ino p Method.statfs ino
    path ← path_of p ino
    stat ← (λ s. nix p (os.statfs s.fs.original_path) s)
    let reply : StatFs = record stat {
      bsize = stat.bsize % two32;
      namelen = stat.namelen % two32;
      frsize = stat.bsize % two32;
    }
    r ← inject_reply p Method.statfs path (stat_fs reply)
    pure (stat_fs_of reply r)

  unfoldable pub access : ℕ → ℕ → Call p ⊤
  access ino mask = do
    inject_with_ino p Method.access ino
    path ← path_of p ino
    nix p (os.access path (truncate_bits p os.all_access mask))
