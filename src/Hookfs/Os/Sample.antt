-- ===== src/Hookfs/Os/Sample.antt =====
-- A concrete platform: a kernel in which every call succeeds and is counted, slabs as lists, and a
-- directory buffer with room for two entries.
use toda.Base.{
  ◌++◌, ℕ, ◌≡◌, ◌≢◌, ◌==◌, ==_iff, suc, nat_eq, Bool, true, false, Option, none, some, List, [],
  ◌∷◌, if◌then◌else◌, arith, length, leb, refl, Option-cases, inl, inr, replicate,
}
use toda.Base.Int.{pos}
use toda.FilePath.{FilePath, Name}
use toda.External.Sample.{sample}
use toda.Hookfs.Reply.{FileType}
use toda.Hookfs.Utils.{Stat, Timespec}
use toda.Hookfs.Os.{Outcome, done, Filled, Os, Slab, SlabLaws, File, Dir, Platform}

-- The newest value is first; its key is the number of those before it.
module _ {T : Type 0} where
  unfoldable pub get : ℕ → List (Option T) → Option T
  get k [] = none
  get k (x ∷ xs) = if k == length xs then x else get k xs

  clear : ℕ → List (Option T) → List (Option T)
  clear k [] = []
  clear k (x ∷ xs) = if k == length xs then none ∷ xs else x ∷ clear k xs

  cleared : ℕ → List (Option T) → Option T → Option (List (Option T))
  unfolding clear
  cleared k xs none = none
  cleared k xs (some t) = some (clear k xs)

  unfoldable pub remove : ℕ → List (Option T) → Option (List (Option T))
  unfolding get cleared
  remove k xs = cleared k xs (get k xs)

  get_beyond : (k : ℕ) (xs : List (Option T)) → leb (length xs) k ≡ true → get k xs ≡ none
  unfolding get
  get_beyond k [] h = refl
  get_beyond k (x ∷ xs) h = ground (arith, get_beyond k xs)

  length-clear : (k : ℕ) (xs : List (Option T)) → length (clear k xs) ≡ length xs
  unfolding clear
  length-clear k [] = refl
  length-clear k (x ∷ xs) = ground (arith, length-clear k xs)

  get-clear : (k : ℕ) (xs : List (Option T)) → get k (clear k xs) ≡ none
  unfolding get clear
  get-clear k [] = refl
  get-clear k (x ∷ xs) = ground (arith, get-clear k xs, length-clear k xs)

  get-clear_other :
      (k j : ℕ) (xs : List (Option T)) → (j == k) ≡ false → get j (clear k xs) ≡ get j xs
  unfolding get clear
  get-clear_other k j [] h = refl
  get-clear_other k j (x ∷ xs) h = ground (arith, get-clear_other k j xs, length-clear k xs)

abbrev pub sample_slab : (T : Type 0) → Slab T
sample_slab T = record {
  S = List (Option T);
  new = [];
  insert = λ t xs. (length xs, some t ∷ xs);
  get = get;
  remove = remove;
}

module _ {T : Type 0} where
  get-head : (t : T) (xs : List (Option T)) → get (length xs) (some t ∷ xs) ≡ some t
  unfolding get
  get-head t xs = ground arith

  get-tail : (t : T) (xs : List (Option T)) (k : ℕ) → k ≢ length xs → get k (some t ∷ xs) ≡ get k xs
  unfolding get
  get-tail t xs k h = ground (arith, ==_iff k (length xs))

  remove-missing : (k : ℕ) (xs : List (Option T)) → get k xs ≡ none → remove k xs ≡ none
  unfolding remove cleared
  remove-missing k xs h = rw h refl

  remove-present :
      (k : ℕ) (xs : List (Option T)) (t : T)
      → get k xs ≡ some t
      → (ys : List (Option T)) × (remove k xs ≡ some ys) × (get k ys ≡ none)
  unfolding remove cleared
  remove-present k xs t h = (clear k xs, rw h refl, get-clear k xs)

  remove-others :
      (k j : ℕ) (xs ys : List (Option T)) → remove k xs ≡ some ys → j ≢ k → get j ys ≡ get j xs
  unfolding remove cleared
  remove-others k j xs ys r h = elim (Option-cases (get k xs)) [
    | inl e ↦ ground (arith, remove-missing k xs)
    | inr (t, e) ↦ ground (arith, get-clear_other k j xs, ==_iff j k)
  ]

pub sample_slab-SlabLaws : (T : Type 0) → SlabLaws (sample_slab T)
unfolding get
sample_slab-SlabLaws T = record {
  get_new = λ k. refl;
  insert_fresh = λ t m. get_beyond (length m) m (ground arith);
  get_inserted = get-head;
  get_others = get-tail;
  remove_missing = remove-missing;
  remove_present = remove-present;
  remove_others = remove-others;
}

abbrev counted : {E A : Type 0} → A → ℕ → Outcome E A × ℕ
counted a w = (done a, suc w)

abbrev at_epoch : Timespec
at_epoch = record { tv_sec = pos 0; tv_nsec = pos 0 }

-- The stat of a directory whose inode is the number of its path's components.
abbrev stat_of : FilePath → Stat
stat_of path = record {
  st_mode = 0o040755;
  st_ino = length path;
  st_size = pos 4096;
  st_blocks = pos 8;
  st_atime = at_epoch;
  st_mtime = at_epoch;
  st_ctime = at_epoch;
  st_nlink = 2;
  st_uid = 0;
  st_gid = 0;
  st_rdev = 0;
  st_blksize = pos 4096;
}

abbrev zeros : ℕ → Filled
zeros n = record { ret = n; buffer = replicate n 0 }

abbrev pub counting : Os
counting = record {
  World = ℕ;
  lstat = λ path. counted (stat_of path);
  fchownat = λ path uid gid. counted tt;
  fchmodat = λ path mode. counted tt;
  truncate = λ path size. counted tt;
  readlink = λ path. counted (b'a' ∷ []);
  mkdir = λ path mode. counted tt;
  unlink = λ path. counted tt;
  symlinkat = λ target path. counted tt;
  renameat = λ old new. counted tt;
  linkat = λ old new. counted tt;
  open_file = λ path flags mode. counted 3;
  close = λ fd. counted tt;
  fsync = λ fd. counted tt;
  open_dir = λ path flags mode. counted 4;
  dir_entries = λ dir w. ([], w);
  close_dir = λ dir w. w;
  statfs = λ path. counted (record {
    blocks = 0;
    bfree = 0;
    bavail = 0;
    files = 0;
    ffree = 0;
    bsize = 4096;
    namelen = 255;
    frsize = 4096;
  });
  access = λ path mask. counted tt;
  umask = λ mask w. w;
  mknod = λ path mode dev. counted tt;
  rmdir = λ path. counted tt;
  utimensat = λ path atime mtime. counted tt;
  lsetxattr = λ path name value flags. counted tt;
  lgetxattr = λ path name size. counted (zeros size);
  llistxattr = λ path size. counted (zeros size);
  lremovexattr = λ path name. counted tt;
  pread = λ fd size offset. counted (zeros size);
  pwrite = λ fd contents offset. counted (length contents);
  sync_all = λ path. counted tt;
  all_oflags = 0o7777777;
  all_modes = 0o7777;
  all_access = 7;
}

-- An entry with its offset, kind and name, and room for two.
abbrev pub Slot : Type 0
Slot = ℕ × (ℕ × (FileType × Name))

abbrev pub add_slot : ℕ → ℕ → FileType → Name → List Slot → Bool × List Slot
add_slot ino offset kind name buffer =
    if leb 2 (length buffer)
    then (true, buffer)
    else (false, buffer ++ (ino, (offset, (kind, name))) ∷ [])

abbrev pub sample_platform : Platform
sample_platform = record {
  external = sample;
  os = counting;
  files = sample_slab File;
  dirs = sample_slab Dir;
  replies = record { Buffer = List Slot; add = add_slot };
}
