-- ===== src/Hookfs/Utils.antt =====
-- src/hookfs/utils.rs: values of the C library as values of FUSE, and times back again.
pub mod Times
mod Tests
use Prim.Native.Nat.{bit_and}
use toda.Base.{
  ℕ, zero, suc, ◌+◌, ◌-◌, ◌*◌, ◌/◌, ◌%◌, Option, none, some, ltb, leb, ◌==◌, if◌then◌else◌,
}
use toda.Base.Int.{ℤ, pos, negsuc, two31, two32}
use toda.Action.{Result, ok, err, panic}
use toda.Hookfs.Errors.{HookFsError}
use toda.Hookfs.Reply.{FileType, FileAttr, SystemTime}

-- nix::dir::Type
pub data DirType : Type 0 where
  fifo character_device directory block_device file symlink socket : DirType

unfoldable pub convert_filetype : DirType → FileType
convert_filetype fifo = FileType.named_pipe
convert_filetype character_device = FileType.char_device
convert_filetype directory = FileType.directory
convert_filetype block_device = FileType.block_device
convert_filetype file = FileType.regular_file
convert_filetype symlink = FileType.symlink
convert_filetype socket = FileType.socket

abbrev pub two63 : ℕ
two63 = 9_223_372_036_854_775_808

abbrev pub two64 : ℕ
two64 = 18_446_744_073_709_551_616

-- `x as u64` of an i64, and `x as i64` of a u128 or u64.
abbrev pub to_u64 : ℤ → ℕ
to_u64 (pos n) = n % two64
to_u64 (negsuc n) = two64 - 1 - n % two64

abbrev pub to_i64 : ℕ → ℤ
to_i64 n = let r = n % two64 in if ltb r two63 then pos r else negsuc (two64 - 1 - r)

abbrev pub nano_unit : ℕ
nano_unit = 1_000_000_000

-- libc::timespec
pub record Timespec : Type 0 where
  pub tv_sec : ℤ
  pub tv_nsec : ℤ

-- libc::stat
pub record Stat : Type 0 where
  pub st_mode : ℕ
  pub st_ino : ℕ
  pub st_size : ℤ
  pub st_blocks : ℤ
  pub st_atime : Timespec
  pub st_mtime : Timespec
  pub st_ctime : Timespec
  pub st_nlink : ℕ
  pub st_uid : ℕ
  pub st_gid : ℕ
  pub st_rdev : ℕ
  pub st_blksize : ℤ

-- A point in time that the standard library can represent: its seconds are an i64.
abbrev checked_time : ℕ → ℕ → Result SystemTime
checked_time s n = if ltb s two63 then ok (record { sec = pos s; nsec = n }) else panic

-- `UNIX_EPOCH + from_secs(sec as u64) + from_nanos(nsec as u64)`; each `+` panics on overflow.
unfoldable pub system_time : ℤ → ℤ → Result SystemTime
system_time sec nsec =
    let s = to_u64 sec in
    let n = to_u64 nsec in
    if ltb s two63 then checked_time (s + n / nano_unit) (n % nano_unit) else panic

-- The file type bits of a mode.
unfoldable pub kind_of_mode : ℕ → Option FileType
kind_of_mode mode =
    let fmt = bit_and mode 0o170000 in
    if fmt == 0o060000
    then some FileType.block_device
    else (if fmt == 0o020000
        then some FileType.char_device
        else (if fmt == 0o040000
            then some FileType.directory
            else (if fmt == 0o010000
                then some FileType.named_pipe
                else (if fmt == 0o120000
                    then some FileType.symlink
                    else (if fmt == 0o100000
                        then some FileType.regular_file
                        else (if fmt == 0o140000 then some FileType.socket else none))))))

infixl 5 ◌>>=◌
abbrev ◌>>=◌ : {A B : Type 0} → Result A → (A → Result B) → Result B
ok a >>= f = f a
err e >>= f = err e
panic >>= f = panic

abbrev or_unknown : {A : Type 0} → Option A → Result A
or_unknown none = err HookFsError.unknown_file_type
or_unknown (some a) = ok a

unfoldable pub convert_libc_stat_to_fuse_stat : Stat → Result FileAttr
unfolding kind_of_mode system_time
convert_libc_stat_to_fuse_stat stat = do
  kind ← or_unknown (kind_of_mode stat.st_mode)
  atime ← system_time stat.st_atime.tv_sec stat.st_atime.tv_nsec
  mtime ← system_time stat.st_mtime.tv_sec stat.st_mtime.tv_nsec
  ctime ← system_time stat.st_ctime.tv_sec stat.st_ctime.tv_nsec
  crtime ← system_time (pos 0) (pos 0)
  ok (record {
    ino = stat.st_ino;
    size = to_u64 stat.st_size;
    blocks = to_u64 stat.st_blocks;
    atime = atime;
    mtime = mtime;
    ctime = ctime;
    crtime = crtime;
    kind = kind;
    perm = bit_and stat.st_mode 0o7777;
    nlink = stat.st_nlink % two32;
    uid = stat.st_uid;
    gid = stat.st_gid;
    rdev = stat.st_rdev % two32;
    blksize = to_u64 stat.st_blksize % two32;
    padding = 0;
    flags = 0;
  })

-- fuser::TimeOrNow
pub data TimeOrNow : Type 0 where
  specific_time : SystemTime → TimeOrNow
  now : TimeOrNow

abbrev pub utime_now : ℕ
utime_now = 1_073_741_823

abbrev pub utime_omit : ℕ
utime_omit = 1_073_741_822

-- `/` and `%` of an i64 by a positive number: they round towards zero.
abbrev div_i64 : ℤ → ℕ → ℤ
div_i64 (pos n) d = pos (n / d)
div_i64 (negsuc n) d = elim (suc n / d) [ zero ↦ pos 0 | suc q ↦ negsuc q ]

abbrev mod_i64 : ℤ → ℕ → ℤ
mod_i64 (pos n) d = pos (n % d)
mod_i64 (negsuc n) d = elim (suc n % d) [ zero ↦ pos 0 | suc r ↦ negsuc r ]

abbrev timespec_of_nanos : ℤ → Timespec
timespec_of_nanos t = record { tv_sec = div_i64 t nano_unit; tv_nsec = mod_i64 t nano_unit }

-- `duration_since(UNIX_EPOCH).unwrap().as_nanos() as i64`
abbrev nanos_since_epoch : SystemTime → Result ℤ
nanos_since_epoch t = elim t.sec [ pos s ↦ ok (to_i64 (s * nano_unit + t.nsec)) | negsuc s ↦ panic ]

unfoldable pub convert_time : Option TimeOrNow → Result Timespec
convert_time (some (specific_time t)) = nanos_since_epoch t >>= λ n. ok (timespec_of_nanos n)
convert_time (some now) = ok (record { tv_sec = pos 0; tv_nsec = pos utime_now })
convert_time none = ok (record { tv_sec = pos 0; tv_nsec = pos utime_omit })
