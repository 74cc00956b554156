-- ===== src/Hookfs/Utils/Tests.antt =====
-- Conversions of concrete times and files.
use toda.Base.{◌≡◌, refl, some, arith}
use toda.Base.Int.{ℤ, pos, negsuc}
use toda.Action.{ok, panic}
use toda.FilePath.{component_eq}
use toda.Hookfs.Reply.{SystemTime, FileType}
use toda.Hookfs.Utils.{
  Stat, Timespec, specific_time, convert_time, system_time, convert_libc_stat_to_fuse_stat,
  kind_of_mode,
}
use toda.Hookfs.Utils.Times.{
  convert_time-system_time, system_time-negsuc, convert_stat-before_epoch, valid_timespec,
}

convert_time-system_time_example :
    (t : SystemTime) × (system_time (pos 12) (pos 34) ≡ ok t)
    × (convert_time (some (specific_time t)) ≡ ok (valid_timespec 12 34))
convert_time-system_time_example = convert_time-system_time 12 34 (omega arith) (omega arith)

system_time-negsuc_example : system_time (negsuc 4) (pos 7) ≡ panic
system_time-negsuc_example = system_time-negsuc 4 (pos 7) (omega arith)

abbrev at : ℤ → Timespec
at s = record { tv_sec = s; tv_nsec = pos 0 }

abbrev old_file : Stat
old_file = record {
  st_mode = 0o100644;
  st_ino = 5;
  st_size = pos 10;
  st_blocks = pos 1;
  st_atime = at (negsuc 4);
  st_mtime = at (pos 0);
  st_ctime = at (pos 0);
  st_nlink = 1;
  st_uid = 0;
  st_gid = 0;
  st_rdev = 0;
  st_blksize = pos 512;
}

convert_stat-before_epoch_example : convert_libc_stat_to_fuse_stat old_file ≡ panic
unfolding kind_of_mode
convert_stat-before_epoch_example =
    convert_stat-before_epoch old_file 4 {kind = FileType.regular_file} (omega arith) refl refl
