-- ===== src/Hookfs/Utils/Times.antt =====
-- Times of the C library as times of the standard library, and back.
use toda.Base.{ℕ, ◌+◌, ◌*◌, ◌<◌, ◌≡◌, some, arith}
use toda.Base.Int.{ℤ, pos, negsuc}
use toda.Action.{ok, panic}
use toda.Hookfs.Reply.{SystemTime}
use toda.Hookfs.Utils.{
  Stat, Timespec, specific_time, convert_time, system_time, kind_of_mode,
  convert_libc_stat_to_fuse_stat, two63, nano_unit,
}

abbrev pub valid_time : ℕ → ℕ → SystemTime
valid_time s n = record { sec = pos s; nsec = n }

abbrev pub valid_timespec : ℕ → ℕ → Timespec
valid_timespec s n = record { tv_sec = pos s; tv_nsec = pos n }

pub system_time-pos :
    (s n : ℕ) → s < two63 → n < nano_unit → system_time (pos s) (pos n) ≡ ok (valid_time s n)
unfolding system_time
system_time-pos s n h k = ground arith

pub convert_time-pos :
    (s n : ℕ)
    → n < nano_unit
    → s * nano_unit + n < two63
    → convert_time (some (specific_time (valid_time s n))) ≡ ok (valid_timespec s n)
unfolding convert_time
convert_time-pos s n k h = ground arith

-- A time at or after the epoch whose nanoseconds fit an i64 goes from the C library to the
-- standard library and back to `setattr` unchanged.
pub convert_time-system_time :
    (s n : ℕ)
    → n < nano_unit
    → s * nano_unit + n < two63
    → (t : SystemTime) × (system_time (pos s) (pos n) ≡ ok t)
      × (convert_time (some (specific_time t)) ≡ ok (valid_timespec s n))
convert_time-system_time s n k h =
    (valid_time s n, system_time-pos s n (omega arith) k, convert_time-pos s n k h)

-- A time of the C library before the epoch (whose seconds are an i64) makes the conversion panic,
-- whatever its nanoseconds.
pub system_time-negsuc : (s : ℕ) (nsec : ℤ) → s < two63 → system_time (negsuc s) nsec ≡ panic
unfolding system_time
system_time-negsuc s (pos n) h = ground arith
system_time-negsuc s (negsuc n) h = ground arith

-- A file whose access time lies before the epoch has no attributes: where its type is known, the
-- conversion of its status panics.
pub convert_stat-before_epoch :
    (stat : Stat) (s : ℕ) {kind : _}
    → s < two63
    → kind_of_mode stat.st_mode ≡ some kind
    → stat.st_atime.tv_sec ≡ negsuc s
    → convert_libc_stat_to_fuse_stat stat ≡ panic
unfolding convert_libc_stat_to_fuse_stat
convert_stat-before_epoch stat s h e f =
    ground (arith, system_time-negsuc s stat.st_atime.tv_nsec h)
