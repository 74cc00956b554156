-- ===== src/Mount.antt =====
-- src/mount.rs: the mount table, and whether a path lies on a mount. The calls that move and bind
-- mounts are in Mount/Injector.
pub mod Encode
pub mod Points
pub mod System
pub mod Tables
pub mod Injector
pub mod Makes
pub mod Recovered
mod Tests
use toda.Base.{Bool, true, false, List, [], ◌∷◌, if◌then◌else◌}
use toda.FilePath.{FilePath, starts_with}

-- The mount points of the table, in its order.
pub record MountsInfo : Type 0 where
  pub mounts : List FilePath

unfoldable pub contains_path : FilePath → List FilePath → Bool
contains_path path [] = false
contains_path path (m ∷ ms) = if starts_with path m then true else contains_path path ms

-- `MountsInfo::non_root`
unfoldable pub non_root : MountsInfo → FilePath → Bool
unfolding contains_path
non_root info path = contains_path path info.mounts
