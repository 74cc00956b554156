-- ===== src/Injector/Config.antt =====
-- src/injector/injector_config.rs: the configuration as it comes from the user.
use toda.Base.{ℕ, Option, List}
use toda.Base.Int.{ℤ}
use toda.Hookfs.Reply.{SystemTime}

-- Texts are lists of code points.
abbrev pub Text : Type 0
Text = List ℕ

pub record FilterConfig : Type 0 where
  pub path : Option Text
  pub methods : Option (List Text)
  pub percent : ℤ

pub record LatencyConfig : Type 0 where
  pub filter : FilterConfig
  pub latency : ℕ

pub record FaultConfig : Type 0 where
  pub errno : ℤ
  pub weight : ℤ

pub record FaultsConfig : Type 0 where
  pub filter : FilterConfig
  pub faults : List FaultConfig

-- The file types of the configuration, not those of fuser.
pub data ConfigFileType : Type 0 where
  named_pipe char_device block_device directory regular_file symlink socket : ConfigFileType

pub record AttrOverrideConfig : Type 0 where
  pub path : Text
  pub percent : ℤ
  pub ino : Option ℕ
  pub size : Option ℕ
  pub blocks : Option ℕ
  pub atime : Option SystemTime
  pub mtime : Option SystemTime
  pub ctime : Option SystemTime
  pub kind : Option ConfigFileType
  pub perm : Option ℕ
  pub nlink : Option ℕ
  pub uid : Option ℕ
  pub gid : Option ℕ
  pub rdev : Option ℕ

pub data MistakeType : Type 0 where
  zero_fill random_fill : MistakeType

pub record MistakeConfig : Type 0 where
  pub filling : MistakeType
  pub max_length : ℕ
  pub max_occurrences : ℕ

pub record MistakesConfig : Type 0 where
  pub mistake : MistakeConfig
  pub filter : FilterConfig

pub data InjectorConfig : Type 0 where
  latency : LatencyConfig → InjectorConfig
  fault : FaultsConfig → InjectorConfig
  attr_override : AttrOverrideConfig → InjectorConfig
  mistake : MistakesConfig → InjectorConfig
