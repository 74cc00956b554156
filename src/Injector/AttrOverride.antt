-- ===== src/Injector/AttrOverride.antt =====
-- src/injector/attr_override_injector.rs: attributes that are replaced by configured ones.
pub mod Fields
use toda.Base.{ℕ, Option, none, some, if◌then◌else◌}
use mathlib.Core.Option
use toda.FilePath.{FilePath}
use toda.External.{External}
use toda.Hookfs.Reply.{FileAttr, FileType, SystemTime}
use toda.Injector.Config.{AttrOverrideConfig, ConfigFileType}
use toda.Injector.Filter.{Filter, matches}
use toda.Injector.Filter
use toda.Injector.Method

-- The attributes that the injector sets.
pub record Overrides : Type 0 where
  pub ino : Option ℕ
  pub size : Option ℕ
  pub blocks : Option ℕ
  pub atime : Option SystemTime
  pub mtime : Option SystemTime
  pub ctime : Option SystemTime
  pub kind : Option FileType
  pub perm : Option ℕ
  pub nlink : Option ℕ
  pub uid : Option ℕ
  pub gid : Option ℕ
  pub rdev : Option ℕ

pub record AttrOverrideInjector (x : External) : Type 0 where
  pub filter : Filter x
  pub overrides : Overrides

unfoldable pub build_kind : ConfigFileType → FileType
build_kind ConfigFileType.directory = FileType.directory
build_kind ConfigFileType.named_pipe = FileType.named_pipe
build_kind ConfigFileType.regular_file = FileType.regular_file
build_kind ConfigFileType.socket = FileType.socket
build_kind ConfigFileType.symlink = FileType.symlink
build_kind ConfigFileType.char_device = FileType.char_device
build_kind ConfigFileType.block_device = FileType.block_device

abbrev pub or_old : {A : Type 0} → Option A → A → A
or_old none a = a
or_old (some b) a = b

-- The chain of `if let Some(..)` in `inject_attr`.
unfoldable pub override_attr : Overrides → FileAttr → FileAttr
override_attr o a = record {
  ino = or_old o.ino a.ino;
  size = or_old o.size a.size;
  blocks = or_old o.blocks a.blocks;
  atime = or_old o.atime a.atime;
  mtime = or_old o.mtime a.mtime;
  ctime = or_old o.ctime a.ctime;
  crtime = a.crtime;
  kind = or_old o.kind a.kind;
  perm = or_old o.perm a.perm;
  nlink = or_old o.nlink a.nlink;
  uid = or_old o.uid a.uid;
  gid = or_old o.gid a.gid;
  rdev = or_old o.rdev a.rdev;
  blksize = a.blksize;
  padding = a.padding;
  flags = a.flags;
}

module _ (x : External) where
  unfoldable pub build : AttrOverrideConfig → AttrOverrideInjector x
  build conf = record {
    filter =
        Filter.build x (record { path = some conf.path; methods = none; percent = conf.percent });
    overrides = record {
      ino = conf.ino;
      size = conf.size;
      blocks = conf.blocks;
      atime = conf.atime;
      mtime = conf.mtime;
      ctime = conf.ctime;
      kind = Option.map build_kind conf.kind;
      perm = conf.perm;
      nlink = conf.nlink;
      uid = conf.uid;
      gid = conf.gid;
      rdev = conf.rdev;
    };
  }

  -- The filter is asked about a lookup, whatever the call.
  unfoldable pub inject_attr :
      AttrOverrideInjector x → FileAttr → FilePath → x.Rng → FileAttr × x.Rng
  unfolding override_attr
  inject_attr i attr path rng =
      let (hit, rest) = matches x i.filter Method.lookup path rng in
      ((if hit then override_attr i.overrides attr else attr), rest)
