-- ===== src/Injector/AttrOverride/Fields.antt =====
-- What the override does to attributes.
use toda.Base.{◌≡◌, refl, Option, none, some}
use toda.Hookfs.Reply.{FileAttr}
use toda.Injector.AttrOverride.{Overrides, or_old, override_attr}

-- The later of two settings, field by field.
abbrev or_else : {A : Type 0} → Option A → Option A → Option A
or_else none b = b
or_else (some a) b = some a

unfoldable pub merge : Overrides → Overrides → Overrides
merge late early = record {
  ino = or_else late.ino early.ino;
  size = or_else late.size early.size;
  blocks = or_else late.blocks early.blocks;
  atime = or_else late.atime early.atime;
  mtime = or_else late.mtime early.mtime;
  ctime = or_else late.ctime early.ctime;
  kind = or_else late.kind early.kind;
  perm = or_else late.perm early.perm;
  nlink = or_else late.nlink early.nlink;
  uid = or_else late.uid early.uid;
  gid = or_else late.gid early.gid;
  rdev = or_else late.rdev early.rdev;
}

or_old-or_else :
    {A : Type 0} (late early : Option A) (a : A)
    → or_old late (or_old early a) ≡ or_old (or_else late early) a
or_old-or_else none early a = refl
or_old-or_else (some b) early a = refl

-- The override that sets no field, and the one that sets each to what it is in some attributes.
unfoldable pub nothing : Overrides
nothing = record {
  ino = none;
  size = none;
  blocks = none;
  atime = none;
  mtime = none;
  ctime = none;
  kind = none;
  perm = none;
  nlink = none;
  uid = none;
  gid = none;
  rdev = none;
}

unfoldable pub all_of : FileAttr → Overrides
all_of b = record {
  ino = some b.ino;
  size = some b.size;
  blocks = some b.blocks;
  atime = some b.atime;
  mtime = some b.mtime;
  ctime = some b.ctime;
  kind = some b.kind;
  perm = some b.perm;
  nlink = some b.nlink;
  uid = some b.uid;
  gid = some b.gid;
  rdev = some b.rdev;
}

-- Attributes with those fields of others that no override reaches.
unfoldable pub with_unreached : FileAttr → FileAttr → FileAttr
with_unreached a b = record b {
  crtime = a.crtime;
  blksize = a.blksize;
  padding = a.padding;
  flags = a.flags;
}

merged :
    (late early : Overrides) (a : FileAttr)
    → override_attr late (override_attr early a) ≡ override_attr (merge late early) a
unfolding override_attr merge
merged late early a = λ i. record {
  ino = or_old-or_else late.ino early.ino a.ino i;
  size = or_old-or_else late.size early.size a.size i;
  blocks = or_old-or_else late.blocks early.blocks a.blocks i;
  atime = or_old-or_else late.atime early.atime a.atime i;
  mtime = or_old-or_else late.mtime early.mtime a.mtime i;
  ctime = or_old-or_else late.ctime early.ctime a.ctime i;
  crtime = a.crtime;
  kind = or_old-or_else late.kind early.kind a.kind i;
  perm = or_old-or_else late.perm early.perm a.perm i;
  nlink = or_old-or_else late.nlink early.nlink a.nlink i;
  uid = or_old-or_else late.uid early.uid a.uid i;
  gid = or_old-or_else late.gid early.gid a.gid i;
  rdev = or_old-or_else late.rdev early.rdev a.rdev i;
  blksize = a.blksize;
  padding = a.padding;
  flags = a.flags;
}

-- An override that sets nothing leaves the attributes as they are; one that sets every field gives just
-- the attributes it was made from, but for the creation time, the block size, the padding and the
-- flags, which stay; and two overrides one after the other are one, in which a field that both set
-- is set by the later.
pub override_attr-merge :
    (late early : Overrides) (a b : FileAttr)
    → (override_attr nothing a ≡ a)
      × (override_attr (all_of b) a ≡ with_unreached a b)
      × (override_attr late (override_attr early a) ≡ override_attr (merge late early) a)
unfolding override_attr nothing all_of with_unreached
override_attr-merge late early a b = (refl, refl, merged late early a)
