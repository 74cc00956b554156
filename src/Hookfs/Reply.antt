-- ===== src/Hookfs/Reply.antt =====
-- src/hookfs/reply.rs: the replies, and how a result is handed to the kernel.
use toda.Base.{ℕ, List}
use toda.Base.Int.{ℤ}
use toda.Action.{Result, ok, err, panic}
use toda.Hookfs.Errors.{into_c_int}

-- fuser::FileType
pub data FileType : Type 0 where
  named_pipe char_device block_device directory regular_file symlink socket : FileType

-- std::time::SystemTime: whole seconds and nanoseconds since the Unix epoch.
pub record SystemTime : Type 0 where
  pub sec : ℤ
  pub nsec : ℕ

-- fuser::FileAttr
pub record FileAttr : Type 0 where
  pub ino : ℕ
  pub size : ℕ
  pub blocks : ℕ
  pub atime : SystemTime
  pub mtime : SystemTime
  pub ctime : SystemTime
  pub crtime : SystemTime
  pub kind : FileType
  pub perm : ℕ
  pub nlink : ℕ
  pub uid : ℕ
  pub gid : ℕ
  pub rdev : ℕ
  pub blksize : ℕ
  pub padding : ℕ
  pub flags : ℕ

pub record Entry : Type 0 where
  pub stat : FileAttr
  pub generation : ℕ

pub record Open : Type 0 where
  pub fh : ℕ
  pub flags : ℕ

pub record Attr : Type 0 where
  pub attr : FileAttr

pub record Data : Type 0 where
  pub bytes : List ℕ

pub record StatFs : Type 0 where
  pub blocks : ℕ
  pub bfree : ℕ
  pub bavail : ℕ
  pub files : ℕ
  pub ffree : ℕ
  pub bsize : ℕ
  pub namelen : ℕ
  pub frsize : ℕ

pub record Write : Type 0 where
  pub size : ℕ

pub record Create : Type 0 where
  pub attr : FileAttr
  pub generation : ℕ
  pub fh : ℕ
  pub flags : ℕ

pub record Lock : Type 0 where
  pub start : ℕ
  pub end : ℕ
  pub typ : ℤ
  pub pid : ℕ

pub data Xattr : Type 0 where
  contents : List ℕ → Xattr
  size : ℕ → Xattr

-- `enum Reply`: what `inject_reply` may alter.
pub data Reply : Type 0 where
  entry : Entry → Reply
  open_reply : Open → Reply
  attr : Attr → Reply
  bytes : Data → Reply
  stat_fs : StatFs → Reply
  write : Write → Reply
  create : Create → Reply
  lock : Lock → Reply
  xattr : Xattr → Reply

-- What becomes of the reply object of a request: it is called with an answer or an error number, or
-- it is dropped with no call on it, and then its destructor in fuser answers in its own way.
pub data Answer (A : Type 0) : Type 0 where
  reply_ok : A → Answer A
  reply_err : ℕ → Answer A
  dropped : Answer A

-- `FsReply::reply`; a task that panics drops its reply object.
unfoldable pub reply : {A : Type 0} → Result A → Answer A
reply (ok a) = reply_ok a
reply (err e) = reply_err (into_c_int e)
reply panic = dropped
