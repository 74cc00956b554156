-- ===== src/Hookfs/Service/Sent.antt =====
-- The `impl FsReply`s of src/hookfs/reply.rs: which call of fuser answers the kernel. The flags are the
-- bits of an i32, which the cast to u32 leaves.
use toda.Base.{ℕ, Option, none, some, List}
use toda.Base.Int.{ℤ}
use toda.Action.{⊤}
use toda.Hookfs.Os.{Platform}
use toda.Hookfs.Reply.{
  FileAttr, Entry, Open, Attr, Data, StatFs, Write, Create, Lock, Xattr, contents, size, Answer,
  reply_ok, reply_err, dropped,
}
use toda.Hookfs.Service.Answers.{Served}

-- The calls on the reply objects of fuser, with their arguments. `by_destructor` is no call: the
-- object was dropped, and fuser answers for it.
pub data Sent (p : Platform) : Type 0 where
  error : ℕ → Sent p
  ok : Sent p
  entry : (ttl : ℕ) → FileAttr → ℕ → Sent p
  opened : (fh flags : ℕ) → Sent p
  attr : (ttl : ℕ) → FileAttr → Sent p
  bytes : List ℕ → Sent p
  statfs : (blocks bfree bavail files ffree bsize namelen frsize : ℕ) → Sent p
  written : ℕ → Sent p
  created : (ttl : ℕ) → FileAttr → (generation fh flags : ℕ) → Sent p
  locked : (start end : ℕ) → ℤ → ℕ → Sent p
  xattr_size : ℕ → Sent p
  directory : p.replies.Buffer → Sent p
  by_destructor : Sent p

-- `Duration::from_secs(0)`: the kernel is to ask again each time.
abbrev pub ttl : ℕ
ttl = 0

module _ (p : Platform) where
  unfoldable pub entry_ok : Entry → Sent p
  entry_ok e = entry ttl e.stat e.generation

  unfoldable pub open_ok : Open → Sent p
  open_ok o = opened o.fh o.flags

  unfoldable pub attr_ok : Attr → Sent p
  attr_ok a = attr ttl a.attr

  unfoldable pub data_ok : Data → Sent p
  data_ok d = bytes d.bytes

  unfoldable pub statfs_ok : StatFs → Sent p
  statfs_ok s = statfs s.blocks s.bfree s.bavail s.files s.ffree s.bsize s.namelen s.frsize

  unfoldable pub write_ok : Write → Sent p
  write_ok w = written w.size

  unfoldable pub create_ok : Create → Sent p
  create_ok c = created ttl c.attr c.generation c.fh c.flags

  unfoldable pub lock_ok : Lock → Sent p
  lock_ok l = locked l.start l.end l.typ l.pid

  unfoldable pub xattr_ok : Xattr → Sent p
  xattr_ok (contents b) = bytes b
  xattr_ok (size n) = xattr_size n

  unfoldable pub empty_ok : ⊤ → Sent p
  empty_ok t = ok

  -- `reply_ok` and `reply_err` of a kind of reply.
  abbrev pub send : {A : Type 0} → (A → Sent p) → Answer A → Option (Sent p)
  send f (reply_ok a) = some (f a)
  send f (reply_err e) = some (error e)
  send f dropped = some by_destructor

  -- What is sent for a request that was served.
  unfoldable pub sent : Served p → Option (Sent p)
  sent Served.nothing = none
  sent (Served.empty a) = send empty_ok a
  sent (Served.entry a) = send entry_ok a
  sent (Served.attr a) = send attr_ok a
  sent (Served.bytes a) = send data_ok a
  sent (Served.opened a) = send open_ok a
  sent (Served.written a) = send write_ok a
  sent (Served.listing a) = send directory a
  sent (Served.stat_fs a) = send statfs_ok a
  sent (Served.xattr a) = send xattr_ok a
  sent (Served.created a) = send create_ok a
  sent (Served.lock a) = send lock_ok a
