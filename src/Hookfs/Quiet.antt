-- ===== src/Hookfs/Quiet.antt =====
-- src/hookfs/mod.rs while injection is disabled, between `disable_injection` and the next
-- `enable_injection`: the injectors draw no number and delay nothing, but for written data.
use toda.Base.{ℕ, ◌≡◌, refl, Bool, true, false, if◌then◌else◌, Option, none, some, List, All, arith}
use toda.Action.{⊤, pure}
use toda.Action.Ensures.{Ensures, Any, Post}
use toda.FilePath.{FilePath}
use toda.Injector.Context.{Context}
use toda.Injector.Method.{Method}
use toda.Hookfs.Reply.{FileAttr, Reply}
use toda.Hookfs.Os.{Platform, File, Dir}
use toda.Hookfs.InodeMap.{InodeMap}
use toda.Hookfs.State.{State, Call, modify_inodes, set_injection}
use toda.Hookfs.Inject.{inject, inject_attr, inject_reply, if_enabled}
use toda.Hookfs.Files
use toda.Hookfs.Files.{insert_file, remove_file}
use toda.Hookfs.Dirs
use toda.Hookfs.Dirs.{insert_dir, releasedir}
use toda.Hookfs.Service.{Request, serve_all}
use toda.Hookfs.Stable.{Stable}
use toda.Hookfs.Stable.Requests

module _ (p : Platform) (c : Context p.external) where
  abbrev pub IsQuiet : State p → Type 0
  IsQuiet s = (s.fs.enable_injection ≡ false) × (s.context ≡ c)

  modifies : (f : InodeMap → InodeMap) → Ensures IsQuiet Any (modify_inodes p f)
  unfolding modify_inodes
  modifies f = record { run = λ s i. (i, tt) }

  opens : (f : File) → ⊤ → Ensures IsQuiet Any (insert_file p f)
  unfolding insert_file
  opens f u = record { run = λ s i. (i, tt) }

  opens_dir : (d : Dir) → ⊤ → Ensures IsQuiet Any (insert_dir p d)
  unfolding insert_dir
  opens_dir d u = record { run = λ s i. (i, tt) }

  closed :
      (s : State p) (o : Option p.files.S) → IsQuiet s → Post IsQuiet Any (Files.or_crash p o s)
  closed s none i = i
  closed s (some m) i = (i, tt)

  closes : (fh : ℕ) → Ensures IsQuiet Any (remove_file p fh)
  unfolding remove_file
  closes fh = record { run = λ s i. closed s _ i }

  closed_dir :
      (s : State p) (o : Option p.dirs.S) (d : Option Dir)
      → IsQuiet s
      → Post IsQuiet Any (Dirs.or_crash p o d s)
  closed_dir s none d i = i
  closed_dir s (some m) d i = (i, tt)

  closes_dir : (fh : ℕ) → Ensures IsQuiet Any (releasedir p fh)
  unfolding releasedir
  closes_dir fh = record { run = λ s i. closed_dir s _ _ i }

  -- A choice that injection decides, where it is disabled.
  skipped :
      {A : Type 0} (b : Bool) (m : Call p A) (a : A) (s : State p)
      → b ≡ false
      → IsQuiet s
      → Post IsQuiet Any ((if b then m else pure a) s)
  skipped true m a s e i = ground arith
  skipped false m a s e i = (i, tt)

  injects : (method : Method) (path : FilePath) → ⊤ → Ensures IsQuiet Any (inject p method path)
  unfolding inject if_enabled
  injects method path u = record { run = λ s i. skipped s.fs.enable_injection _ tt s i.0 i }

  injects_attr : (a : FileAttr) (path : FilePath) → ⊤ → Ensures IsQuiet Any (inject_attr p a path)
  unfolding inject_attr
  injects_attr a path u = record { run = λ s i. skipped s.fs.enable_injection _ a s i.0 i }

  injects_reply :
      (method : Method) (path : FilePath) (r : Reply)
      → ⊤
      → Ensures IsQuiet Any (inject_reply p method path r)
  unfolding inject_reply
  injects_reply method path r u = record { run = λ s i. skipped s.fs.enable_injection _ r s i.0 i }

  quiet : Stable p
  quiet = record {
    I = IsQuiet;
    P = λ path. ⊤;
    N = λ name. ⊤;
    W = ⊥;
    world = λ s w i. i;
    known = λ s ino i e. tt;
    child_of = λ path name u n. tt;
    inserts = λ ino path u. modifies _;
    removes = λ ino path. modifies _;
    increases = λ ino. modifies _;
    decreases = λ ino n. modifies _;
    opens = opens;
    closes = closes;
    opens_dir = opens_dir;
    closes_dir = closes_dir;
    known_file = λ s fh i e. tt;
    known_dir = λ s fh i e. tt;
    injects = injects;
    injects_attr = injects_attr;
    injects_reply = injects_reply;
    injects_write_data = λ fh xs w. absurd w;
  }

-- Every request but a write.
unfoldable pub WritesNothing : (p : Platform) → Request p → Type 0
WritesNothing p r = Requests.Allowed p (λ name. ⊤) ⊥ r

-- After `disable_injection`, every history of requests without a write leaves injection disabled and
-- the random generator and the delays of the injectors as they were.
pub serve_all-IsQuiet :
    (p : Platform) (s : State p) (rs : List (Request p))
    → All (WritesNothing p) rs
    → IsQuiet p s.context (serve_all p rs (record s { fs = set_injection p false s.fs }))
unfolding WritesNothing set_injection quiet
serve_all-IsQuiet p s rs h = Requests.serve_all-keeps p (quiet p s.context) rs _ h (refl, refl)
