-- ===== src/Hookfs/Service/Answers.antt =====
-- How a request of the kernel is run and answered: `spawn_reply` of src/hookfs/async_fs.rs and the
-- two requests that answer in another way.
use toda.Action.{Result, ok, err, panic, ⊤}
use toda.Hookfs.Errors.{into_c_int}
use toda.Hookfs.Os.{Platform}
use toda.Hookfs.Reply.{
  Entry, Open, Attr, Data, StatFs, Write, Create, Lock, Xattr, Answer, reply, reply_ok, reply_err,
  dropped,
}
use toda.Hookfs.State.{State, Call}

-- What becomes of the reply object of each kind of request; some requests have none.
pub data Served (p : Platform) : Type 0 where
  nothing : Served p
  empty : Answer ⊤ → Served p
  entry : Answer Entry → Served p
  attr : Answer Attr → Served p
  bytes : Answer Data → Served p
  opened : Answer Open → Served p
  written : Answer Write → Served p
  listing : Answer p.replies.Buffer → Served p
  stat_fs : Answer StatFs → Served p
  xattr : Answer Xattr → Served p
  created : Answer Create → Served p
  lock : Answer Lock → Served p

module _ (p : Platform) where
  -- `spawn_reply`
  abbrev pub spawn_reply :
      {A : Type 0} → (Answer A → Served p) → Call p A → State p → Served p × State p
  spawn_reply wrap call s = let (r, s') = call s in (wrap (reply r), s')

  -- The answer of `readdir`: the buffer, if its loop ended well; a panic drops the reply object.
  abbrev pub listing_of : Result (Result ⊤ × p.replies.Buffer) → Answer p.replies.Buffer
  listing_of (ok (ok u, buffer)) = reply_ok buffer
  listing_of (ok (err e, buffer)) = reply_err (into_c_int e)
  listing_of (ok (panic, buffer)) = dropped
  listing_of (err e) = reply_err (into_c_int e)
  listing_of panic = dropped

  abbrev pub run_readdir : Call p (Result ⊤ × p.replies.Buffer) → State p → Served p × State p
  run_readdir call s = let (r, s') = call s in (listing (listing_of r), s')

  abbrev pub run_silently : Call p ⊤ → State p → Served p × State p
  run_silently call s = (nothing, (call s).1)
