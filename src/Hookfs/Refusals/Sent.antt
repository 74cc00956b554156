-- ===== src/Hookfs/Refusals/Sent.antt =====
-- The error number of a request that was refused, as the kernel gets it.
use toda.Base.{ℕ, ◌≡◌, some, arith}
use toda.Hookfs.Os.{Platform}
use toda.Hookfs.Reply.{Answer, reply_ok, reply_err, dropped}
use toda.Hookfs.Service.{
  Served, nothing, empty, entry, attr, bytes, opened, written, listing, stat_fs, xattr, created,
  lock,
}
use toda.Hookfs.Service.Sent.{
  Sent, error, send, sent, entry_ok, open_ok, attr_ok, data_ok, statfs_ok, write_ok, create_ok,
  lock_ok, xattr_ok, empty_ok, directory,
}
use toda.Hookfs.Refusals.{error_of, served_error}

module _ (p : Platform) where
  send-error_of :
      {A : Type 0} (f : A → Sent p) (a : Answer A) (n : ℕ)
      → error_of a ≡ some n
      → send p f a ≡ some (error n)
  unfolding error_of
  send-error_of f (reply_ok a) n h = ground arith
  send-error_of f (reply_err m) n h = ground arith
  send-error_of f dropped n h = ground arith

  -- What is answered with an error number is sent as that error, by every kind of reply.
  pub sent-served_error :
      (r : Served p) (n : ℕ) → served_error r ≡ some n → sent p r ≡ some (error n)
  unfolding sent served_error
  sent-served_error nothing n h = ground arith
  sent-served_error (empty a) n h = send-error_of (empty_ok p) a n h
  sent-served_error (entry a) n h = send-error_of (entry_ok p) a n h
  sent-served_error (attr a) n h = send-error_of (attr_ok p) a n h
  sent-served_error (bytes a) n h = send-error_of (data_ok p) a n h
  sent-served_error (opened a) n h = send-error_of (open_ok p) a n h
  sent-served_error (written a) n h = send-error_of (write_ok p) a n h
  sent-served_error (listing a) n h = send-error_of directory a n h
  sent-served_error (stat_fs a) n h = send-error_of (statfs_ok p) a n h
  sent-served_error (xattr a) n h = send-error_of (xattr_ok p) a n h
  sent-served_error (created a) n h = send-error_of (create_ok p) a n h
  sent-served_error (lock a) n h = send-error_of (lock_ok p) a n h
