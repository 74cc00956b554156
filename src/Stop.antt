-- ===== src/Stop.antt =====
-- The stop lock, src/stop.rs: a flag behind a mutex with a condition variable. One thread waits
-- (`StopWaiter::wait`), and one wakes it when it drops its `StopGuard`. A step is what one of them does
-- without the other in between.
pub mod Safety
pub mod Progress
mod Tests
use toda.Base.{Bool, true, false}

-- Where the waiting thread is: before `lock`, at the test of the loop with the mutex held, blocked in
-- `condvar.wait`, woken in it and about to take the mutex back, returned.
pub data Waiter : Type 0 where
  starting checking blocked woken returned : Waiter

-- Where the waking thread is: before `lock`, with the mutex held, after the write of the flag, after
-- `notify_one`, and after the mutex is released.
pub data Waker : Type 0 where
  holding locked flagged notified finished : Waker

pub data Owner : Type 0 where
  free by_waiter by_waker : Owner

-- `struct Stop` and the two threads: `*inner` and the mutex' owner.
pub data State : Type 0 where
  at : Waiter → Waker → Bool → Owner → State

-- `lock()`
abbrev pub initial : State
initial = at starting holding false free

-- `notify_one` wakes a thread that is blocked.
abbrev pub notify_one : Waiter → Waiter
notify_one starting = starting
notify_one checking = checking
notify_one blocked = woken
notify_one woken = woken
notify_one returned = returned

pub data Step : State → State → Type 0 where
  -- `Stop::wait`
  lock_waiter : {k : Waker} {f : Bool} → Step (at starting k f free) (at checking k f by_waiter)
  block : {k : Waker} {o : Owner} → Step (at checking k false o) (at blocked k false free)
  take_back : {k : Waker} {f : Bool} → Step (at woken k f free) (at checking k f by_waiter)
  leave : {k : Waker} {o : Owner} → Step (at checking k true o) (at returned k true free)
  -- `Stop::wake`
  lock_waker : {w : Waiter} {f : Bool} → Step (at w holding f free) (at w locked f by_waker)
  set_flag : {w : Waiter} {f : Bool} {o : Owner} → Step (at w locked f o) (at w flagged true o)
  notify :
      {w : Waiter} {f : Bool} {o : Owner} → Step (at w flagged f o) (at (notify_one w) notified f o)
  unlock : {w : Waiter} {f : Bool} {o : Owner} → Step (at w notified f o) (at w finished f free)
  -- A blocked thread may wake with no call of `notify_one`.
  wake_spuriously : {k : Waker} {f : Bool} {o : Owner} → Step (at blocked k f o) (at woken k f o)

pub data Reachable : State → Type 0 where
  begin : Reachable initial
  next : {s s' : State} → Reachable s → Step s s' → Reachable s'
