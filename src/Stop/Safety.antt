-- ===== src/Stop/Safety.antt =====
-- What holds in every state of the stop lock.
use toda.Base.{Bool, true, false, ◌≡◌, refl, arith, if◌then◌else◌}
use toda.Stop.{
  initial, Reachable, begin, next, Waiter, starting, checking, blocked, woken, returned, Waker,
  holding, locked, flagged, notified, finished, Owner, free, by_waiter, by_waker, State, at, Step,
  lock_waiter, block, take_back, leave, lock_waker, set_flag, notify, unlock, wake_spuriously,
}

-- Whether the waking thread holds the mutex, has set the flag, has called `notify_one`.
abbrev pub holds : Waker → Bool
holds holding = false
holds locked = true
holds flagged = true
holds notified = true
holds finished = false

abbrev pub has_set : Waker → Bool
has_set holding = false
has_set locked = false
has_set flagged = true
has_set notified = true
has_set finished = true

abbrev pub has_notified : Waker → Bool
has_notified holding = false
has_notified locked = false
has_notified flagged = false
has_notified notified = true
has_notified finished = true

abbrev pub owner_of : Waiter → Waker → Owner
owner_of checking k = by_waiter
owner_of starting k = if holds k then by_waker else free
owner_of blocked k = if holds k then by_waker else free
owner_of woken k = if holds k then by_waker else free
owner_of returned k = if holds k then by_waker else free

abbrev pub Fits : Waiter → Waker → Type 0
Fits starting k = Unit
Fits checking k = holds k ≡ false
Fits blocked k = has_notified k ≡ false
Fits woken k = Unit
Fits returned k = has_set k ≡ true

abbrev pub IsSound : State → Type 0
IsSound (at w k f o) = (o ≡ owner_of w k) × (f ≡ has_set k) × Fits w k

Step-IsSound : {s s' : State} → Step s s' → IsSound s → IsSound s'
Step-IsSound (lock_waiter {k} {f}) (o, e, u) = (refl, e, ground arith)
Step-IsSound (block {k = holding} {o}) (h, e, u) = ground arith
Step-IsSound (block {k = locked} {o}) (h, e, u) = ground arith
Step-IsSound (block {k = flagged} {o}) (h, e, u) = ground arith
Step-IsSound (block {k = notified} {o}) (h, e, u) = ground arith
Step-IsSound (block {k = finished} {o}) (h, e, u) = ground arith
Step-IsSound (take_back {k} {f}) (h, e, u) = (refl, e, ground arith)
Step-IsSound (leave {k} {o}) (h, e, u) = ground arith
Step-IsSound (lock_waker {w = starting} {f}) (h, e, u) = ground arith
Step-IsSound (lock_waker {w = checking} {f}) (h, e, u) = ground arith
Step-IsSound (lock_waker {w = blocked} {f}) (h, e, u) = ground arith
Step-IsSound (lock_waker {w = woken} {f}) (h, e, u) = ground arith
Step-IsSound (lock_waker {w = returned} {f}) (h, e, u) = ground arith
Step-IsSound (set_flag {w = starting} {f} {o}) (h, e, u) = ground arith
Step-IsSound (set_flag {w = checking} {f} {o}) (h, e, u) = ground arith
Step-IsSound (set_flag {w = blocked} {f} {o}) (h, e, u) = ground arith
Step-IsSound (set_flag {w = woken} {f} {o}) (h, e, u) = ground arith
Step-IsSound (set_flag {w = returned} {f} {o}) (h, e, u) = ground arith
Step-IsSound (notify {w = starting} {f} {o}) (h, e, u) = ground arith
Step-IsSound (notify {w = checking} {f} {o}) (h, e, u) = ground arith
Step-IsSound (notify {w = blocked} {f} {o}) (h, e, u) = ground arith
Step-IsSound (notify {w = woken} {f} {o}) (h, e, u) = ground arith
Step-IsSound (notify {w = returned} {f} {o}) (h, e, u) = ground arith
Step-IsSound (unlock {w = starting} {f} {o}) (h, e, u) = ground arith
Step-IsSound (unlock {w = checking} {f} {o}) (h, e, u) = ground arith
Step-IsSound (unlock {w = blocked} {f} {o}) (h, e, u) = ground arith
Step-IsSound (unlock {w = woken} {f} {o}) (h, e, u) = ground arith
Step-IsSound (unlock {w = returned} {f} {o}) (h, e, u) = ground arith
Step-IsSound (wake_spuriously {k} {f} {o}) (h, e, u) = (h, e, tt)

initial-IsSound : IsSound initial
initial-IsSound = (refl, refl, tt)

-- In every state that the two threads reach: the mutex belongs to the one that is at a place where it
-- holds it, never to both; the flag is set just when the waking thread has set it; the waiting thread
-- has returned only after that; and it is not left blocked once `notify_one` was called.
pub Reachable-IsSound : {s : State} → Reachable s → IsSound s
Reachable-IsSound begin = initial-IsSound
Reachable-IsSound (next r t) = Step-IsSound t (Reachable-IsSound r)
