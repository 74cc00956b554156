-- ===== src/Stop/Tests.antt =====
-- Runs of the stop lock.
use toda.Base.{◌≤◌, ◌⊎◌}
use toda.Stop.{
  State, at, returned, finished, free, initial, Reachable, begin, next, lock_waiter, block,
  take_back, leave, lock_waker, set_flag, notify, unlock,
}
use toda.Base.{true}
use toda.Stop.Safety.{IsSound, Reachable-IsSound}
use toda.Stop.Progress.{Run, stay, go, Through, CanStep, Run-Through}

-- The waiting thread comes first, and is blocked until it is woken.
abbrev last : State
last = at returned finished true free

waits_first : Reachable last
waits_first =
    next
      (next
        (next (next (next (next (next (next begin lock_waiter) block) lock_waker) set_flag) notify)
          unlock)
        take_back)
      leave

Reachable-IsSound_example : IsSound last
Reachable-IsSound_example = Reachable-IsSound waits_first

abbrev no : ¬ ⊥
no e = e

abbrev at_once : Run 6 initial last
at_once =
    go lock_waker no
      (go set_flag no (go notify no (go unlock no (go lock_waiter no (go leave no stay)))))

Run-Through_example : (6 ≤ 10) × (Through last ⊎ CanStep last)
Run-Through_example = Run-Through begin at_once
