-- ===== src/Stop/Progress.antt =====
-- That `wait` comes to an end: some step can always be taken until both threads are through, and
-- without spurious wake-ups only a few are taken.
use toda.Base.{
  ℕ, suc, ◌+◌, ◌≤◌, ◌<◌, Bool, true, false, ◌≡◌, refl, ◌⊎◌, inl, inr, subst, sym, arith,
}
use toda.Stop.{
  Waiter, starting, checking, blocked, woken, returned, Waker, holding, locked, flagged, notified,
  finished, State, at, Step, lock_waiter, block, take_back, leave, lock_waker, set_flag, notify,
  unlock, wake_spuriously, Reachable, next,
}
use toda.Stop.Safety.{IsSound, Reachable-IsSound, owner_of, has_set, Fits}

-- How many steps the waiting thread and the waking thread have before them at most.
abbrev pub waiter_rank : Waiter → Bool → ℕ
waiter_rank starting f = 6
waiter_rank checking true = 1
waiter_rank checking false = 4
waiter_rank blocked f = 3
waiter_rank woken true = 2
waiter_rank woken false = 5
waiter_rank returned f = 0

abbrev pub waker_rank : Waker → ℕ
waker_rank holding = 4
waker_rank locked = 3
waker_rank flagged = 2
waker_rank notified = 1
waker_rank finished = 0

abbrev pub rank : State → ℕ
rank (at w k f o) = waiter_rank w f + waker_rank k

abbrev pub IsSpurious : {s s' : State} → Step s s' → Type 0
IsSpurious lock_waiter = ⊥
IsSpurious block = ⊥
IsSpurious take_back = ⊥
IsSpurious leave = ⊥
IsSpurious lock_waker = ⊥
IsSpurious set_flag = ⊥
IsSpurious notify = ⊥
IsSpurious unlock = ⊥
IsSpurious wake_spuriously = Unit

-- Steps taken one after another, none of them a spurious wake-up.
pub data Run : ℕ → State → State → Type 0 where
  stay : {s : State} → Run 0 s s
  go :
      {n : ℕ} {s s' s'' : State} (t : Step s s') → ¬ IsSpurious t → Run n s' s'' → Run (suc n) s s''

-- Every other step of a reachable state brings the end nearer.
Step-rank : {s s' : State} (t : Step s s') → IsSound s → ¬ IsSpurious t → rank s' < rank s
Step-rank (lock_waiter {k} {f = true}) h n = omega arith
Step-rank (lock_waiter {k} {f = false}) h n = omega arith
Step-rank (block {k} {o}) h n = omega arith
Step-rank (take_back {k} {f = true}) h n = omega arith
Step-rank (take_back {k} {f = false}) h n = omega arith
Step-rank (leave {k} {o}) h n = omega arith
Step-rank (lock_waker {w} {f}) h n = omega arith
Step-rank (set_flag {w = starting} {f} {o}) h n = omega arith
Step-rank (set_flag {w = checking} {f = true} {o}) h n = omega arith
Step-rank (set_flag {w = checking} {f = false} {o}) h n = omega arith
Step-rank (set_flag {w = blocked} {f} {o}) h n = omega arith
Step-rank (set_flag {w = woken} {f = true} {o}) h n = omega arith
Step-rank (set_flag {w = woken} {f = false} {o}) h n = omega arith
Step-rank (set_flag {w = returned} {f} {o}) h n = omega arith
Step-rank (notify {w = starting} {f} {o}) h n = omega arith
Step-rank (notify {w = checking} {f} {o}) h n = omega arith
Step-rank (notify {w = blocked} {f = true} {o}) h n = omega arith
Step-rank (notify {w = blocked} {f = false} {o}) (a, e, u) n = ground arith
Step-rank (notify {w = woken} {f} {o}) h n = omega arith
Step-rank (notify {w = returned} {f} {o}) h n = omega arith
Step-rank (unlock {w} {f} {o}) h n = omega arith
Step-rank wake_spuriously h n = absurd (n tt)

run-rank : {n : ℕ} {s s' : State} → Run n s s' → Reachable s → n + rank s' ≤ rank s
run-rank stay r = omega arith
run-rank (go t n q) r = omega (arith, Step-rank t (Reachable-IsSound r) n, run-rank q (next r t))

-- Both threads are through.
abbrev pub Through : State → Type 0
Through (at w k f o) = (w ≡ returned) × (k ≡ finished)

abbrev pub CanStep : State → Type 0
CanStep s = (s' : State) × (t : Step s s') × ¬ IsSpurious t

never : ¬ ⊥
never h = h

can_step :
    (w : Waiter) (k : Waker)
    → Fits w k
    → Through (at w k (has_set k) (owner_of w k)) ⊎ CanStep (at w k (has_set k) (owner_of w k))
can_step w locked h = inr (_, set_flag, never)
can_step w flagged h = inr (_, notify, never)
can_step w notified h = inr (_, unlock, never)
can_step starting holding h = inr (_, lock_waiter, never)
can_step checking holding h = inr (_, block, never)
can_step blocked holding h = inr (_, lock_waker, never)
can_step woken holding h = inr (_, take_back, never)
can_step returned holding h = inr (_, lock_waker, never)
can_step starting finished h = inr (_, lock_waiter, never)
can_step checking finished h = inr (_, leave, never)
can_step blocked finished h = ground arith
can_step woken finished h = inr (_, take_back, never)
can_step returned finished h = inl (refl, refl)

sound_step : (s : State) → IsSound s → Through s ⊎ CanStep s
sound_step (at w k f o) (a, e, h) =
    subst (λ f'. Through (at w k f' o) ⊎ CanStep (at w k f' o)) (sym e)
      (subst (λ o'. Through (at w k (has_set k) o') ⊎ CanStep (at w k (has_set k) o')) (sym a)
        (can_step w k h))

waiter_rank-le : (w : Waiter) (f : Bool) → waiter_rank w f ≤ 6
waiter_rank-le starting f = omega arith
waiter_rank-le checking true = omega arith
waiter_rank-le checking false = omega arith
waiter_rank-le blocked f = omega arith
waiter_rank-le woken true = omega arith
waiter_rank-le woken false = omega arith
waiter_rank-le returned f = omega arith

waker_rank-le : (k : Waker) → waker_rank k ≤ 4
waker_rank-le holding = omega arith
waker_rank-le locked = omega arith
waker_rank-le flagged = omega arith
waker_rank-le notified = omega arith
waker_rank-le finished = omega arith

rank-le : (s : State) → rank s ≤ 10
rank-le (at w k f o) = omega (arith, waiter_rank-le w f, waker_rank-le k)

run-Reachable : {n : ℕ} {s s' : State} → Run n s s' → Reachable s → Reachable s'
run-Reachable stay r = r
run-Reachable (go t n q) r = run-Reachable q (next r t)

-- Steps without a spurious wake-up, one after another from any reachable state, are ten at most, and
-- where they have led either both threads are through or another such step can be taken: the threads
-- do not block each other, no wake-up is lost, and `wait` returns.
pub Run-Through :
    {n : ℕ} {s s' : State} → Reachable s → Run n s s' → (n ≤ 10) × (Through s' ⊎ CanStep s')
Run-Through {s} {s'} r q =
    (omega (arith, run-rank q r, rank-le s), sound_step s' (Reachable-IsSound (run-Reachable q r)))
