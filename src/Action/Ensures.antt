-- ===== src/Action/Ensures.antt =====
-- An invariant of the state under a call, however the call ends, with a predicate on what it
-- returns.
use toda.Base.{Bool, true, false, if◌then◌else◌}
use toda.Hookfs.Errors.{HookFsError}
use toda.Action.{Action, Result, ok, err, panic, ⊤, ◌>>=◌, ◌>>◌, pure, throw, lift, when}

abbrev pub Post : {S A : Type 0} → (S → Type 0) → (A → Type 0) → Result A × S → Type 0
Post I P (ok a, s) = I s × P a
Post I P (err e, s) = I s
Post I P (panic, s) = I s

pub record Ensures {S A : Type 0} (I : S → Type 0) (P : A → Type 0) (m : Action S A) : Type 0 where
  pub run : (s : S) → I s → Post I P (m s)

abbrev pub Any : {A : Type 0} → A → Type 0
Any a = Unit

lift_run : {S A : Type 0} (I : S → Type 0) (r : Result A) (s : S) → I s → Post I Any (r, s)
lift_run I (ok a) s i = (i, tt)
lift_run I (err e) s i = i
lift_run I panic s i = i

invariant_of :
    {S A : Type 0} (I : S → Type 0) (P : A → Type 0) (r : Result A × S) → Post I P r → I r.1
invariant_of I P (ok a, s) h = h.0
invariant_of I P (err e, s) h = h
invariant_of I P (panic, s) h = h

module _ {S : Type 0} {I : S → Type 0} where
  pub Ensures-pure : {A : Type 0} {P : A → Type 0} (a : A) → P a → Ensures I P (pure a)
  Ensures-pure a h = record { run = λ s i. (i, h) }

  pub Ensures-throw :
      {A : Type 0} {P : A → Type 0} (e : HookFsError) → Ensures {A = A} I P (throw e)
  Ensures-throw e = record { run = λ s i. i }

  pub Ensures-lift : {A : Type 0} (r : Result A) → Ensures I Any (lift r)
  Ensures-lift r = record { run = lift_run I r }

  bind_run :
      {A B : Type 0} {P : A → Type 0} {Q : B → Type 0} (f : A → Action S B) (r : Result A × S)
      → Post I P r
      → ((a : A) → P a → Ensures I Q (f a))
      → Post I Q (◌>>=◌ (λ (_ : S). r) f r.1)
  unfolding ◌>>=◌
  bind_run f (ok a, s) h k = (k a h.1).run s h.0
  bind_run f (err e, s) h k = h
  bind_run f (panic, s) h k = h

  pub Ensures->>= :
      {A B : Type 0} {P : A → Type 0} {Q : B → Type 0} {m : Action S A} {f : A → Action S B}
      → Ensures I P m
      → ((a : A) → P a → Ensures I Q (f a))
      → Ensures I Q (m >>= f)
  unfolding ◌>>=◌
  Ensures->>= {m} {f} h k = record { run = λ s i. bind_run f (m s) (h.run s i) k }

  pub Ensures->> :
      {A B : Type 0} {P : A → Type 0} {Q : B → Type 0} {m : Action S A} {k : Action S B}
      → Ensures I P m
      → Ensures I Q k
      → Ensures I Q (m >> k)
  unfolding ◌>>=◌ ◌>>◌
  Ensures->> h k = Ensures->>= h (λ a _. k)

  pub Ensures-when : (b : Bool) {m : Action S ⊤} → Ensures I Any m → Ensures I Any (when b m)
  Ensures-when true h = h
  Ensures-when false h = Ensures-pure tt tt

  pub Ensures-if :
      {A : Type 0} {P : A → Type 0} (b : Bool) {m k : Action S A}
      → Ensures I P m
      → Ensures I P k
      → Ensures I P (if b then m else k)
  Ensures-if true h k = h
  Ensures-if false h k = k

  -- What holds after the call.
  pub after :
      {A : Type 0} {P : A → Type 0} {m : Action S A} → Ensures I P m → (s : S) → I s → I (m s).1
  after {P} {m} h s i = invariant_of I P (m s) (h.run s i)
