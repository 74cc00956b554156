-- ===== src/Task/Yields.antt =====
-- A call that ends, with a value or an error: it does not panic, and its fuel is enough.
use toda.Base.{◌≡◌, refl, Bool, true, false, Option, none, some, if◌then◌else◌}
use toda.Task.{
  Task, Exit, returns, fails, panics, runs_on, after_exit, ◌>>=◌, ◌>>◌, pure, throw, caught,
  caught_exit,
}

abbrev pub Good : {E A : Type 0} → (A → Type 0) → Exit E A → Type 0
Good P (returns a) = P a
Good P (fails e) = Unit
Good P panics = ⊥
Good P runs_on = ⊥

abbrev pub Any : {A : Type 0} → A → Type 0
Any a = Unit

abbrev pub OnSome : {A : Type 0} → (A → Type 0) → Option A → Type 0
OnSome P none = Unit
OnSome P (some a) = P a

pub record Yields {E S A : Type 0} (P : A → Type 0) (m : Task E S A) : Type 0 where
  pub run : (s : S) → Good P (m s).0

caught_run :
    {E A : Type 0} (P : A → Type 0) (r : Exit E A) → Good P r → Good (OnSome P) (caught_exit r)
caught_run P (returns a) h = h
caught_run P (fails e) h = tt
caught_run P panics h = h
caught_run P runs_on h = h

Good-weaken :
    {E A : Type 0} (P Q : A → Type 0) (r : Exit E A) → ((a : A) → P a → Q a) → Good P r → Good Q r
Good-weaken P Q (returns a) k h = k a h
Good-weaken P Q (fails e) k h = tt
Good-weaken P Q panics k h = h
Good-weaken P Q runs_on k h = h

module _ {E S : Type 0} where
  pub Yields-pure : {A : Type 0} {P : A → Type 0} (a : A) → P a → Yields {E = E} {S = S} P (pure a)
  Yields-pure a h = record { run = λ s. h }

  pub Yields-throw : {A : Type 0} {P : A → Type 0} (e : E) → Yields {S = S} P (throw e)
  Yields-throw e = record { run = λ s. tt }

  bind_run :
      {A B : Type 0} {P : A → Type 0} {Q : B → Type 0} (f : A → Task E S B) (r : Exit E A) (s : S)
      → Good P r
      → ((a : A) → P a → Yields Q (f a))
      → Good Q (after_exit f r s).0
  bind_run f (returns a) s h k = (k a h).run s
  bind_run f (fails e) s h k = tt
  bind_run f panics s h k = h
  bind_run f runs_on s h k = h

  pub Yields->>= :
      {A B : Type 0} {P : A → Type 0} {Q : B → Type 0} {m : Task E S A} {f : A → Task E S B}
      → Yields P m
      → ((a : A) → P a → Yields Q (f a))
      → Yields Q (m >>= f)
  unfolding ◌>>=◌
  Yields->>= {m} {f} h k = record { run = λ s. bind_run f (m s).0 (m s).1 (h.run s) k }

  pub Yields->> :
      {A B : Type 0} {P : A → Type 0} {Q : B → Type 0} {m : Task E S A} {k : Task E S B}
      → Yields P m
      → Yields Q k
      → Yields Q (m >> k)
  unfolding ◌>>◌ ◌>>=◌
  Yields->> h k = Yields->>= h (λ a _. k)

  pub Yields-caught :
      {A : Type 0} {P : A → Type 0} {m : Task E S A} → Yields P m → Yields (OnSome P) (caught m)
  unfolding caught
  Yields-caught {P} {m} h = record { run = λ s. caught_run P (m s).0 (h.run s) }

  pub Yields-if :
      {A : Type 0} {P : A → Type 0} (b : Bool) {m k : Task E S A}
      → Yields P m
      → Yields P k
      → Yields P (if b then m else k)
  Yields-if true h k = h
  Yields-if false h k = k

  -- A test whose outcome the branches rely on.
  pub Yields-test :
      {A : Type 0} {P : A → Type 0} (b : Bool) {m k : Task E S A}
      → (b ≡ true → Yields P m)
      → (b ≡ false → Yields P k)
      → Yields P (if b then m else k)
  Yields-test true h k = h refl
  Yields-test false h k = k refl

  pub Yields-weaken :
      {A : Type 0} {P Q : A → Type 0} {m : Task E S A}
      → ((a : A) → P a → Q a)
      → Yields P m
      → Yields Q m
  Yields-weaken {P} {Q} {m} k h = record { run = λ s. Good-weaken P Q (m s).0 k (h.run s) }
