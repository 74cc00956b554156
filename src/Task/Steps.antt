-- ===== src/Task/Steps.antt =====
-- What a sequence of calls gives once its first call is known.
use toda.Base.{some, ◌≡◌, ap}
use toda.Task.{
  caught, caught_exit, Task, Exit, panics, runs_on, returns, fails, after_exit, ◌>>=◌, ◌>>◌,
}

module _ {E S A B : Type 0} where
  pub bind-returns :
      (m : Task E S A) (f : A → Task E S B) {a : A} {s s' : S}
      → m s ≡ (returns a, s')
      → (m >>= f) s ≡ f a s'
  unfolding ◌>>=◌
  bind-returns m f e = ap (λ r. after_exit f r.0 r.1) e

  pub bind-fails :
      (m : Task E S A) (f : A → Task E S B) {e : E} {s s' : S}
      → m s ≡ (fails e, s')
      → (m >>= f) s ≡ (fails e, s')
  unfolding ◌>>=◌
  bind-fails m f e = ap (λ r. after_exit f r.0 r.1) e

  pub then-returns :
      (m : Task E S A) (k : Task E S B) {a : A} {s s' : S}
      → m s ≡ (returns a, s')
      → (m >> k) s ≡ k s'
  unfolding ◌>>◌ ◌>>=◌
  then-returns m k e = ap (λ r. after_exit (λ _. k) r.0 r.1) e

  pub then-fails :
      (m : Task E S A) (k : Task E S B) {e : E} {s s' : S}
      → m s ≡ (fails e, s')
      → (m >> k) s ≡ (fails e, s')
  unfolding ◌>>◌ ◌>>=◌
  then-fails m k e = ap (λ r. after_exit (λ _. k) r.0 r.1) e

-- A predicate on the value and the state that a call returns, if it returns.
abbrev pub Returns : {E S A : Type 0} → (A → S → Type 0) → Exit E A × S → Type 0
Returns Q (returns a, s) = Q a s
Returns Q (fails e, s) = Unit
Returns Q (panics, s) = Unit
Returns Q (runs_on, s) = Unit

after_run :
    {E S A B : Type 0} {P : A → S → Type 0} (Q : B → S → Type 0) (f : A → Task E S B)
    (r : Exit E A × S)
    → Returns P r
    → ((a : A) (s : S) → P a s → Returns Q (f a s))
    → Returns Q (after_exit f r.0 r.1)
after_run Q f (returns a, s) h k = k a s h
after_run Q f (fails e, s) h k = tt
after_run Q f (panics, s) h k = tt
after_run Q f (runs_on, s) h k = tt

pub Returns->>= :
    {E S A B : Type 0} {P : A → S → Type 0} (Q : B → S → Type 0) (m : Task E S A)
    (f : A → Task E S B) (s : S)
    → Returns P (m s)
    → ((a : A) (s' : S) → P a s' → Returns Q (f a s'))
    → Returns Q ((m >>= f) s)
unfolding ◌>>=◌
Returns->>= Q m f s h k = after_run Q f (m s) h k

pub Returns->> :
    {E S A B : Type 0} {P : A → S → Type 0} (Q : B → S → Type 0) (m : Task E S A) (n : Task E S B)
    (s : S)
    → Returns P (m s)
    → ((a : A) (s' : S) → P a s' → Returns Q (n s'))
    → Returns Q ((m >> n) s)
unfolding ◌>>◌ ◌>>=◌
Returns->> Q m n s h k = after_run Q (λ _. n) (m s) h k

pub caught-returns :
    {E S A : Type 0} (m : Task E S A) {a : A} {s s' : S}
    → m s ≡ (returns a, s')
    → caught m s ≡ (returns (some a), s')
unfolding caught
caught-returns m e = ap (λ r. (caught_exit r.0, r.1)) e
