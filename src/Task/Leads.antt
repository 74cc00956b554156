-- ===== src/Task/Leads.antt =====
-- A property of the state that a call restores: it holds again when the call returns or fails, with
-- a predicate on what it returns. Nothing is said of a call that panics or runs on.
use toda.Task.{
  Task, Exit, returns, fails, panics, runs_on, ⊤, after_exit, ◌>>=◌, ◌>>◌, pure, throw, finally,
  after_body, dropped_exit,
}

abbrev pub OnEnd : {E S A : Type 0} → (S → Type 0) → (A → Type 0) → Exit E A × S → Type 0
OnEnd I P (returns a, s) = I s × P a
OnEnd I P (fails e, s) = I s
OnEnd I P (panics, s) = Unit
OnEnd I P (runs_on, s) = Unit

abbrev pub OnReturn : {E S A : Type 0} → (S → Type 0) → Exit E A × S → Type 0
OnReturn I (returns a, s) = I s
OnReturn I (fails e, s) = Unit
OnReturn I (panics, s) = Unit
OnReturn I (runs_on, s) = Unit

abbrev pub Any : {A : Type 0} → A → Type 0
Any a = Unit

pub record Leads {E S A : Type 0} (I : S → Type 0) (P : A → Type 0) (m : Task E S A) : Type 0 where
  pub run : (s : S) → I s → OnEnd I P (m s)

drop_run :
    {E S A : Type 0} (I : S → Type 0) (a : A) (q : Exit E ⊤) (s : S)
    → OnReturn I (q, s)
    → OnEnd I Any (dropped_exit (returns a) q, s)
drop_run I a (returns t) s h = (h, tt)
drop_run I a (fails e) s h = tt
drop_run I a panics s h = tt
drop_run I a runs_on s h = tt

fail_run :
    {E S : Type 0} (A : Type 0) (I : S → Type 0) (e : E) (q : Exit E ⊤) (s : S)
    → OnReturn I (q, s)
    → OnEnd {A = A} I Any (dropped_exit (fails e) q, s)
fail_run A I e (returns t) s h = h
fail_run A I e (fails e') s h = tt
fail_run A I e panics s h = tt
fail_run A I e runs_on s h = tt

body_run :
    {E S A : Type 0} (I : S → Type 0) (d : Task E S ⊤) (r : Exit E A) (s : S)
    → OnReturn I (d s)
    → OnEnd I Any (after_body d r s)
body_run I d (returns a) s h = drop_run I a (d s).0 (d s).1 h
body_run {A} I d (fails e) s h = fail_run A I e (d s).0 (d s).1 h
body_run I d panics s h = tt
body_run I d runs_on s h = tt

-- Whatever the body does: the destructor restores the property.
pub finally_run :
    {E S A : Type 0} (I : S → Type 0) (f : Task E S A) (d : Task E S ⊤)
    → ((s : S) → OnReturn I (d s))
    → (s : S) → OnEnd I Any (finally f d s)
unfolding finally
finally_run I f d h s = body_run I d (f s).0 (f s).1 (h (f s).1)

module _ {E S : Type 0} {I : S → Type 0} where
  pub Leads-pure : {A : Type 0} {P : A → Type 0} (a : A) → P a → Leads {E = E} I P (pure a)
  Leads-pure a h = record { run = λ s i. (i, h) }

  pub Leads-throw : {A : Type 0} {P : A → Type 0} (e : E) → Leads I P (throw e)
  Leads-throw e = record { run = λ s i. i }

  bind_run :
      {A B : Type 0} {P : A → Type 0} {Q : B → Type 0} (f : A → Task E S B) (r : Exit E A × S)
      → OnEnd I P r
      → ((a : A) → P a → Leads I Q (f a))
      → OnEnd I Q (after_exit f r.0 r.1)
  bind_run f (returns a, s) h k = (k a h.1).run s h.0
  bind_run f (fails e, s) h k = h
  bind_run f (panics, s) h k = tt
  bind_run f (runs_on, s) h k = tt

  pub Leads->>= :
      {A B : Type 0} {P : A → Type 0} {Q : B → Type 0} {m : Task E S A} {f : A → Task E S B}
      → Leads I P m
      → ((a : A) → P a → Leads I Q (f a))
      → Leads I Q (m >>= f)
  unfolding ◌>>=◌
  Leads->>= {m} {f} h k = record { run = λ s i. bind_run f (m s) (h.run s i) k }

  pub Leads->> :
      {A B : Type 0} {P : A → Type 0} {Q : B → Type 0} {m : Task E S A} {k : Task E S B}
      → Leads I P m
      → Leads I Q k
      → Leads I Q (m >> k)
  unfolding ◌>>◌ ◌>>=◌
  Leads->> h k = Leads->>= h (λ a _. k)
