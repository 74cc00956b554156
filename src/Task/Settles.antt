-- ===== src/Task/Settles.antt =====
-- Two calls that agree where the first one ends: what holds of a loop on fuel and the same loop on
-- more fuel.
use toda.Base.{◌≡◌, refl, ap, ◌∙◌, Bool, true, false, if◌then◌else◌}
use toda.Task.{
  Task, Exit, returns, fails, panics, runs_on, ⊤, after_exit, ◌>>=◌, ◌>>◌, finally, after_body,
  spin,
}

abbrev pub Ended : {E A : Type 0} → Exit E A → Type 0
Ended (returns a) = Unit
Ended (fails e) = Unit
Ended panics = Unit
Ended runs_on = ⊥

pub record Settles {E S A : Type 0} (m m' : Task E S A) : Type 0 where
  pub run : (s : S) → Ended (m s).0 → m' s ≡ m s

module _ {E S A B : Type 0} where
  Ended-first : (f : A → Task E S B) (r : Exit E A × S) → Ended (after_exit f r.0 r.1).0 → Ended r.0
  Ended-first f (returns a, s) h = tt
  Ended-first f (fails e, s) h = tt
  Ended-first f (panics, s) h = tt
  Ended-first f (runs_on, s) h = h

  after-Settles :
      (f f' : A → Task E S B) (r : Exit E A × S)
      → ((a : A) → Settles (f a) (f' a))
      → Ended (after_exit f r.0 r.1).0
      → after_exit f' r.0 r.1 ≡ after_exit f r.0 r.1
  after-Settles f f' (returns a, s) k h = (k a).run s h
  after-Settles f f' (fails e, s) k h = refl
  after-Settles f f' (panics, s) k h = refl
  after-Settles f f' (runs_on, s) k h = refl

  pub Settles->>= :
      {m m' : Task E S A} {f f' : A → Task E S B}
      → Settles m m'
      → ((a : A) → Settles (f a) (f' a))
      → Settles (m >>= f) (m' >>= f')
  unfolding ◌>>=◌
  Settles->>= {m} {m'} {f} {f'} h k = record {
    run = λ s e.
        ap (λ r. after_exit f' r.0 r.1) (h.run s (Ended-first f (m s) e))
        ∙ after-Settles f f' (m s) k e;
  }

module _ {E S A : Type 0} where
  pub Settles-refl : (m : Task E S A) → Settles m m
  Settles-refl m = record { run = λ s e. refl }

  pub Settles-spin : (m : Task E S A) → Settles spin m
  Settles-spin m = record { run = λ s e. elim e [ ] }

  pub Settles-if :
      (b : Bool) {m m' k k' : Task E S A}
      → Settles m m'
      → Settles k k'
      → Settles (if b then m else k) (if b then m' else k')
  Settles-if true h k = h
  Settles-if false h k = k

  Ended-body : (d : Task E S ⊤) (r : Exit E A × S) → Ended (after_body d r.0 r.1).0 → Ended r.0
  Ended-body d (returns a, s) h = tt
  Ended-body d (fails e, s) h = tt
  Ended-body d (panics, s) h = tt
  Ended-body d (runs_on, s) h = h

  pub Settles-finally :
      {m m' : Task E S A} (d : Task E S ⊤) → Settles m m' → Settles (finally m d) (finally m' d)
  unfolding finally
  Settles-finally {m} {m'} d h = record {
    run = λ s e. ap (λ r. after_body d r.0 r.1) (h.run s (Ended-body d (m s) e));
  }

module _ {E S A B : Type 0} where
  pub Settles->> :
      {m m' : Task E S A} {k k' : Task E S B}
      → Settles m m'
      → Settles k k'
      → Settles (m >> k) (m' >> k')
  unfolding ◌>>◌
  Settles->> h k = Settles->>= h (λ _. k)
