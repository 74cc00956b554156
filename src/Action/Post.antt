-- ===== src/Action/Post.antt =====
-- What a call returns, as a predicate on its result.
use toda.Base.{◌≡◌, refl}
use toda.Action.{Action, Result, ok, err, panic, ◌>>=◌}

-- The call returns, with a value that meets the predicate.
abbrev pub Returns : {S A : Type 0} → (A → Type 0) → Result A × S → Type 0
Returns P (ok a, s) = P a
Returns P (err e, s) = ⊥
Returns P (panic, s) = ⊥

Returns-from :
    {S A B : Type 0} (P : A → Type 0) (Q : B → Type 0) (f : A → Action S B) (r : Result A × S)
    → Returns P r
    → ((a : A) (s : S) → P a → Returns Q (f a s))
    → Returns Q (◌>>=◌ (λ (_ : S). r) f r.1)
unfolding ◌>>=◌
Returns-from P Q f (ok a, s) h k = k a s h
Returns-from P Q f (err e, s) h k = absurd h
Returns-from P Q f (panic, s) h k = absurd h

pub Returns->>= :
    {S A B : Type 0} (P : A → Type 0) (Q : B → Type 0) (m : Action S A) (f : A → Action S B) (s : S)
    → Returns P (m s)
    → ((a : A) (s : S) → P a → Returns Q (f a s))
    → Returns Q ((m >>= f) s)
unfolding ◌>>=◌
Returns->>= P Q m f s h k = Returns-from P Q f (m s) h k

pub Returns-mono :
    {S A : Type 0} (P Q : A → Type 0) (r : Result A × S)
    → ((a : A) → P a → Q a)
    → Returns P r
    → Returns Q r
Returns-mono P Q (ok a, s) f h = f a h
Returns-mono P Q (err e, s) f h = h
Returns-mono P Q (panic, s) f h = h

-- The value that a call returns.
pub Returns-value :
    {S A : Type 0} (P : A → Type 0) (r : Result A × S) → Returns P r → (a : A) × (r.0 ≡ ok a) × P a
Returns-value P (ok a, s) h = (a, refl, h)
Returns-value P (err e, s) h = absurd h
Returns-value P (panic, s) h = absurd h

-- Only the result counts, not the state.
pub Returns-state :
    {S T A : Type 0} (P : A → Type 0) (r : Result A) (s : S) (t : T)
    → Returns P (r, s)
    → Returns P (r, t)
Returns-state P (ok a) s t h = h
Returns-state P (err e) s t h = h
Returns-state P panic s t h = h
