-- ===== src/Task.antt =====
-- A call on a state that returns, fails with an error, panics, or is still running when its fuel is
-- spent. What was written before stays written.
pub mod Leads
pub mod Yields
pub mod Steps
pub mod Settles
use toda.Base.{ℕ, Bool, Option, none, some, if◌then◌else◌}

pub data Exit (E A : Type 0) : Type 0 where
  returns : A → Exit E A
  fails : E → Exit E A
  panics runs_on : Exit E A

abbrev pub ⊤ : Type 0
⊤ = Unit

abbrev pub Task : Type 0 → Type 0 → Type 0 → Type 0
Task E S A = S → Exit E A × S

abbrev pub after_exit : {E S A B : Type 0} → (A → Task E S B) → Exit E A → Task E S B
after_exit f (returns a) s = f a s
after_exit f (fails e) s = (fails e, s)
after_exit f panics s = (panics, s)
after_exit f runs_on s = (runs_on, s)

infixl 5 ◌>>=◌ ◌>>◌
unfoldable pub ◌>>=◌ : {E S A B : Type 0} → Task E S A → (A → Task E S B) → Task E S B
◌>>=◌ m f s = let (r, s') = m s in after_exit f r s'

unfoldable pub ◌>>◌ : {E S A B : Type 0} → Task E S A → Task E S B → Task E S B
unfolding ◌>>=◌
m >> k = m >>= λ _. k

-- `if let Ok(a) = m { .. }`: the error is looked at, and does not end the caller.
abbrev pub caught_exit : {E A : Type 0} → Exit E A → Exit E (Option A)
caught_exit (returns a) = returns (some a)
caught_exit (fails e) = returns none
caught_exit panics = panics
caught_exit runs_on = runs_on

-- `m.unwrap()`
abbrev pub unwrapped_exit : {E A : Type 0} → Exit E A → Exit E A
unwrapped_exit (returns a) = returns a
unwrapped_exit (fails e) = panics
unwrapped_exit panics = panics
unwrapped_exit runs_on = runs_on

-- The exit of a body whose destructor then ran: a destructor has no error to give, only a panic.
abbrev pub dropped_exit : {E A : Type 0} → Exit E A → Exit E ⊤ → Exit E A
dropped_exit r (returns t) = r
dropped_exit r (fails e) = panics
dropped_exit r panics = panics
dropped_exit r runs_on = runs_on

abbrev pub after_body : {E S A : Type 0} → Task E S ⊤ → Exit E A → Task E S A
after_body d runs_on s = (runs_on, s)
after_body d panics s = let (q, s') = d s in (panics, s')
after_body d (returns a) s = let (q, s') = d s in (dropped_exit (returns a) q, s')
after_body d (fails e) s = let (q, s') = d s in (dropped_exit (fails e) q, s')

module _ {E S A : Type 0} where
  abbrev pub pure : A → Task E S A
  pure a s = (returns a, s)

  abbrev pub throw : E → Task E S A
  throw e s = (fails e, s)

  abbrev pub crash : Task E S A
  crash s = (panics, s)

  abbrev pub or_throw : Option A → E → Task E S A
  or_throw none e = throw e
  or_throw (some a) e = pure a

  abbrev pub spin : Task E S A
  spin s = (runs_on, s)

  unfoldable pub caught : Task E S A → Task E S (Option A)
  caught m s = let (r, s') = m s in (caught_exit r, s')

  unfoldable pub unwrapped : Task E S A → Task E S A
  unwrapped m s = let (r, s') = m s in (unwrapped_exit r, s')

  -- `m` with a value in scope whose destructor is `d`: it runs on success, on an error and on a panic.
  unfoldable pub finally : Task E S A → Task E S ⊤ → Task E S A
  finally m d s = let (r, s') = m s in after_body d r s'
