-- ===== src/Action.antt =====
-- A call that reads and changes a state: it returns, fails with an error of the file system, or
-- panics. What was written before a failure stays written.
pub mod Post
pub mod Ensures
use toda.Base.{Bool, Option, none, some, if◌then◌else◌}
use toda.Hookfs.Errors.{HookFsError}

pub data Result (A : Type 0) : Type 0 where
  ok : A → Result A
  err : HookFsError → Result A
  panic : Result A

abbrev pub Action : Type 0 → Type 0 → Type 0
Action S A = S → Result A × S

abbrev pub ⊤ : Type 0
⊤ = Unit

abbrev pub after_step : {S A B : Type 0} → (A → Action S B) → Result A → Action S B
after_step f (ok a) s = f a s
after_step f (err e) s = (err e, s)
after_step f panic s = (panic, s)

infixl 5 ◌>>=◌ ◌>>◌
unfoldable pub ◌>>=◌ : {S A B : Type 0} → Action S A → (A → Action S B) → Action S B
◌>>=◌ m f s = let (r, s') = m s in after_step f r s'

unfoldable pub ◌>>◌ : {S A B : Type 0} → Action S A → Action S B → Action S B
unfolding ◌>>=◌
m >> k = m >>= λ _. k

module _ {S A : Type 0} where
  abbrev pub pure : A → Action S A
  pure a s = (ok a, s)

  abbrev pub throw : HookFsError → Action S A
  throw e s = (err e, s)

  abbrev pub crash : Action S A
  crash s = (panic, s)

  abbrev pub or_throw : Option A → HookFsError → Action S A
  or_throw none e = throw e
  or_throw (some a) e = pure a

  -- `?` on a value that is already there
  abbrev pub lift : Result A → Action S A
  lift r s = (r, s)

module _ {S : Type 0} where
  abbrev pub gets : {A : Type 0} → (S → A) → Action S A
  gets f s = (ok (f s), s)

  abbrev pub modify : (S → S) → Action S ⊤
  modify f s = (ok tt, f s)

  abbrev pub when : Bool → Action S ⊤ → Action S ⊤
  when b m = if b then m else pure tt
