-- ===== src/Injector/Context.antt =====
-- What a call of an injector changes outside the file system: the random generator, and the time
-- that it sleeps.
use toda.Base.{ℕ, ◌+◌, Bool}
use toda.Action.{Action, ok, ⊤}
use toda.FilePath.{FilePath}
use toda.External.{External}
use toda.Injector.Filter.{Filter, matches}
use toda.Injector.Method.{Method}

pub record Context (x : External) : Type 0 where
  pub rng : x.Rng
  pub slept : ℕ

module _ (x : External) where
  -- a draw from the generator
  abbrev pub draw : {A : Type 0} → (x.Rng → A × x.Rng) → Action (Context x) A
  draw gen c = let (a, rng) = gen c.rng in (ok a, record c { rng = rng })

  -- `self.filter.filter(method, path)`
  unfoldable pub hits : Filter x → Method → FilePath → Action (Context x) Bool
  hits f method path = draw (matches x f method path)

  -- `delay_for(duration).await`
  abbrev pub delay_for : ℕ → Action (Context x) ⊤
  delay_for duration c = (ok tt, record c { slept = c.slept + duration })
