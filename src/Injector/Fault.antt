-- ===== src/Injector/Fault.antt =====
-- src/injector/fault_injector.rs: an error number, picked by weight. Sums of weights wrap around as
-- in a release build.
pub mod Weights
pub mod Certain
use toda.Base.{ℕ, Bool, Option, none, some, List, [], ◌∷◌, map, if◌then◌else◌}
use toda.Base.Int.{ℤ, pos, ◌+ℤ◌, ◌-ℤ◌, ltb_ℤ, wrap_i32}
use toda.Action.{Action, ok, err, ⊤, ◌>>=◌, when, pure, throw}
use toda.FilePath.{FilePath}
use toda.External.{External}
use toda.Hookfs.Errors.{HookFsError}
use toda.Injector.Config.{FaultsConfig, FaultConfig}
use toda.Injector.Filter.{Filter}
use toda.Injector.Filter
use toda.Injector.Context.{Context, hits, draw}
use toda.Injector.Method.{Method}

pub record FaultInjector (x : External) : Type 0 where
  pub filter : Filter x
  pub errnos : List (ℕ × ℤ)
  pub sum : ℤ

-- `errnos.iter().fold(0, |acc, w| acc + w.1)`
unfoldable pub sum_weights : ℤ → List (ℕ × ℤ) → ℤ
sum_weights acc [] = acc
sum_weights acc ((e, w) ∷ rest) = sum_weights (wrap_i32 (acc +ℤ w)) rest

-- The loop of `inject`: the first entry at which the attempt falls below zero.
unfoldable pub pick : ℤ → List (ℕ × ℤ) → Option ℕ
pick attempt [] = none
pick attempt ((e, p) ∷ rest) =
    let attempt' = wrap_i32 (attempt -ℤ p) in
    if ltb_ℤ attempt' (pos 0) then some e else pick attempt' rest

abbrev pub fail_with : {S : Type 0} → Option ℕ → Action S ⊤
fail_with none = pure tt
fail_with (some e) = throw (HookFsError.sys e)

module _ (x : External) where
  unfoldable pub build_errnos : List FaultConfig → List (ℕ × ℤ)
  build_errnos = map λ item. (x.from_errno item.errno, item.weight)

  unfoldable pub build : FaultsConfig → FaultInjector x
  unfolding build_errnos
  build conf = record {
    filter = Filter.build x conf.filter;
    errnos = build_errnos conf.faults;
    sum = sum_weights (pos 0) (build_errnos conf.faults);
  }

  -- The body under the filter.
  unfoldable pub inject_fault : FaultInjector x → Action (Context x) ⊤
  inject_fault i = do
    r ← draw x x.gen_f64
    fail_with (pick (x.to_i32 (x.mul r (x.from_i32 i.sum))) i.errnos)

  unfoldable pub inject : FaultInjector x → Method → FilePath → Action (Context x) ⊤
  inject i method path = do hit ← hits x i.filter method path; when hit (inject_fault i)
