-- ===== src/Injector/Latency.antt =====
-- src/injector/latency_injector.rs
use toda.Base.{ℕ}
use toda.Action.{Action, ⊤, ◌>>=◌, when}
use toda.FilePath.{FilePath}
use toda.External.{External}
use toda.Injector.Config.{LatencyConfig}
use toda.Injector.Filter.{Filter}
use toda.Injector.Filter
use toda.Injector.Context.{Context, hits, delay_for}
use toda.Injector.Method.{Method}

pub record LatencyInjector (x : External) : Type 0 where
  pub latency : ℕ
  pub filter : Filter x

module _ (x : External) where
  unfoldable pub build : LatencyConfig → LatencyInjector x
  build conf = record { latency = conf.latency; filter = Filter.build x conf.filter }

  unfoldable pub inject : LatencyInjector x → Method → FilePath → Action (Context x) ⊤
  inject i method path = do hit ← hits x i.filter method path; when hit (delay_for x i.latency)
