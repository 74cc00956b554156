-- ===== src/Injector/Multi.antt =====
-- src/injector/mod.rs and src/injector/multi_injector.rs: the trait `Injector` and the list of
-- injectors that stands for one.
pub mod Order
use toda.Base.{ℕ, List, [], ◌∷◌}
use toda.Action.{Action, ⊤, ◌>>=◌, ◌>>◌, pure}
use toda.FilePath.{FilePath}
use toda.External.{External}
use toda.Hookfs.Reply.{FileAttr, Reply}
use toda.Injector.Config.{InjectorConfig}
use toda.Injector.Context.{Context}
use toda.Injector.Method.{Method}
use toda.Injector.Fault.{FaultInjector}
use toda.Injector.Fault
use toda.Injector.Latency.{LatencyInjector}
use toda.Injector.Latency
use toda.Injector.Mistake.{MistakeInjector}
use toda.Injector.Mistake
use toda.Injector.AttrOverride.{AttrOverrideInjector}
use toda.Injector.AttrOverride

-- A `Box<dyn Injector>`.
pub data Injector (x : External) : Type 0 where
  fault : FaultInjector x → Injector x
  latency : LatencyInjector x → Injector x
  attr_override : AttrOverrideInjector x → Injector x
  mistake : MistakeInjector x → Injector x

abbrev pub MultiInjector : External → Type 0
MultiInjector x = List (Injector x)

module _ (x : External) where
  unfoldable pub build_one : InjectorConfig → Injector x
  build_one (InjectorConfig.fault c) = fault (Fault.build x c)
  build_one (InjectorConfig.latency c) = latency (Latency.build x c)
  build_one (InjectorConfig.attr_override c) = attr_override (AttrOverride.build x c)
  build_one (InjectorConfig.mistake c) = mistake (Mistake.build x c)

  -- `MultiInjector::build`: no injector's `build` can fail.
  unfoldable pub build : List InjectorConfig → MultiInjector x
  unfolding build_one
  build [] = []
  build (c ∷ conf) = build_one c ∷ build conf

  -- The trait's methods, with the defaults of the injectors that do not define them.
  unfoldable pub inject_one : Injector x → Method → FilePath → Action (Context x) ⊤
  inject_one (fault i) method path = Fault.inject x i method path
  inject_one (latency i) method path = Latency.inject x i method path
  inject_one (attr_override i) method path = pure tt
  inject_one (mistake i) method path = pure tt

  unfoldable pub inject_reply_one :
      Injector x → Method → FilePath → Reply → Action (Context x) Reply
  inject_reply_one (mistake i) method path r = Mistake.inject_reply x i method path r
  inject_reply_one _ method path r = pure r

  unfoldable pub inject_write_data_one :
      Injector x → FilePath → List ℕ → Action (Context x) (List ℕ)
  inject_write_data_one (mistake i) path xs = Mistake.inject_write_data x i path xs
  inject_write_data_one _ path xs = pure xs

  unfoldable pub inject_attr_one :
      Injector x → FileAttr → FilePath → Context x → FileAttr × Context x
  inject_attr_one (attr_override i) attr path c =
      let (a, rng) = AttrOverride.inject_attr x i attr path c.rng in (a, record c { rng = rng })
  inject_attr_one _ attr path c = (attr, c)

  unfoldable pub inject : MultiInjector x → Method → FilePath → Action (Context x) ⊤
  unfolding inject_one
  inject [] method path = pure tt
  inject (i ∷ is) method path = inject_one i method path >> inject is method path

  unfoldable pub inject_reply :
      MultiInjector x → Method → FilePath → Reply → Action (Context x) Reply
  unfolding inject_reply_one
  inject_reply [] method path r = pure r
  inject_reply (i ∷ is) method path r =
      inject_reply_one i method path r >>= λ r'. inject_reply is method path r'

  unfoldable pub inject_write_data :
      MultiInjector x → FilePath → List ℕ → Action (Context x) (List ℕ)
  unfolding inject_write_data_one
  inject_write_data [] path xs = pure xs
  inject_write_data (i ∷ is) path xs =
      inject_write_data_one i path xs >>= λ ys. inject_write_data is path ys

  unfoldable pub inject_attr :
      MultiInjector x → FileAttr → FilePath → Context x → FileAttr × Context x
  unfolding inject_attr_one
  inject_attr [] attr path c = (attr, c)
  inject_attr (i ∷ is) attr path c =
      let (a, c') = inject_attr_one i attr path c in inject_attr is a path c'
