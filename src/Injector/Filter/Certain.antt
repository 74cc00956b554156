-- ===== src/Injector/Filter/Certain.antt =====
-- What a filter decides where its percentage leaves nothing to chance.
use toda.Base.{ℕ, ◌^◌, ◌<◌, ◌≡◌, ap, ◌∙◌, true, false, ◌&&◌, arith, Bool-cases, inl, inr}
use toda.Base.Int.{ℤ, pos, ◌≤ℤ◌}
use toda.FilePath.{FilePath}
use toda.External.{External, RngLaws, FloatLaws}
use toda.Injector.Config.{FilterConfig}
use toda.Injector.Filter.{build, build_path, match_path, matches}
use toda.Injector.Filter.Mask.{selects, match_method-build_methods}

module _ (x : External) (rng_laws : RngLaws x) (float_laws : FloatLaws x) where
  open x use {F64, Rng, lt, div, from_i32, gen_f64}

  chance : ℤ → F64
  chance percent = div (from_i32 percent) (from_i32 (pos 100))

  sure : (percent : ℤ) (g : Rng) → pos 100 ≤ℤ percent → lt (gen_f64 g).0 (chance percent) ≡ true
  unfolding chance
  sure percent g h =
      float_laws.lt_div_mono (pos 100) percent _ h
        (ap (lt (gen_f64 g).0) float_laws.div_self ∙ rng_laws.gen_lt_one g)

  hopeless : (percent : ℤ) (g : Rng) → percent ≤ℤ pos 0 → lt (gen_f64 g).0 (chance percent) ≡ false
  unfolding chance
  hopeless percent g h = elim (Bool-cases (lt (gen_f64 g).0 (chance percent))) [
    | inl e ↦ ground (
      arith,
      float_laws.lt_div_mono percent (pos 0) (gen_f64 g).0 h e,
      float_laws.zero_div,
      rng_laws.gen_nonneg g,
    )
    | inr e ↦ e
  ]

  -- A filter built with a percentage of 100 or more hits a call exactly when its path pattern
  -- matches (or there is none) and the configuration selects the method.
  pub matches-certain :
      (conf : FilterConfig) (k : ℕ) (path : FilePath) (g : Rng)
      → k < 32
      → pos 100 ≤ℤ conf.percent
      → (matches x (build x conf) (2 ^ k) path g).0
        ≡ (match_path x (build_path x conf.path) path && selects x conf.methods k)
  unfolding matches build chance
  matches-certain conf k path g h percent =
      ground (arith, sure conf.percent g percent, match_method-build_methods x conf.methods k h)

  -- A filter built with a percentage of 0 or less hits no call.
  pub matches-never :
      (conf : FilterConfig) (method : ℕ) (path : FilePath) (g : Rng)
      → conf.percent ≤ℤ pos 0
      → (matches x (build x conf) method path g).0 ≡ false
  unfolding matches build chance
  matches-never conf method path g percent = ground (arith, hopeless conf.percent g percent)
