-- ===== src/Injector/Fault/Certain.antt =====
-- What a fault injector does once its filter hits.
use toda.Base.{ℕ, ◌<◌, ◌≡◌, refl, ◌∙◌, ap, arith, List, [], ◌∷◌, true, Bool-cases, inl, inr}
use toda.Base.Int.{ℤ, pos, two31}
use toda.Injector.Config.{FilterConfig, FaultsConfig, FaultConfig}
use toda.Injector.Filter
use toda.Action.{ok, err, ◌>>=◌}
use toda.External.{External, RngLaws, FloatLaws}
use toda.Hookfs.Errors.{HookFsError}
use toda.Injector.Context.{Context, hits}
use toda.Injector.Filter.{Filter, matches}
use toda.Injector.Method.{Method}
use toda.FilePath.{FilePath}
use toda.Injector.Fault.{build, build_errnos, sum_weights, inject_fault, inject}
use toda.Injector.Fault.Weights.{
  Weights, entries, total, weight_of, sum_weights-total, pick-some, pick-none,
}

-- Faults whose weights are no less than zero, by raw error number.
abbrev pub faults_of : List (ℤ × ℕ) → List FaultConfig
faults_of [] = []
faults_of ((n, w) ∷ fs) = record { errno = n; weight = pos w } ∷ faults_of fs

module _ (x : External) where
  abbrev pub weights_of : List (ℤ × ℕ) → Weights
  weights_of [] = []
  weights_of ((n, w) ∷ fs) = (x.from_errno n, w) ∷ weights_of fs

  abbrev pub with_faults : FilterConfig → List (ℤ × ℕ) → FaultsConfig
  with_faults conf fs = record { filter = conf; faults = faults_of fs }

  build_errnos-faults_of :
      (fs : List (ℤ × ℕ)) → build_errnos x (faults_of fs) ≡ entries (weights_of fs)
  unfolding build_errnos
  build_errnos-faults_of [] = refl
  build_errnos-faults_of ((n, w) ∷ fs) =
      ap (λ l. (x.from_errno n, pos w) ∷ l) (build_errnos-faults_of fs)

module _ (x : External) (rng_laws : RngLaws x) (float_laws : FloatLaws x) where
  open x use {Rng, F64, gen_f64, to_i32, mul, from_i32}

  built_sum : List (ℤ × ℕ) → ℤ
  built_sum fs = sum_weights (pos 0) (build_errnos x (faults_of fs))

  built_sum-total :
      (fs : List (ℤ × ℕ))
      → total (weights_of x fs) < two31
      → built_sum fs ≡ pos (total (weights_of x fs))
  unfolding built_sum
  built_sum-total fs h =
      ap (sum_weights (pos 0)) (build_errnos-faults_of x fs)
      ∙ sum_weights-total 0 (weights_of x fs) (omega arith)
      ∙ ap pos (omega arith)

  attempt : List (ℤ × ℕ) → Rng → ℤ
  attempt fs g = to_i32 (mul (gen_f64 g).0 (from_i32 (built_sum fs)))

  attempt_below :
      (fs : List (ℤ × ℕ)) (g : Rng)
      → 0 < total (weights_of x fs)
      → total (weights_of x fs) < two31
      → (k : ℕ) × (attempt fs g ≡ pos k) × (k < total (weights_of x fs))
  unfolding attempt
  attempt_below fs g some_weight fits =
      let (k, e, l) =
        float_laws.fraction (gen_f64 g).0 (total (weights_of x fs)) (rng_laws.gen_nonneg g)
          (rng_laws.gen_lt_one g) some_weight fits in
      (k, ap (λ z. to_i32 (mul (gen_f64 g).0 (from_i32 z))) (built_sum-total fs fits) ∙ e, l)

  attempt_zero : (fs : List (ℤ × ℕ)) (g : Rng) → total (weights_of x fs) ≡ 0 → attempt fs g ≡ pos 0
  unfolding attempt
  attempt_zero fs g h =
      ap (λ z. to_i32 (mul (gen_f64 g).0 (from_i32 z)))
        (built_sum-total fs (omega arith) ∙ ap pos h)
      ∙ float_laws.fraction_of_zero (gen_f64 g).0 (rng_laws.gen_nonneg g) (rng_laws.gen_lt_one g)

  -- A call that the filter hits fails with an error number of positive weight, where the weights
  -- are no less than zero, some weight is positive, and their sum fits an i32.
  pub inject-fails :
      (conf : FilterConfig) (fs : List (ℤ × ℕ)) (method : Method) (path : FilePath) (c : Context x)
      → (matches x (Filter.build x conf) method path c.rng).0 ≡ true
      → 0 < total (weights_of x fs)
      → total (weights_of x fs) < two31
      → (e : ℕ) × ((inject x (build x (with_faults x conf fs)) method path c).0
          ≡ err (HookFsError.sys e))
        × (0 < weight_of e (weights_of x fs))
  unfolding inject hits inject_fault build attempt built_sum ◌>>=◌
  inject-fails conf fs method path c hit some_weight fits =
      let (k, a, l) =
        attempt_below fs (matches x (Filter.build x conf) method path c.rng).1 some_weight fits in
      let (e, q, m) = pick-some k (weights_of x fs) l fits in
      (e, rw (hit, a, build_errnos-faults_of x fs, q), m)

  -- Weights that are no less than zero and sum to zero inject no fault.
  pub inject-passes :
      (conf : FilterConfig) (fs : List (ℤ × ℕ)) (method : Method) (path : FilePath) (c : Context x)
      → total (weights_of x fs) ≡ 0
      → (inject x (build x (with_faults x conf fs)) method path c).0 ≡ ok tt
  unfolding inject hits inject_fault build attempt built_sum ◌>>=◌
  inject-passes conf fs method path c e =
      elim (Bool-cases (matches x (Filter.build x conf) method path c.rng).0) [
        | inl hit ↦ rw (
          hit,
          attempt_zero fs (matches x (Filter.build x conf) method path c.rng).1 e,
          build_errnos-faults_of x fs,
          pick-none (weights_of x fs) e,
        )
        | inr miss ↦ rw miss
      ]
