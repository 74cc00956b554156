-- ===== src/Injector/Mistake/Zeroed.antt =====
-- That a mistake injector which fills in zeros does damage (src/injector/mistake_injector.rs).
use toda.Base.{
  ℕ, zero, suc, ◌+◌, ◌-◌, ◌%◌, ◌≤◌, ◌<◌, ◌≡◌, ◌==◌, refl, ◌∙◌, Bool, true, false, List, [], ◌∷◌,
  length, set, min, max, arith, length-set, lt→ltb, suc_ne_zero, if◌then◌else◌, nat_eq,
}
use toda.Base.Int.{pos, ◌≤ℤ◌}
use toda.Action.{◌>>=◌}
use toda.Action.Post.{Returns, Returns->>=, Returns-mono}
use toda.FilePath.{FilePath}
use toda.External.{External, RngLaws, FloatLaws}
use toda.Injector.Config.{MistakeConfig, MistakesConfig, zero_fill}
use toda.Injector.Context.{Context, hits}
use toda.Injector.Filter
use toda.Injector.Filter.{build_path, match_path, matches}
use toda.Injector.Filter.Mask.{selects}
use toda.Injector.Filter.Certain.{matches-certain}
use toda.Injector.Method
use toda.Injector.Mistake.{
  zero_range, gen_range, up_to, overwrite, sabotage, sabotage_times, handle, two64, build,
  inject_write_data,
}
use toda.Injector.Mistake.Bounds.{gen_range-within}

abbrev pub has_zero : List ℕ → Bool
has_zero [] = false
has_zero (x ∷ xs) = if x == 0 then true else has_zero xs

-- As many bytes as before, a zero among them.
abbrev pub Zeroed : List ℕ → List ℕ → Type 0
Zeroed xs ys = (length ys ≡ length xs) × (has_zero ys ≡ true)

has_zero-set : (xs : List ℕ) (i : ℕ) → i < length xs → has_zero (set xs i 0) ≡ true
has_zero-set [] i h = absurd (omega arith)
has_zero-set (x ∷ xs) zero h = refl
has_zero-set (x ∷ xs) (suc i) h = ground (arith, has_zero-set xs i)

zero_range-keeps :
    {S : Type 0} (i n : ℕ) (xs ys : List ℕ) (s : S)
    → i + n ≤ length ys
    → Zeroed xs ys
    → Returns (Zeroed xs) (zero_range i n ys s)
unfolding zero_range
zero_range-keeps i zero xs ys s h z = z
zero_range-keeps i (suc n) xs ys s h z = rw (lt→ltb i (length ys) (omega arith)) (
    zero_range-keeps (i + 1) n xs (set ys i 0) s (omega (arith, length-set ys i 0))
      (length-set ys i 0 ∙ z.0, has_zero-set ys i (omega arith)))

zero_range-Zeroed :
    {S : Type 0} (i n : ℕ) (xs : List ℕ) (s : S)
    → 0 < n
    → i + n ≤ length xs
    → Returns (Zeroed xs) (zero_range i n xs s)
unfolding zero_range
zero_range-Zeroed i zero xs s p h = absurd (omega arith)
zero_range-Zeroed i (suc n) xs s p h = rw (lt→ltb i (length xs) (omega arith)) (
    zero_range-keeps (i + 1) n xs (set xs i 0) s (omega (arith, length-set xs i 0))
      (length-set xs i 0, has_zero-set xs i (omega arith)))

module _ (x : External) (laws : RngLaws x) where
  up_to-pos :
      (n : ℕ) (c : Context x)
      → 0 < n
      → n + 1 < two64
      → Returns (λ k. (1 ≤ k) × (k ≤ n)) (up_to x n c)
  unfolding up_to
  up_to-pos zero c p h = absurd (omega arith)
  up_to-pos (suc n) c p h =
      let small : (suc n + 1) % two64 ≡ suc n + 1 = omega arith in
      rw (suc_ne_zero n, small)
        (Returns-mono (λ k. (1 ≤ k) × (k < suc n + 1)) (λ k. (1 ≤ k) × (k ≤ suc n))
          (gen_range x 1 (suc n + 1) c) (λ k b. omega arith)
          (gen_range-within x laws 1 (suc n + 1) c (omega arith)))

  module _ (m : MistakeConfig) (zeros : m.filling ≡ zero_fill)
      (some_length : 0 < m.max_length) where
    -- One round puts in a zero.
    sabotage-Zeroed :
        (xs : List ℕ) (c : Context x)
        → 0 < length xs
        → length xs + 1 < two64
        → Returns (Zeroed xs) (sabotage x m xs c)
    unfolding sabotage overwrite
    sabotage-Zeroed xs c p h =
        Returns->>= (λ i. (0 ≤ i) × (i < max (length xs) 1)) _ (gen_range x 0 (max (length xs) 1)) _
          c (gen_range-within x laws 0 (max (length xs) 1) c (omega arith))
          λ i c1 hi.
            Returns->>= (λ n. (1 ≤ n) × (n ≤ min m.max_length (room i))) _
              (up_to x (min m.max_length (room i))) _ c1
              (up_to-pos (min m.max_length (room i)) c1 (omega arith) (omega arith))
              λ n c2 hn. rw zeros (zero_range-Zeroed i n xs c2 (omega arith) (omega arith))
      where
        room : ℕ → ℕ
        room i = (length xs + two64 - i) % two64

    sabotage_times-keeps :
        (n : ℕ) (xs ys : List ℕ) (c : Context x)
        → 0 < length xs
        → length xs + 1 < two64
        → Zeroed xs ys
        → Returns (Zeroed xs) (sabotage_times x n m ys c)
    unfolding sabotage_times
    sabotage_times-keeps zero xs ys c p h z = z
    sabotage_times-keeps (suc n) xs ys c p h z =
        Returns->>= (Zeroed ys) _ (sabotage x m ys) _ c
          (sabotage-Zeroed ys c (omega arith) (omega arith))
          λ zs c1 d. sabotage_times-keeps n xs zs c1 p h (d.0 ∙ z.0, d.1)

    sabotage_times-Zeroed :
        (n : ℕ) (xs : List ℕ) (c : Context x)
        → 0 < n
        → 0 < length xs
        → length xs + 1 < two64
        → Returns (Zeroed xs) (sabotage_times x n m xs c)
    unfolding sabotage_times
    sabotage_times-Zeroed zero xs c k p h = absurd (omega arith)
    sabotage_times-Zeroed (suc n) xs c k p h =
        Returns->>= (Zeroed xs) _ (sabotage x m xs) _ c (sabotage-Zeroed xs c p h)
          λ ys c1 z. sabotage_times-keeps n xs ys c1 p h z

    -- `handle` puts in a zero whatever is drawn, where it may fill in at least one byte once.
    pub handle-Zeroed :
        (xs : List ℕ) (c : Context x)
        → 0 < m.max_occurrences
        → m.max_occurrences + 1 < two64
        → 0 < length xs
        → length xs + 1 < two64
        → Returns (Zeroed xs) (handle x m xs c)
    unfolding handle
    handle-Zeroed xs c o k p h =
        Returns->>= (λ n. (1 ≤ n) × (n ≤ m.max_occurrences)) _ (up_to x m.max_occurrences) _ c
          (up_to-pos m.max_occurrences c o k)
          λ n c1 b. sabotage_times-Zeroed n xs c1 (omega arith) p h

module _ (x : External) (rng_laws : RngLaws x) (float_laws : FloatLaws x) (conf : MistakesConfig)
    (path : FilePath) (certain : pos 100 ≤ℤ conf.filter.percent)
    (on_path : match_path x (build_path x conf.filter.path) path ≡ true)
    (on_writes : selects x conf.filter.methods 14 ≡ true) where
  written_hit : (g : x.Rng) → (matches x (Filter.build x conf.filter) Method.write path g).0 ≡ true
  written_hit g = ground (
    arith,
    matches-certain x rng_laws float_laws conf.filter 14 path g (omega arith) certain,
    on_path,
    on_writes,
  )

  -- The injector that is certain to hit the writes of a path puts a zero into what is written.
  pub inject_write_data-Zeroed :
      (xs : List ℕ) (c : Context x)
      → conf.mistake.filling ≡ zero_fill
      → 0 < conf.mistake.max_length
      → 0 < conf.mistake.max_occurrences
      → conf.mistake.max_occurrences + 1 < two64
      → 0 < length xs
      → length xs + 1 < two64
      → Returns (Zeroed xs) (inject_write_data x (build x conf) path xs c)
  unfolding inject_write_data build hits ◌>>=◌
  inject_write_data-Zeroed xs c zeros some_length o k p h =
      rw (written_hit c.rng) (handle-Zeroed x rng_laws conf.mistake zeros some_length xs _ o k p h)
