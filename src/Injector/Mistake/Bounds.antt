-- ===== src/Injector/Mistake/Bounds.antt =====
-- The damage that one call of the mistake injector does.
use toda.Base.{
  ℕ, zero, suc, ◌+◌, ◌-◌, ◌*◌, ◌%◌, ◌≤◌, ◌<◌, ◌≡◌, List, length, set, min, max, arith, length-set,
  lt→ltb, suc_ne_zero, le→ltb,
}
use toda.Action.{◌>>=◌}
use toda.Action.Post.{Returns, Returns->>=, Returns-mono}
use toda.External.{External, RngLaws}
use toda.Injector.Config.{MistakeConfig, MistakeType, zero_fill, random_fill}
use toda.Injector.Context.{Context}
use toda.Injector.Mistake.{
  zero_range, gen_range, up_to, overwrite, sabotage, sabotage_times, handle, two64,
}
use toda.Injector.Mistake.Damage.{
  Damage, Damage-self, Damage-trans, Damage-mono, Damage-set, Damage-splice,
}

zero_range-Damage :
    {S : Type 0} (i n : ℕ) (xs : List ℕ) (s : S)
    → i + n ≤ length xs
    → Returns (Damage zero_fill n xs) (zero_range i n xs s)
unfolding zero_range
zero_range-Damage i zero xs s h = Damage-self zero_fill xs
zero_range-Damage i (suc n) xs s h = rw (lt→ltb i (length xs) (omega arith)) (
    Returns-mono (Damage zero_fill n (set xs i 0)) (Damage zero_fill (suc n) xs)
      (zero_range (i + 1) n (set xs i 0) s)
      (λ ys d. Damage-mono {m = 1 + n} (omega arith) (Damage-trans (Damage-set xs i) d))
      (zero_range-Damage (i + 1) n (set xs i 0) s (omega (arith, length-set xs i 0))))

module _ (x : External) (laws : RngLaws x) where
  pub gen_range-within :
      (low high : ℕ) (c : Context x)
      → low < high
      → Returns (λ k. (low ≤ k) × (k < high)) (gen_range x low high c)
  unfolding gen_range
  gen_range-within low high c h =
      ground (arith, laws.gen_range_low low high c.rng h, laws.gen_range_high low high c.rng h)

  up_to-le : (n : ℕ) (c : Context x) → n + 1 < two64 → Returns (λ k. k ≤ n) (up_to x n c)
  unfolding up_to
  up_to-le zero c h = omega arith
  up_to-le (suc n) c h =
      let small : (suc n + 1) % two64 ≡ suc n + 1 = omega arith in
      rw (suc_ne_zero n, small)
        (Returns-mono (λ k. (1 ≤ k) × (k < suc n + 1)) (λ k. k ≤ suc n)
          (gen_range x 1 (suc n + 1) c) (λ k b. omega arith)
          (gen_range-within 1 (suc n + 1) c (omega arith)))

  overwrite-Damage :
      (t : MistakeType) (i n : ℕ) (xs : List ℕ) (c : Context x)
      → i + n ≤ length xs
      → Returns (Damage t n xs) (overwrite x t i n xs c)
  unfolding overwrite ◌>>=◌
  overwrite-Damage zero_fill i n xs c h = zero_range-Damage i n xs c h
  overwrite-Damage random_fill i n xs c h = rw (le→ltb (length xs) (i + n) h) (
      Damage-mono (omega (arith, laws.fill_length n c.rng)) (Damage-splice i (x.fill n c.rng).0 xs))

  -- One round does as much damage as `max_length` allows.
  sabotage-Damage :
      (m : MistakeConfig) (xs : List ℕ) (c : Context x)
      → length xs + 1 < two64
      → Returns (Damage m.filling m.max_length xs) (sabotage x m xs c)
  unfolding sabotage
  sabotage-Damage m xs c h =
      Returns->>= (λ i. (0 ≤ i) × (i < max (length xs) 1)) _ (gen_range x 0 (max (length xs) 1)) _ c
        (gen_range-within 0 (max (length xs) 1) c (omega arith))
        λ i c1 hi.
          Returns->>= (λ n. n ≤ min m.max_length (room i)) _ (up_to x (min m.max_length (room i))) _
            c1 (up_to-le (min m.max_length (room i)) c1 (omega arith))
            λ n c2 hn.
              Returns-mono (Damage m.filling n xs) (Damage m.filling m.max_length xs)
                (overwrite x m.filling i n xs c2) (λ ys d. Damage-mono (omega arith) d)
                (overwrite-Damage m.filling i n xs c2 (omega arith))
    where
      room : ℕ → ℕ
      room i = (length xs + two64 - i) % two64

  sabotage_times-Damage :
      (n : ℕ) (m : MistakeConfig) (xs : List ℕ) (c : Context x)
      → length xs + 1 < two64
      → Returns (Damage m.filling (n * m.max_length) xs) (sabotage_times x n m xs c)
  unfolding sabotage_times
  sabotage_times-Damage zero m xs c h = Damage-mono {m = 0} (omega arith) (Damage-self m.filling xs)
  sabotage_times-Damage (suc n) m xs c h =
      Returns->>= (Damage m.filling m.max_length xs) _ (sabotage x m xs) _ c
        (sabotage-Damage m xs c h)
        λ ys c1 d.
          Returns-mono (Damage m.filling (n * m.max_length) ys) _ (sabotage_times x n m ys c1)
            (λ zs e.
              Damage-mono {m = m.max_length + n * m.max_length} (omega arith) (Damage-trans d e))
            (sabotage_times-Damage n m ys c1 (omega (arith, d.same_length)))

  -- Whatever is drawn, `handle` returns, with bytes of the same length that differ at no more than
  -- `max_occurrences * max_length` places, where zeros are filled in only by zeros; the bytes and
  -- `max_occurrences` are fewer than a usize counts.
  pub handle-Damage :
      (m : MistakeConfig) (xs : List ℕ) (c : Context x)
      → length xs + 1 < two64
      → m.max_occurrences + 1 < two64
      → Returns (Damage m.filling (m.max_occurrences * m.max_length) xs) (handle x m xs c)
  unfolding handle
  handle-Damage m xs c h k =
      Returns->>= (λ n. n ≤ m.max_occurrences) _ (up_to x m.max_occurrences) _ c
        (up_to-le m.max_occurrences c k)
        λ n c1 le.
          Returns-mono (Damage m.filling (n * m.max_length) xs) _ (sabotage_times x n m xs c1)
            (λ ys d. Damage-mono (grind arith) d) (sabotage_times-Damage n m xs c1 h)
