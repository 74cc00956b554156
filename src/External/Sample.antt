-- ===== src/External/Sample.antt =====
-- A concrete outside world, which meets the laws: numbers in thousandths, a counting generator,
-- and patterns that match the paths below them.
use toda.Base.{
  ℕ, zero, suc, ◌+◌, ◌-◌, ◌*◌, ◌/◌, ◌%◌, ◌<◌, ◌≡◌, refl, some, List, [], ◌∷◌, ltb, arith, replicate,
  length, ap,
}
use toda.Base.Int.{pos, pos_part}
use toda.FilePath.{parse, starts_with}
use toda.External.{External, RngLaws, FloatLaws}

abbrev pub sample : External
sample = record {
  F64 = ℕ;
  from_i32 = λ z. pos_part z * 1000;
  div = λ a b. a * 1000 / b;
  mul = λ a b. a * b / 1000;
  lt = ltb;
  to_i32 = λ a. pos (a / 1000);
  Pattern = List ℕ;
  new_pattern = λ s. some s;
  matches_path_with = λ s path options. starts_with path (parse s);
  Rng = ℕ;
  gen_f64 = λ g. (g % 1000, g + 1);
  gen_range = λ low high g. (low + g % (high - low), g + 1);
  fill = λ n g. (replicate n 7, g + 1);
  from_errno = pos_part;
  lowercase = λ c. c ∷ [];
}

length-replicate : (n a : ℕ) → length (replicate n a) ≡ n
length-replicate zero a = refl
length-replicate (suc n) a = ap suc (length-replicate n a)

pub sample-RngLaws : RngLaws sample
sample-RngLaws = record {
  gen_range_low = λ low high g h. omega arith;
  gen_range_high = λ low high g h. omega arith;
  fill_length = λ n g. length-replicate n 7;
  gen_nonneg = λ g. ground arith;
  gen_lt_one = λ g. ground arith;
}

small_fraction : (p s : ℕ) → p < 1000 → 0 < s → p * (s * 1000) / 1000 / 1000 < s
small_fraction p s h k = grind arith

pub sample-FloatLaws : FloatLaws sample
sample-FloatLaws = record {
  div_self = refl;
  zero_div = refl;
  lt_div_mono = λ a b p h e. ground arith;
  fraction =
      λ p s n l h k. (p * (s * 1000) / 1000 / 1000, refl, small_fraction p s (ground arith) h);
  fraction_of_zero = λ p n l. ground arith;
}
