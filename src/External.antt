-- ===== src/External.antt =====
-- What the injectors take from outside the repository: the crates `rand`, `glob` and `nix`, the
-- floating-point numbers, and the standard library's case tables. The operations are parameters;
-- the laws that a theorem relies on are records of their own, so each theorem says which it needs.
pub mod Sample
use toda.Base.{ℕ, ◌≤◌, ◌<◌, ◌≡◌, Bool, true, false, Option, List}
use toda.Base.Int.{ℤ, pos, ◌≤ℤ◌}
use toda.Base.{length}
use toda.FilePath.{FilePath}

-- `glob::MatchOptions`
pub record MatchOptions : Type 0 where
  pub case_sensitive : Bool
  pub require_literal_separator : Bool
  pub require_literal_leading_dot : Bool

pub record External : Type 1 where
  -- f64: `x as f64` of an i32, `/`, `*`, `<`, and `x as i32`
  pub F64 : Type 0
  pub from_i32 : ℤ → F64
  pub div : F64 → F64 → F64
  pub mul : F64 → F64 → F64
  pub lt : F64 → F64 → Bool
  pub to_i32 : F64 → ℤ
  -- `Pattern::new(path).ok()`, `pattern.matches_path_with(path, options)`
  pub Pattern : Type 0
  pub new_pattern : List ℕ → Option Pattern
  pub matches_path_with : Pattern → FilePath → MatchOptions → Bool
  -- the generator of `rand::thread_rng()`: `gen::<f64>()`, `gen_range(low, high)` for low < high,
  -- `fill` of a slice of so many bytes
  pub Rng : Type 0
  pub gen_f64 : Rng → F64 × Rng
  pub gen_range : ℕ → ℕ → Rng → ℕ × Rng
  pub fill : ℕ → Rng → List ℕ × Rng
  -- `Errno::from_i32(raw) as i32`: 0 for a number that is no errno
  pub from_errno : ℤ → ℕ
  -- `char::to_lowercase` outside ASCII
  pub lowercase : ℕ → List ℕ

module _ (x : External) where
  open x use {F64, from_i32, div, mul, lt, to_i32, Rng, gen_f64, gen_range, fill}

  -- rand's documented ranges.
  pub record RngLaws : Type 0 where
    pub gen_range_low : (low high : ℕ) (g : Rng) → low < high → low ≤ (gen_range low high g).0
    pub gen_range_high : (low high : ℕ) (g : Rng) → low < high → (gen_range low high g).0 < high
    pub fill_length : (n : ℕ) (g : Rng) → length (fill n g).0 ≡ n
    -- `gen::<f64>()` lies in [0, 1)
    pub gen_nonneg : (g : Rng) → lt (gen_f64 g).0 (from_i32 (pos 0)) ≡ false
    pub gen_lt_one : (g : Rng) → lt (gen_f64 g).0 (from_i32 (pos 1)) ≡ true

  -- IEEE arithmetic on the values that a percentage takes.
  pub record FloatLaws : Type 0 where
    pub div_self : div (from_i32 (pos 100)) (from_i32 (pos 100)) ≡ from_i32 (pos 1)
    pub zero_div : div (from_i32 (pos 0)) (from_i32 (pos 100)) ≡ from_i32 (pos 0)
    -- a greater percentage gives no smaller quotient
    pub lt_div_mono :
        (a b : ℤ) (p : F64)
        → a ≤ℤ b
        → lt p (div (from_i32 a) (from_i32 (pos 100))) ≡ true
        → lt p (div (from_i32 b) (from_i32 (pos 100))) ≡ true
    -- a fraction in [0, 1) of a positive i32 is truncated to a smaller non-negative one
    pub fraction :
        (p : F64) (s : ℕ)
        → lt p (from_i32 (pos 0)) ≡ false
        → lt p (from_i32 (pos 1)) ≡ true
        → 0 < s
        → s < 2_147_483_648
        → (k : ℕ) × (to_i32 (mul p (from_i32 (pos s))) ≡ pos k) × (k < s)
    -- of zero it is zero
    pub fraction_of_zero :
        (p : F64)
        → lt p (from_i32 (pos 0)) ≡ false
        → lt p (from_i32 (pos 1)) ≡ true
        → to_i32 (mul p (from_i32 (pos 0))) ≡ pos 0
