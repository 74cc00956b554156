-- ===== src/Injector/Mistake.antt =====
-- src/injector/mistake_injector.rs: bytes that are overwritten in replies and in written data.
-- A usize has 64 bits and wraps around, as in a release build.
pub mod Damage
pub mod Bounds
pub mod Zeroed
use toda.Base.{
  ℕ, zero, suc, ◌+◌, ◌-◌, ◌%◌, Bool, List, [], ◌∷◌, ◌++◌, length, set, take, drop, ltb, ◌==◌, min,
  max, if◌then◌else◌,
}
use toda.Action.{Action, ok, err, panic, ⊤, ◌>>=◌, when, pure, crash}
use toda.FilePath.{FilePath}
use toda.External.{External}
use toda.Hookfs.Reply.{Reply, Data, bytes}
use toda.Injector.Config.{MistakesConfig, MistakeConfig, MistakeType, zero_fill, random_fill}
use toda.Injector.Filter.{Filter}
use toda.Injector.Filter
use toda.Injector.Context.{Context, hits, draw}
use toda.Injector.Method.{Method}
use toda.Injector.Method

abbrev pub two64 : ℕ
two64 = 18_446_744_073_709_551_616

pub record MistakeInjector (x : External) : Type 0 where
  pub mistake : MistakeConfig
  pub filter : Filter x

-- `for i in pos..pos + length { data[i] = 0; }`
unfoldable pub zero_range : {S : Type 0} → ℕ → ℕ → List ℕ → Action S (List ℕ)
zero_range i zero xs = pure xs
zero_range i (suc n) xs =
    let rest = zero_range (i + 1) n (set xs i 0) in if ltb i (length xs) then rest else crash

-- The bytes from `i` on are overwritten by new ones.
unfoldable pub splice : ℕ → List ℕ → List ℕ → List ℕ
splice zero [] xs = xs
splice zero (n ∷ new) [] = []
splice zero (n ∷ new) (x ∷ xs) = n ∷ splice zero new xs
splice (suc i) new [] = []
splice (suc i) new (x ∷ xs) = x ∷ splice i new xs

module _ (x : External) where
  unfoldable pub build : MistakesConfig → MistakeInjector x
  build conf = record { mistake = conf.mistake; filter = Filter.build x conf.filter }

  -- `rng.gen_range(low, high)` panics on an empty range.
  unfoldable pub gen_range : ℕ → ℕ → Action (Context x) ℕ
  gen_range low high = if ltb low high then draw x (x.gen_range low high) else crash

  -- `match n { 0 => 0, n => rng.gen_range(1, n + 1) }`
  unfoldable pub up_to : ℕ → Action (Context x) ℕ
  unfolding gen_range
  up_to n = if n == 0 then pure 0 else gen_range 1 ((n + 1) % two64)

  unfoldable pub overwrite : MistakeType → ℕ → ℕ → List ℕ → Action (Context x) (List ℕ)
  unfolding zero_range splice
  overwrite zero_fill pos n xs = zero_range pos n xs
  overwrite random_fill pos n xs =
      if ltb (length xs) (pos + n)
      then crash
      else (do new ← draw x (x.fill n); pure (splice pos new xs))

  -- One round of the loop in `handle`.
  unfoldable pub sabotage : MistakeConfig → List ℕ → Action (Context x) (List ℕ)
  unfolding gen_range up_to overwrite
  sabotage m xs = do
    pos ← gen_range 0 (max (length xs) 1)
    n ← up_to (min m.max_length ((length xs + two64 - pos) % two64))
    overwrite m.filling pos n xs

  unfoldable pub sabotage_times : ℕ → MistakeConfig → List ℕ → Action (Context x) (List ℕ)
  unfolding sabotage
  sabotage_times zero m xs = pure xs
  sabotage_times (suc n) m xs = sabotage m xs >>= λ ys. sabotage_times n m ys

  unfoldable pub handle : MistakeConfig → List ℕ → Action (Context x) (List ℕ)
  unfolding up_to sabotage_times
  handle m xs = do occurrence ← up_to m.max_occurrences; sabotage_times occurrence m xs

  abbrev sabotage_reply : MistakeConfig → Reply → Action (Context x) Reply
  sabotage_reply m (bytes d) = do ys ← handle m d.bytes; pure (bytes (record { bytes = ys }))
  sabotage_reply m r = pure r

  unfoldable pub inject_reply :
      MistakeInjector x → Method → FilePath → Reply → Action (Context x) Reply
  inject_reply i method path r = do
    hit ← hits x i.filter method path
    if hit then sabotage_reply i.mistake r else pure r

  unfoldable pub inject_write_data :
      MistakeInjector x → FilePath → List ℕ → Action (Context x) (List ℕ)
  inject_write_data i path data_bytes = do
    hit ← hits x i.filter Method.write path
    if hit then handle i.mistake data_bytes else pure data_bytes
