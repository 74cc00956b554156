-- ===== src/Base/Map.antt =====
-- A hash map keyed by native numbers, as a function.
use Prim.Native.Nat.{ℕ}
use mathlib.Core.Path.{◌≡◌, fun_ext}
use mathlib.Core.Option.{Option, none, some}
use native.Mathlib.Omega.{arith}
use toda.Base.Tests.{◌==◌, if◌then◌else◌}

abbrev pub Map : Type 0 → Type 0
Map V = ℕ → Option V

module _ {V : Type 0} where
  abbrev pub empty : Map V
  empty k = none

  abbrev pub insert : ℕ → V → Map V → Map V
  insert k v m j = if j == k then some v else m j

  abbrev pub remove : ℕ → Map V → Map V
  remove k m j = if j == k then none else m j

  pub insert-insert : (k : ℕ) (v w : V) (m : Map V) → insert k v (insert k w m) ≡ insert k v m
  insert-insert k v w m = fun_ext λ j. ground arith

  pub remove-insert : (k : ℕ) (v : V) (m : Map V) → m k ≡ none → remove k (insert k v m) ≡ m
  remove-insert k v m e = fun_ext λ j. ground arith
