-- ===== src/Injector/Filter.antt =====
-- `struct Filter` of src/injector/filter.rs: which calls are hit, by path, method and chance.
pub mod Mask
pub mod Certain
use Prim.Native.Nat.{bit_and, bit_or}
use mathlib.Core.Option
use toda.Base.{
  ℕ, Bool, true, false, not, Option, none, some, List, [], ◌∷◌, ◌&&◌, ◌==◌, if◌then◌else◌,
}
use toda.Base.Int.{ℤ, pos}
use toda.FilePath.{FilePath}
use toda.External.{External, MatchOptions}
use toda.Injector.Config.{Text, FilterConfig}
use toda.Injector.Method.{Method, no_methods, all_methods, try_from}

pub record Filter (x : External) : Type 0 where
  pub path_filter : Option x.Pattern
  pub methods : Method
  pub probability : x.F64

-- `filter_map(.. .ok()).fold(Method::empty(), |methods, method| methods | method)`
unfoldable pub union_from : (x : External) → Method → List Text → Method
union_from x acc [] = acc
union_from x acc (s ∷ names) =
    union_from x (elim (try_from x s) [ none ↦ acc | some m ↦ bit_or acc m ]) names

-- The set of methods of a configuration: no names, or none given, mean all.
unfoldable pub build_methods : (x : External) → Option (List Text) → Method
build_methods x none = all_methods
build_methods x (some []) = all_methods
build_methods x (some (s ∷ names)) = union_from x no_methods (s ∷ names)

-- An empty path and a path that is no glob pattern give no pattern.
unfoldable pub build_path : (x : External) → Option Text → Option x.Pattern
build_path x none = none
build_path x (some []) = none
build_path x (some (c ∷ s)) = x.new_pattern (c ∷ s)

-- `Filter::build`, which never fails.
unfoldable pub build : (x : External) → FilterConfig → Filter x
unfolding build_methods build_path
build x conf = record {
  path_filter = build_path x conf.path;
  methods = build_methods x conf.methods;
  probability = x.div (x.from_i32 conf.percent) (x.from_i32 (pos 100));
}

abbrev pub match_options : MatchOptions
match_options = record {
  case_sensitive = true;
  require_literal_separator = true;
  require_literal_leading_dot = false;
}

unfoldable pub match_path : (x : External) → Option x.Pattern → FilePath → Bool
match_path x none path = true
match_path x (some pattern) path = x.matches_path_with pattern path match_options

-- `!(self.methods & *method).is_empty()`
unfoldable pub match_method : Method → Method → Bool
match_method methods method = not (bit_and methods method == 0)

-- `Filter::filter`: it draws a number in any case.
unfoldable pub matches : (x : External) → Filter x → Method → FilePath → x.Rng → Bool × x.Rng
unfolding match_path match_method
matches x f method path rng =
    let (p, rest) = x.gen_f64 rng in
    (match_path x f.path_filter path && match_method f.methods method && x.lt p f.probability, rest)
