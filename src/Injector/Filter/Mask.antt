-- ===== src/Injector/Filter/Mask.antt =====
-- The set of methods that a configuration selects, flag by flag.
use Prim.Native.Nat.{bit_or}
use toda.Base.{
  ℕ, zero, suc, ◌*◌, ◌^◌, ◌≤◌, ◌<◌, ◌≡◌, refl, ◌∙◌, ap, inl, inr, Bool, true, false, not, Option,
  none, some, List, [], ◌∷◌, ◌&&◌, ◌||◌, ◌==◌, arith, Option-cases,
}
use toda.Base.Bits.{bit, bit-le_one, bit-bit_or, bit_and-flag, bit-flag, bit-zero, pow-ne-zero}
use toda.External.{External}
use toda.Injector.Config.{Text}
use toda.Injector.Method.{Method, no_methods, all_methods, try_from, shift_of}
use toda.Injector.Filter.{union_from, build_methods, match_method}

-- Does a name stand for the method of shift `k`?
abbrev pub names_method : (x : External) → ℕ → Text → Bool
names_method x k s = elim (shift_of x s) [ none ↦ false | some j ↦ k == j ]

abbrev pub any_names : (x : External) → ℕ → List Text → Bool
any_names x k [] = false
any_names x k (s ∷ names) = names_method x k s || any_names x k names

-- What a configuration means: all methods where no name is given.
unfoldable pub selects : (x : External) → Option (List Text) → ℕ → Bool
selects x none k = true
selects x (some []) k = true
selects x (some (s ∷ names)) k = any_names x k (s ∷ names)

abbrev has : ℕ → Method → Bool
has k mask = bit k mask == 1

match_method-has : (k mask : ℕ) → match_method mask (2 ^ k) ≡ has k mask
unfolding match_method
match_method-has k mask = rw (bit_and-flag k mask) (cases (bit k mask) (bit-le_one k mask))
  where
    cases : (b : ℕ) → b ≤ 1 → not (b * 2 ^ k == 0) ≡ (b == 1)
    cases zero h = ground arith
    cases (suc zero) h = ground (arith, pow-ne-zero k)
    cases (suc (suc b)) h = absurd (omega arith)

has-or : (k a b : ℕ) → has k (bit_or a b) ≡ (has k a || has k b)
has-or k a b = ground (arith, bit-bit_or k a b, bit-le_one k a, bit-le_one k b)

has-flag : (k j : ℕ) → has k (2 ^ j) ≡ (k == j)
has-flag k j = ground (arith, bit-flag k j)

has-none : (k : ℕ) → has k 0 ≡ false
has-none k = rw (bit-zero k)

has-union_from :
    (x : External) (k : ℕ) (acc : Method) (names : List Text)
    → has k (union_from x acc names) ≡ (has k acc || any_names x k names)
unfolding union_from try_from
has-union_from x k acc [] = ground arith
has-union_from x k acc (s ∷ names) = elim (Option-cases (shift_of x s)) [
  | inl e ↦ ground (arith, has-union_from x k acc names)
  | inr (j, e) ↦
      ground
        (arith, has-union_from x k (bit_or acc (2 ^ j)) names, has-or k acc (2 ^ j), has-flag k j)
]

all_below : ℕ → (ℕ → Bool) → Bool
all_below zero p = true
all_below (suc n) p = p n && all_below n p

all_below_sound : (n : ℕ) (p : ℕ → Bool) (k : ℕ) → all_below n p ≡ true → k < n → p k ≡ true
unfolding all_below
all_below_sound zero p k h lt = elim lt [ ]
all_below_sound (suc n) p k h lt = ground (arith, all_below_sound n p k)

has-all_table : all_below 32 (λ k. has k all_methods) ≡ true
unfolding all_below bit
has-all_table = refl

has-all : (k : ℕ) → k < 32 → has k all_methods ≡ true
has-all k h = all_below_sound 32 (λ k. has k all_methods) k has-all_table h

-- A call of the method with shift `k`, below 32, passes the method filter that is built from a
-- configuration exactly when the configuration selects it.
pub match_method-build_methods :
    (x : External) (names : Option (List Text)) (k : ℕ)
    → k < 32
    → match_method (build_methods x names) (2 ^ k) ≡ selects x names k
unfolding build_methods selects
match_method-build_methods x none k h = match_method-has k all_methods ∙ has-all k h
match_method-build_methods x (some []) k h = match_method-has k all_methods ∙ has-all k h
match_method-build_methods x (some (s ∷ names)) k h =
    match_method-has k _
    ∙ has-union_from x k no_methods (s ∷ names)
    ∙ ap (λ b. b || any_names x k (s ∷ names)) (has-none k)
