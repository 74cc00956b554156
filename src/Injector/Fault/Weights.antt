-- ===== src/Injector/Fault/Weights.antt =====
-- How often each error number is picked: by its weight.
use toda.Base.{
  ℕ, zero, suc, ◌+◌, ◌-◌, ◌≤◌, ◌<◌, ◌≡◌, refl, ◌∙◌, Bool, true, false, Option, none, some, List, [],
  ◌∷◌, ltb, ◌==◌, arith, if◌then◌else◌, Bool-cases, inl, inr,
}
use mathlib.Core.Path.{ap, ap₂}
use toda.Base.Int.{ℤ, pos, negsuc, ◌+ℤ◌, ◌-ℤ◌, wrap_i32, wrap_i32-pos, two31}
use toda.Injector.Fault.{sum_weights, pick}

-- Entries with weights that are no less than zero.
abbrev pub Weights : Type 0
Weights = List (ℕ × ℕ)

abbrev pub entries : Weights → List (ℕ × ℤ)
entries [] = []
entries ((e, w) ∷ ws) = (e, pos w) ∷ entries ws

unfoldable pub total : Weights → ℕ
total [] = 0
total ((e, w) ∷ ws) = w + total ws

-- The weight of an error number, over all of its entries.
unfoldable pub weight_of : ℕ → Weights → ℕ
weight_of e [] = 0
weight_of e ((d, w) ∷ ws) = (if d == e then w else 0) + weight_of e ws

add_pos : (a b : ℕ) → pos a +ℤ pos b ≡ pos (a + b)
unfolding ◌+ℤ◌
add_pos a b = ground arith

-- The entry in whose stretch of the line an attempt falls.
choose : ℕ → Weights → Option ℕ
choose k [] = none
choose k ((e, w) ∷ ws) = if ltb k w then some e else choose (k - w) ws

wrap_le : (a b : ℕ) → b ≤ a → a < two31 → wrap_i32 (pos a -ℤ pos b) ≡ pos (a - b)
unfolding ◌-ℤ◌ wrap_i32
wrap_le a b h k = ground arith

wrap_lt : (a b : ℕ) → a < b → b < two31 → wrap_i32 (pos a -ℤ pos b) ≡ negsuc (b - a - 1)
unfolding ◌-ℤ◌ wrap_i32
wrap_lt a b h k = ground arith

pick-choose :
    (k : ℕ) (ws : Weights) → k < two31 → total ws < two31 → pick (pos k) (entries ws) ≡ choose k ws
unfolding pick choose total
pick-choose k [] h l = refl
pick-choose k ((e, w) ∷ ws) h l = elim (Bool-cases (ltb k w)) [
  | inl below ↦ rw (wrap_lt k w (ground arith) (omega arith)) (ground arith)
  | inr above ↦
      rw (wrap_le k w (ground arith) h)
        (ground (arith, pick-choose (k - w) ws (omega arith) (omega arith)))
]

-- How many k < n pass a test.
unfoldable pub tally : ℕ → (ℕ → Bool) → ℕ
tally zero f = 0
tally (suc n) f = (if f n then 1 else 0) + tally n f

tally-add : (a b : ℕ) (f : ℕ → Bool) → tally (b + a) f ≡ tally b f + tally a (λ k. f (b + k))
unfolding tally
tally-add zero b f = let e : b + zero ≡ b = omega arith in rw e (omega arith)
tally-add (suc a) b f =
    let e : b + suc a ≡ suc (b + a) = omega arith in rw e (omega (arith, tally-add a b f))

tally_ext : (n : ℕ) (f g : ℕ → Bool) → ((k : ℕ) → k < n → f k ≡ g k) → tally n f ≡ tally n g
unfolding tally
tally_ext zero f g h = refl
tally_ext (suc n) f g h = rw (h n (omega arith), tally_ext n f g (λ k l. h k (omega arith)))

tally_const : (n : ℕ) (b : Bool) → tally n (λ k. b) ≡ (if b then n else 0)
unfolding tally
tally_const zero true = refl
tally_const zero false = refl
tally_const (suc n) true = omega (arith, tally_const n true)
tally_const (suc n) false = omega (arith, tally_const n false)

abbrev pub is_errno : ℕ → Option ℕ → Bool
is_errno e none = false
is_errno e (some d) = d == e

choose_here : (d k w : ℕ) (ws : Weights) → k < w → choose k ((d, w) ∷ ws) ≡ some d
unfolding choose
choose_here d k w ws h = ground arith

choose_later : (d k w : ℕ) (ws : Weights) → choose (w + k) ((d, w) ∷ ws) ≡ choose k ws
unfolding choose
choose_later d k w ws = let e : w + k - w ≡ k = omega arith in rw e (ground arith)

choose-weight :
    (e : ℕ) (ws : Weights) → tally (total ws) (λ k. is_errno e (choose k ws)) ≡ weight_of e ws
unfolding total weight_of tally
choose-weight e [] = refl
choose-weight e ((d, w) ∷ ws) =
    tally-add (total ws) w (λ k. is_errno e (choose k ((d, w) ∷ ws)))
    ∙ ap₂ ◌+◌
        (tally_ext w _ (λ k. d == e) (λ k h. ap (is_errno e) (choose_here d k w ws h))
          ∙ tally_const w (d == e))
        (tally_ext (total ws) _ (λ k. is_errno e (choose k ws))
            (λ k h. ap (is_errno e) (choose_later d k w ws))
          ∙ choose-weight e ws)

-- Where the weights are no less than zero and their sum fits an i32: of the attempts below the sum,
-- as many pick an error number as is its weight.
pub pick-weight :
    (e : ℕ) (ws : Weights)
    → total ws < two31
    → tally (total ws) (λ k. is_errno e (pick (pos k) (entries ws))) ≡ weight_of e ws
pick-weight e ws h =
    tally_ext (total ws) _ (λ k. is_errno e (choose k ws))
      (λ k l. ap (is_errno e) (pick-choose k ws (omega arith) h))
    ∙ choose-weight e ws

pub sum_weights-total :
    (acc : ℕ) (ws : Weights)
    → acc + total ws < two31
    → sum_weights (pos acc) (entries ws) ≡ pos (acc + total ws)
unfolding sum_weights total
sum_weights-total acc [] h = ap pos (omega arith)
sum_weights-total acc ((e, w) ∷ ws) h =
    ap (λ z. sum_weights (wrap_i32 z) (entries ws)) (add_pos acc w)
    ∙ ap (λ z. sum_weights z (entries ws)) (wrap_i32-pos (acc + w) (omega arith))
    ∙ sum_weights-total (acc + w) ws (omega arith)
    ∙ ap pos (omega arith)

choose-some :
    (k : ℕ) (ws : Weights) → k < total ws → (e : ℕ) × (choose k ws ≡ some e) × (0 < weight_of e ws)
unfolding choose total weight_of
choose-some k [] h = elim h [ ]
choose-some k ((d, w) ∷ ws) h = elim (Bool-cases (ltb k w)) [
  | inl below ↦ (d, ground arith, ground arith)
  | inr above ↦
      (let (e, c, l) = choose-some (k - w) ws (ground arith) in (e, ground arith, ground arith))
]

none_chosen : (ws : Weights) → total ws ≡ 0 → choose 0 ws ≡ none
unfolding choose total
none_chosen [] h = refl
none_chosen ((d, w) ∷ ws) h = ground (arith, none_chosen ws)

pub pick-some :
    (k : ℕ) (ws : Weights)
    → k < total ws
    → total ws < two31
    → (e : ℕ) × (pick (pos k) (entries ws) ≡ some e) × (0 < weight_of e ws)
pick-some k ws h l =
    let (e, c, m) = choose-some k ws h in (e, pick-choose k ws (omega arith) l ∙ c, m)

-- With weights that sum to zero nothing is picked.
pub pick-none : (ws : Weights) → total ws ≡ 0 → pick (pos 0) (entries ws) ≡ none
unfolding total
pick-none ws h = pick-choose 0 ws (omega arith) (omega arith) ∙ none_chosen ws h
