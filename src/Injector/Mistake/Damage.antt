-- ===== src/Injector/Mistake/Damage.antt =====
-- How far one list of bytes is from another.
use toda.Base.{
  ℕ, zero, suc, ◌+◌, ◌≤◌, ◌≡◌, refl, ◌⊎◌, inl, inr, List, [], ◌∷◌, length, set, ◌==◌, arith,
  if◌then◌else◌, length-set,
}
use toda.Injector.Config.{MistakeType, zero_fill, random_fill}
use toda.Injector.Mistake.{splice}

-- The number of places at which they differ.
abbrev pub changed : List ℕ → List ℕ → ℕ
changed [] ys = 0
changed (x ∷ xs) [] = 0
changed (x ∷ xs) (y ∷ ys) = (if x == y then 0 else 1) + changed xs ys

-- Every byte is kept, or blanked.
abbrev pub Blanked : List ℕ → List ℕ → Type 0
Blanked [] ys = Unit
Blanked (x ∷ xs) [] = Unit
Blanked (x ∷ xs) (y ∷ ys) = ((y ≡ x) ⊎ (y ≡ 0)) × Blanked xs ys

abbrev pub Fits : MistakeType → List ℕ → List ℕ → Type 0
Fits zero_fill xs ys = Blanked xs ys
Fits random_fill xs ys = Unit

-- The bytes `ys` are `xs` with at most `n` mistakes of a kind.
pub record Damage (filling : MistakeType) (n : ℕ) (xs ys : List ℕ) : Type 0 where
  pub same_length : length ys ≡ length xs
  pub bounded : changed xs ys ≤ n
  pub fits : Fits filling xs ys

pub changed_self : (xs : List ℕ) → changed xs xs ≡ 0
changed_self [] = refl
changed_self (x ∷ xs) = ground (arith, changed_self xs)

Blanked-self : (xs : List ℕ) → Blanked xs xs
Blanked-self [] = tt
Blanked-self (x ∷ xs) = (inl refl, Blanked-self xs)

pub Fits-self : (t : MistakeType) (xs : List ℕ) → Fits t xs xs
Fits-self zero_fill xs = Blanked-self xs
Fits-self random_fill xs = tt

changed_triangle :
    (xs ys zs : List ℕ)
    → length ys ≡ length xs
    → length zs ≡ length ys
    → changed xs zs ≤ changed xs ys + changed ys zs
changed_triangle [] ys zs h k = omega arith
changed_triangle (x ∷ xs) [] zs h k = absurd (omega arith)
changed_triangle (x ∷ xs) (y ∷ ys) [] h k = omega arith
changed_triangle (x ∷ xs) (y ∷ ys) (z ∷ zs) h k =
    ground (arith, changed_triangle xs ys zs (omega arith) (omega arith))

Blanked-trans :
    (xs ys zs : List ℕ) → length ys ≡ length xs → Blanked xs ys → Blanked ys zs → Blanked xs zs
Blanked-trans [] ys zs h a b = tt
Blanked-trans (x ∷ xs) [] zs h a b = absurd (omega arith)
Blanked-trans (x ∷ xs) (y ∷ ys) [] h a b = tt
Blanked-trans (x ∷ xs) (y ∷ ys) (z ∷ zs) h a b =
    (ground arith, Blanked-trans xs ys zs (omega arith) a.1 b.1)

Fits-trans :
    (t : MistakeType) (xs ys zs : List ℕ)
    → length ys ≡ length xs
    → Fits t xs ys
    → Fits t ys zs
    → Fits t xs zs
Fits-trans zero_fill xs ys zs h a b = Blanked-trans xs ys zs h a b
Fits-trans random_fill xs ys zs h a b = tt

pub Damage-self : (t : MistakeType) (xs : List ℕ) → Damage t 0 xs xs
Damage-self t xs = record {
  same_length = refl;
  bounded = omega (arith, changed_self xs);
  fits = Fits-self t xs;
}

pub Damage-trans :
    {t : MistakeType} {m n : ℕ} {xs ys zs : List ℕ}
    → Damage t m xs ys
    → Damage t n ys zs
    → Damage t (m + n) xs zs
Damage-trans {t} {m} {n} {xs} {ys} {zs} a b = record {
  same_length = omega (arith, a.same_length, b.same_length);
  bounded =
      omega (arith, a.bounded, b.bounded, changed_triangle xs ys zs a.same_length b.same_length);
  fits = Fits-trans t xs ys zs a.same_length a.fits b.fits;
}

pub Damage-mono :
    {t : MistakeType} {m n : ℕ} {xs ys : List ℕ} → m ≤ n → Damage t m xs ys → Damage t n xs ys
Damage-mono h a = record {
  same_length = a.same_length;
  bounded = omega (arith, a.bounded);
  fits = a.fits;
}

changed-set : (xs : List ℕ) (i v : ℕ) → changed xs (set xs i v) ≤ 1
changed-set [] i v = omega arith
changed-set (x ∷ xs) zero v = ground (arith, changed_self xs)
changed-set (x ∷ xs) (suc i) v = ground (arith, changed-set xs i v)

Blanked-set : (xs : List ℕ) (i : ℕ) → Blanked xs (set xs i 0)
Blanked-set [] i = tt
Blanked-set (x ∷ xs) zero = (inr refl, Blanked-self xs)
Blanked-set (x ∷ xs) (suc i) = (inl refl, Blanked-set xs i)

pub Damage-set : (xs : List ℕ) (i : ℕ) → Damage zero_fill 1 xs (set xs i 0)
Damage-set xs i = record {
  same_length = length-set xs i 0;
  bounded = changed-set xs i 0;
  fits = Blanked-set xs i;
}

length-splice : (i : ℕ) (new xs : List ℕ) → length (splice i new xs) ≡ length xs
unfolding splice
length-splice zero [] xs = refl
length-splice zero (n ∷ new) [] = refl
length-splice zero (n ∷ new) (x ∷ xs) = omega (arith, length-splice zero new xs)
length-splice (suc i) new [] = refl
length-splice (suc i) new (x ∷ xs) = omega (arith, length-splice i new xs)

changed-splice : (i : ℕ) (new xs : List ℕ) → changed xs (splice i new xs) ≤ length new
unfolding splice
changed-splice zero [] xs = omega (arith, changed_self xs)
changed-splice zero (n ∷ new) [] = omega arith
changed-splice zero (n ∷ new) (x ∷ xs) = ground (arith, changed-splice zero new xs)
changed-splice (suc i) new [] = omega arith
changed-splice (suc i) new (x ∷ xs) = ground (arith, changed-splice i new xs)

pub Damage-splice : (i : ℕ) (new xs : List ℕ) → Damage random_fill (length new) xs (splice i new xs)
Damage-splice i new xs = record {
  same_length = length-splice i new xs;
  bounded = changed-splice i new xs;
  fits = tt;
}
