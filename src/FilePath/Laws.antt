-- ===== src/FilePath/Laws.antt =====
-- Joining and stripping undo one another.
use toda.Base.{◌≡◌, refl, ap, some, [], ◌∷◌, ◌++◌, arith, Bool-cases, inl, inr}
use toda.FilePath.{
  FilePath, Component, root_dir, cur_dir, parent_dir, normal, component_beq, component_beq_iff,
  join, strip_prefix, last, but_last,
}

-- Paths that `Path::join` appends as they are: relative, and with no leading dot.
abbrev pub IsTail : FilePath → Type 0
IsTail (root_dir ∷ q) = ⊥
IsTail (cur_dir ∷ q) = ⊥
IsTail q = Unit

pub join-eq-append : (p q : FilePath) → IsTail q → join p q ≡ p ++ q
unfolding join
join-eq-append [] q h = refl
join-eq-append (c ∷ p) [] h = refl
join-eq-append (c ∷ p) (root_dir ∷ q) h = absurd h
join-eq-append (c ∷ p) (cur_dir ∷ q) h = absurd h
join-eq-append (c ∷ p) (parent_dir ∷ q) h = refl
join-eq-append (c ∷ p) (normal w ∷ q) h = refl

pub strip_prefix-append : (p q : FilePath) → strip_prefix (p ++ q) p ≡ some q
unfolding strip_prefix
strip_prefix-append [] [] = refl
strip_prefix-append [] (c ∷ q) = refl
strip_prefix-append (c ∷ p) q = rw ((component_beq_iff c c).1 refl) (strip_prefix-append p q)

-- What is stripped, put back, gives the path again.
pub append-strip_prefix :
    (p base : FilePath) {q : FilePath} → strip_prefix p base ≡ some q → p ≡ base ++ q
unfolding strip_prefix
append-strip_prefix [] [] h = ground arith
append-strip_prefix (c ∷ p) [] h = ground arith
append-strip_prefix [] (b ∷ base) h = cc
append-strip_prefix (c ∷ p) (b ∷ base) {q} h = elim (Bool-cases (component_beq c b)) [
  | inl e ↦ ground (arith, component_beq_iff c b, append-strip_prefix p base {q = q})
  | inr e ↦ ground arith
]

pub last-append : (p : FilePath) (c : Component) → last (p ++ c ∷ []) ≡ some c
unfolding last
last-append [] c = refl
last-append (b ∷ []) c = refl
last-append (b ∷ d ∷ p) c = last-append (d ∷ p) c

pub but_last-append : (p : FilePath) (c : Component) → but_last (p ++ c ∷ []) ≡ p
unfolding but_last
but_last-append [] c = refl
but_last-append (b ∷ []) c = refl
but_last-append (b ∷ d ∷ p) c = ap (λ t. b ∷ t) (but_last-append (d ∷ p) c)

-- A path with a file name is its parent with that name.
pub but_last-last : (p : FilePath) {c : Component} → last p ≡ some c → p ≡ but_last p ++ c ∷ []
unfolding last but_last
but_last-last [] h = cc
but_last-last (b ∷ []) h = ground arith
but_last-last (b ∷ d ∷ p) h = ap (λ t. b ∷ t) (but_last-last (d ∷ p) h)
