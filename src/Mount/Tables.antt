-- ===== src/Mount/Tables.antt =====
-- Mounting the file system over a directory and taking it away again, on tables of mounts.
use toda.Base.{
  ◌≡◌, refl, subst, sym, fun_ext, true, false, List, ◌∷◌, Bool-cases, inl, inr, list_beq_iff,
}
use toda.FilePath.{FilePath, path_beq, component_eq}
use toda.Mount.System.{Table, Origin, fuse, shown, push, pop}

-- The directory moved away, and the file system in its place.
abbrev pub injected : FilePath → FilePath → Table → Table
injected original new t = push original fuse (push new (shown original t) (pop original t))

-- The file system unmounted.
abbrev pub uncovered : FilePath → FilePath → Table → Table
uncovered original new t = pop original (injected original new t)

-- The directory bound back, and its other mount taken away.
abbrev pub recovered : FilePath → FilePath → Table → Table
recovered original new t =
    let u = uncovered original new t in pop new (push original (shown new u) u)

path_beq_refl : (p : FilePath) → path_beq p p ≡ true
path_beq_refl p = (list_beq_iff p p).1 refl

path_beq_eq : (p q : FilePath) → path_beq p q ≡ true → p ≡ q
path_beq_eq p q h = (list_beq_iff p q).0 h

at_original :
    (original new : FilePath) (t : Table) (o : Origin) (os : List Origin)
    → t original ≡ o ∷ os
    → path_beq new original ≡ false
    → path_beq original new ≡ false
    → recovered original new t original ≡ t original
at_original original new t o os h n n' =
    rw (n', n, path_beq_refl original, path_beq_refl new, h) refl

at_new :
    (original new : FilePath) (t : Table)
    → path_beq new original ≡ false
    → recovered original new t new ≡ t new
at_new original new t n = rw (n, path_beq_refl new) refl

at_other :
    (original new : FilePath) (t : Table) (q : FilePath)
    → path_beq q original ≡ false
    → path_beq q new ≡ false
    → recovered original new t q ≡ t q
at_other original new t q a b = rw (a, b) refl

-- Where the directory was mounted, all is mounted as before.
pub recovered-eq :
    (original new : FilePath) (t : Table) (o : Origin) (os : List Origin)
    → t original ≡ o ∷ os
    → path_beq new original ≡ false
    → path_beq original new ≡ false
    → recovered original new t ≡ t
recovered-eq original new t o os h n n' = fun_ext λ q. elim (Bool-cases (path_beq q original)) [
  | inl a ↦
      subst (λ p. recovered original new t p ≡ t p) (sym (path_beq_eq q original a))
        (at_original original new t o os h n n')
  | inr a ↦ elim (Bool-cases (path_beq q new)) [
    | inl b ↦
        subst (λ p. recovered original new t p ≡ t p) (sym (path_beq_eq q new b))
          (at_new original new t n)
    | inr b ↦ at_other original new t q a b
  ]
]
