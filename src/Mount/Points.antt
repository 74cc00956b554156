-- ===== src/Mount/Points.antt =====
-- What `non_root` of src/mount.rs decides.
use toda.Base.{
  ap, ◌∙◌, ◌≡◌, ◌⊎◌, ◌↔◌, refl, true, some, List, [], ◌∷◌, ◌++◌, arith, Bool-cases, Option-cases,
  inl, inr,
}
use toda.FilePath.{FilePath, root_dir, starts_with, strip_prefix}
use toda.FilePath.Laws.{strip_prefix-append, append-strip_prefix}
use toda.Mount.{MountsInfo, contains_path, non_root}

-- The path is a mount point, or below one.
abbrev pub OnMount : List FilePath → FilePath → Type 0
OnMount [] path = ⊥
OnMount (m ∷ ms) path = ((q : FilePath) × (path ≡ m ++ q)) ⊎ OnMount ms path

starts_with_iff :
    (path base : FilePath) → (starts_with path base ≡ true) ↔ ((q : FilePath) × (path ≡ base ++ q))
unfolding starts_with
starts_with_iff path base = (
  λ h. elim (Option-cases (strip_prefix path base)) [
    | inl e ↦ ground arith
    | inr (q, e) ↦ (q, append-strip_prefix path base e)
  ],
  λ h.
      let found : strip_prefix path base ≡ some h.0 =
        ap (λ t. strip_prefix t base) h.1 ∙ strip_prefix-append base h.0 in
      ground arith,
)

on_mount : (path : FilePath) (ms : List FilePath) → contains_path path ms ≡ true → OnMount ms path
unfolding contains_path
on_mount path [] h = ground arith
on_mount path (m ∷ ms) h = elim (Bool-cases (starts_with path m)) [
  | inl e ↦ inl ((starts_with_iff path m).0 e)
  | inr e ↦ inr (on_mount path ms (ground arith))
]

contained : (path : FilePath) (ms : List FilePath) → OnMount ms path → contains_path path ms ≡ true
unfolding contains_path
contained path [] h = absurd h
contained path (m ∷ ms) (inl below) = rw ((starts_with_iff path m).1 below) refl
contained path (m ∷ ms) (inr h) = rw (contained path ms h) (ground arith)

-- `non_root` answers true exactly for the paths that begin with the path of some mount point.
pub non_root-OnMount :
    (info : MountsInfo) (path : FilePath) → (non_root info path ≡ true) ↔ OnMount info.mounts path
unfolding non_root
non_root-OnMount info path = (on_mount path info.mounts, contained path info.mounts)

-- Where the table holds the mount of `/`, `non_root` answers true for every absolute path.
pub non_root-root_dir :
    (before after : List FilePath) (q : FilePath)
    → non_root (record { mounts = before ++ (root_dir ∷ []) ∷ after }) (root_dir ∷ q) ≡ true
unfolding non_root contains_path
non_root-root_dir [] after q =
    rw ((starts_with_iff (root_dir ∷ q) (root_dir ∷ [])).1 (q, refl)) refl
non_root-root_dir (m ∷ before) after q = rw (non_root-root_dir before after q) (ground arith)
