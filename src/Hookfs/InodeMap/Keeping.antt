-- ===== src/Hookfs/InodeMap/Keeping.antt =====
-- What the operations of the inode map leave of the paths that it knows.
use toda.Base.{
  ℕ, ◌≡◌, true, some, List, [], ◌∷◌, arith, Bool-cases, Option-cases, inl, inr, nat_eq, leb,
}
use toda.Action.{ok}
use toda.FilePath.{FilePath, component_eq}
use toda.Base.{list_beq_iff}
use toda.Hookfs.InodeMap.{
  back, contains, node_get_path, get_path, increase_ref, decrease_ref, InodeMap,
}
use toda.Hookfs.InodeMap.Paths.{knows}

contains-back :
    (ps : List FilePath) (path : FilePath) → back ps ≡ some path → contains path ps ≡ true
unfolding back contains
contains-back [] path e = ground arith
contains-back (p ∷ []) path e = ground (arith, list_beq_iff p path)
contains-back (p ∷ q ∷ ps) path e = ground (arith, contains-back (q ∷ ps) path e)

-- The path that the map gives for an inode is one that it knows of it.
pub knows-get_path :
    (i : ℕ) (m : InodeMap) (path : FilePath) → get_path i m ≡ ok path → knows m i path ≡ true
unfolding knows get_path node_get_path
knows-get_path i m path e = elim (Option-cases (m i)) [
  | inl n ↦ ground arith
  | inr (node, n) ↦ (elim (Option-cases (back node.paths)) [
    | inl b ↦ ground arith
    | inr (q, b) ↦ ground (arith, contains-back node.paths q b)
  ])
]

-- Counting a reference changes no path.
pub knows-increase_ref :
    (i j : ℕ) (q : FilePath) (m : InodeMap) → knows (increase_ref i m) j q ≡ knows m j q
unfolding knows increase_ref
knows-increase_ref i j q m = elim (Option-cases (m i)) [
  | inl e ↦ ground arith
  | inr (node, e) ↦ ground arith
]

-- Forgetting an inode adds no path.
pub knows-decrease_ref :
    (i n j : ℕ) (q : FilePath) (m : InodeMap)
    → knows (decrease_ref i n m) j q ≡ true
    → knows m j q ≡ true
unfolding knows decrease_ref
knows-decrease_ref i n j q m h = elim (Option-cases (m i)) [
  | inl e ↦ ground arith
  | inr (node, e) ↦ (elim (Bool-cases (leb node.ref_count n)) [
    | inl b ↦ ground arith
    | inr b ↦ ground arith
  ])
]
