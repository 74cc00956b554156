-- ===== src/Hookfs/InodeMap/Paths.antt =====
-- The inode map as a relation between inodes and paths.
use toda.Base.{
  refl, ℕ, ◌≡◌, ◌↔◌, Bool, true, false, not, Option, none, some, List, [], ◌∷◌, ◌++◌, ◌&&◌, ◌||◌,
  ◌==◌, arith, Bool-cases, Option-cases, inl, inr,
}
use toda.FilePath.{FilePath, path_beq, component_eq}
use toda.Base.{list_beq_iff}
use toda.Base.Map
use toda.Hookfs.InodeMap.{
  Node, new_node, InodeMap, contains, drain, node_insert, node_remove, insert_path, remove_path,
}

path_beq_iff : (p q : FilePath) → (path_beq p q ≡ true) ↔ (p ≡ q)
path_beq_iff p q = list_beq_iff p q

-- Does the map know this path of this inode?
abbrev known_at : Option Node → FilePath → Bool
known_at none path = false
known_at (some node) path = contains path node.paths

unfoldable pub knows : InodeMap → ℕ → FilePath → Bool
knows m inode path = known_at (m inode) path

pub knows-empty : (inode : ℕ) (path : FilePath) → knows Map.empty inode path ≡ false
unfolding knows
knows-empty inode path = refl

contains-append :
    (q p : FilePath) (ps : List FilePath)
    → contains q (ps ++ p ∷ []) ≡ (contains q ps || path_beq p q)
unfolding contains
contains-append q p [] = ground arith
contains-append q p (r ∷ ps) = ground (arith, contains-append q p ps)

contains_eq :
    (q p : FilePath) (ps : List FilePath)
    → contains p ps ≡ true
    → contains q ps ≡ (path_beq p q || contains q ps)
contains_eq q p ps h = elim (Bool-cases (path_beq p q)) [
  | inl e ↦ ground (arith, path_beq_iff p q)
  | inr e ↦ ground arith
]

contains-node_insert :
    (q p : FilePath) (node : Node)
    → contains q (node_insert p node).paths ≡ (path_beq p q || contains q node.paths)
unfolding node_insert
contains-node_insert q p node = elim (Bool-cases (contains p node.paths)) [
  | inl old ↦ rw old (contains_eq q p node.paths old)
  | inr new ↦ ground (arith, contains-append q p node.paths)
]

contains-drain :
    (q p : FilePath) (ps : List FilePath)
    → contains q (drain p ps) ≡ (not (path_beq p q) && contains q ps)
unfolding contains drain
contains-drain q p [] = ground arith
contains-drain q p (r ∷ ps) =
    ground (arith, contains-drain q p ps, path_beq_iff r p, path_beq_iff r q, path_beq_iff p q)

-- Inserting a path adds exactly that pair of inode and path.
pub knows-insert_path :
    (i j : ℕ) (p q : FilePath) (m : InodeMap)
    → knows (insert_path i p m) j q ≡ ((j == i && path_beq p q) || knows m j q)
unfolding knows insert_path contains
knows-insert_path i j p q m = elim (Option-cases (m i)) [
  | inl e ↦ ground (arith, contains-node_insert q p new_node)
  | inr (node, e) ↦ ground (arith, contains-node_insert q p node)
]

-- Removing a path takes exactly that pair of inode and path away.
pub knows-remove_path :
    (i j : ℕ) (p q : FilePath) (m : InodeMap)
    → knows (remove_path i p m) j q ≡ (not (j == i && path_beq p q) && knows m j q)
unfolding knows remove_path node_remove
knows-remove_path i j p q m = elim (Option-cases (m i)) [
  | inl e ↦ ground arith
  | inr (node, e) ↦ ground (arith, contains-drain q p node.paths)
]
