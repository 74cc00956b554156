-- ===== src/Hookfs/InodeMap.antt =====
-- `Node`, `InodeMap` of src/hookfs/mod.rs: which paths an inode has, and how often the kernel
-- looked it up.
pub mod Paths
pub mod References
pub mod Keeping
mod Tests
use toda.Base.{
  ℕ, ◌+◌, ◌%◌, Bool, true, false, Option, none, some, List, [], ◌∷◌, ◌++◌, ◌||◌, leb, ◌==◌,
  if◌then◌else◌,
}
use toda.Base.Map.{Map}
use toda.Base.Map
use toda.Action.{Result, ok, err}
use toda.FilePath.{FilePath, path_beq, component_eq}
use toda.Hookfs.Errors.{HookFsError}

abbrev pub two64 : ℕ
two64 = 18_446_744_073_709_551_616

pub record Node : Type 0 where
  pub ref_count : ℕ
  pub paths : List FilePath

-- `Node::default()`
abbrev pub new_node : Node
new_node = record { ref_count = 0; paths = [] }

unfoldable pub back : List FilePath → Option FilePath
back [] = none
back (p ∷ []) = some p
back (p ∷ q ∷ ps) = back (q ∷ ps)

unfoldable pub contains : FilePath → List FilePath → Bool
contains path [] = false
contains path (p ∷ ps) = path_beq p path || contains path ps

-- `drain_filter(|x| x == path)`
unfoldable pub drain : FilePath → List FilePath → List FilePath
drain path [] = []
drain path (p ∷ ps) = if path_beq p path then drain path ps else p ∷ drain path ps

-- `Node::get_path`, `Node::insert`, `Node::remove`
unfoldable pub node_get_path : Node → Option FilePath
unfolding back
node_get_path node = back node.paths

unfoldable pub node_insert : FilePath → Node → Node
unfolding contains
node_insert path node =
    if contains path node.paths then node else record node { paths = node.paths ++ (path ∷ []) }

unfoldable pub node_remove : FilePath → Node → Node
unfolding drain
node_remove path node = record node { paths = drain path node.paths }

abbrev pub InodeMap : Type 0
InodeMap = Map Node

abbrev node_path : Option Node → Option FilePath
node_path none = none
node_path (some node) = node_get_path node

abbrev or_not_found : ℕ → Option FilePath → Result FilePath
or_not_found inode none = err (HookFsError.inode_not_found inode)
or_not_found inode (some path) = ok path

unfoldable pub get_path : ℕ → InodeMap → Result FilePath
unfolding node_get_path
get_path inode m = or_not_found inode (node_path (m inode))

unfoldable pub increase_ref : ℕ → InodeMap → InodeMap
increase_ref inode m = elim (m inode) [
  | none ↦ m
  | some node ↦ Map.insert inode (record node { ref_count = (node.ref_count + 1) % two64 }) m
]

-- The count itself is never lowered.
unfoldable pub decrease_ref : ℕ → ℕ → InodeMap → InodeMap
decrease_ref inode nlookup m = elim (m inode) [
  | none ↦ m
  | some node ↦ if leb node.ref_count nlookup then Map.remove inode m else m
]

abbrev entry_or_default : Option Node → Node
entry_or_default none = new_node
entry_or_default (some node) = node

unfoldable pub insert_path : ℕ → FilePath → InodeMap → InodeMap
unfolding node_insert
insert_path inode path m = Map.insert inode (node_insert path (entry_or_default (m inode))) m

unfoldable pub remove_path : ℕ → FilePath → InodeMap → InodeMap
unfolding node_remove
remove_path inode path m = elim (m inode) [
  | none ↦ m
  | some node ↦ Map.insert inode (node_remove path node) m
]
