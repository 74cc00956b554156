-- ===== src/Hookfs/InodeMap/Tests.antt =====
-- The inode map on concrete maps.
use toda.Base.{◌==◌, ◌+◌, ◌≡◌, refl, not, ◌&&◌, ◌||◌, [], ◌∷◌, arith, leb, if◌then◌else◌, nat_eq}
use toda.Base.Map
use toda.FilePath.{FilePath, root_dir, normal, path_beq, component_eq}
use toda.Hookfs.InodeMap.{Node, InodeMap, insert_path, remove_path, decrease_ref}
use toda.Hookfs.InodeMap.Paths.{knows, knows-insert_path, knows-remove_path}
use toda.Hookfs.InodeMap.References.{
  forget_all, forget_all-portions, look_up_times, look_up_times-decrease_ref,
}

abbrev mount : FilePath
mount = root_dir ∷ normal (b'm' ∷ []) ∷ []

abbrev original : FilePath
original = root_dir ∷ normal (b'o' ∷ []) ∷ []

abbrev known_node : Node
known_node = record { ref_count = 3; paths = original ∷ [] }

abbrev one_inode : InodeMap
one_inode = Map.insert 7 known_node Map.empty

forget_all-portions_example : forget_all 7 (2 ∷ 1 ∷ []) one_inode ≡ one_inode
forget_all-portions_example =
    forget_all-portions 7 (2 ∷ 1 ∷ []) one_inode {node = known_node} refl
      (ground arith, (ground arith, tt))

look_up_times-decrease_ref_example : decrease_ref 7 5 (look_up_times 7 2 one_inode) ≡ (
    if leb (3 + 2) 5
    then Map.remove 7 (look_up_times 7 2 one_inode)
    else look_up_times 7 2 one_inode)
look_up_times-decrease_ref_example =
    look_up_times-decrease_ref 7 2 5 one_inode known_node refl (omega arith)

knows-insert_path_example :
    knows (insert_path 7 mount one_inode) 7 original
    ≡ ((7 == 7 && path_beq mount original) || knows one_inode 7 original)
knows-insert_path_example = knows-insert_path 7 7 mount original one_inode

knows-remove_path_example :
    knows (remove_path 7 original one_inode) 7 original
    ≡ (not (7 == 7 && path_beq original original) && knows one_inode 7 original)
knows-remove_path_example = knows-remove_path 7 7 original original one_inode
