-- ===== src/Hookfs/InodeMap/References.antt =====
-- How often an inode was looked up, and what the kernel's forgetting does.
use toda.Base.{
  ℕ, zero, suc, ◌+◌, ◌≤◌, ◌<◌, ◌≡◌, refl, ◌∙◌, ap, List, [], ◌∷◌, some, All, arith, leb,
  if◌then◌else◌,
}
use toda.Base.Map
use toda.Hookfs.InodeMap.{Node, InodeMap, increase_ref, decrease_ref, two64}

-- The kernel forgets an inode in several portions.
unfoldable pub forget_all : ℕ → List ℕ → InodeMap → InodeMap
forget_all inode [] m = m
forget_all inode (n ∷ ns) m = forget_all inode ns (decrease_ref inode n m)

-- A portion that is smaller than the count of lookups changes nothing at all.
decrease_ref-fewer :
    (inode n : ℕ) (m : InodeMap) {node : Node}
    → m inode ≡ some node
    → n < node.ref_count
    → decrease_ref inode n m ≡ m
unfolding decrease_ref
decrease_ref-fewer inode n m e h = ground arith

-- A portion that covers the count drops the inode, and no other.
pub decrease_ref-enough :
    (inode n : ℕ) (m : InodeMap) {node : Node}
    → m inode ≡ some node
    → node.ref_count ≤ n
    → decrease_ref inode n m ≡ Map.remove inode m
unfolding decrease_ref
decrease_ref-enough inode n m e h = ground arith

-- Portions that are each smaller than the count of lookups leave the map as it was, also where
-- they add up to the count or more.
pub forget_all-portions :
    (inode : ℕ) (ns : List ℕ) (m : InodeMap) {node : Node}
    → m inode ≡ some node
    → All (λ n. n < node.ref_count) ns
    → forget_all inode ns m ≡ m
unfolding forget_all
forget_all-portions inode [] m e h = refl
forget_all-portions inode (n ∷ ns) m e h =
    ap (forget_all inode ns) (decrease_ref-fewer inode n m e h.0)
    ∙ forget_all-portions inode ns m e h.1

unfoldable pub look_up_times : ℕ → ℕ → InodeMap → InodeMap
look_up_times inode zero m = m
look_up_times inode (suc k) m = look_up_times inode k (increase_ref inode m)

increase_ref-known :
    (inode : ℕ) (m : InodeMap) (node : Node)
    → m inode ≡ some node
    → node.ref_count + 1 < two64
    → increase_ref inode m inode ≡ some (record node { ref_count = node.ref_count + 1 })
unfolding increase_ref
increase_ref-known inode m node e h = ground arith

abbrev counted : Node → ℕ → Node
counted node r = record node { ref_count = r }

-- Each lookup of a known inode counts, as long as the count fits its 64 bits.
look_up_times-count :
    (inode k : ℕ) (m : InodeMap) (node : Node)
    → m inode ≡ some node
    → node.ref_count + k < two64
    → look_up_times inode k m inode ≡ some (counted node (node.ref_count + k))
unfolding look_up_times
look_up_times-count inode zero m node e h = e ∙ ap (λ r. some (counted node r)) (omega arith)
look_up_times-count inode (suc k) m node e h =
    look_up_times-count inode k (increase_ref inode m) (counted node (node.ref_count + 1))
      (increase_ref-known inode m node e (omega arith)) (omega arith)
    ∙ ap (λ r. some (counted node r)) (omega arith)

-- After more lookups of an inode that is known, forgetting all lookups in one portion drops it,
-- and forgetting fewer changes nothing, as long as the count fits its 64 bits.
pub look_up_times-decrease_ref :
    (inode k n : ℕ) (m : InodeMap) (node : Node)
    → m inode ≡ some node
    → node.ref_count + k < two64
    → let m' = look_up_times inode k m in
      decrease_ref inode n m' ≡ (if leb (node.ref_count + k) n then Map.remove inode m' else m')
unfolding decrease_ref
look_up_times-decrease_ref inode k n m node e h =
    ground (arith, look_up_times-count inode k m node e h)
