-- ===== src/Replacer/Select/Below.antt =====
-- Which descriptors are selected, and where they lead.
use toda.Base.{ℕ, ◌≡◌, refl, true, false, none, some, List, [], ◌∷◌, ◌++◌, map, All}
use toda.FilePath.{FilePath, starts_with}
use toda.FilePath.Laws.{IsTail, join-eq-append, strip_prefix-append}
use toda.Replacer.Select.{Target, path, other_target, move_path, select_fds}

-- Where an open file is: below the directory, at a path elsewhere, or at no path.
pub data Place : Type 0 where
  below : FilePath → Place
  elsewhere : FilePath → Place
  nowhere : Place

abbrev pub target_of : FilePath → Place → Target
target_of detect_path (below q) = path (detect_path ++ q)
target_of detect_path (elsewhere p) = path p
target_of detect_path nowhere = other_target

abbrev pub Fits : FilePath → Place → Type 0
Fits detect_path (below q) = IsTail q
Fits detect_path (elsewhere p) = starts_with p detect_path ≡ false
Fits detect_path nowhere = Unit

abbrev pub moved : FilePath → List (ℕ × Place) → List (ℕ × FilePath)
moved new_path [] = []
moved new_path ((fd, below q) ∷ ps) = (fd, new_path ++ q) ∷ moved new_path ps
moved new_path ((fd, elsewhere p) ∷ ps) = moved new_path ps
moved new_path ((fd, nowhere) ∷ ps) = moved new_path ps

starts_with-append : (p q : FilePath) → starts_with (p ++ q) p ≡ true
unfolding starts_with
starts_with-append p q = rw (starts_with, strip_prefix-append p q) refl

move_path-append :
    (detect_path new_path q : FilePath)
    → IsTail q
    → move_path detect_path new_path (detect_path ++ q) ≡ some (new_path ++ q)
unfolding move_path
move_path-append detect_path new_path q h =
    rw
      (
        starts_with-append detect_path q,
        strip_prefix-append detect_path q,
        join-eq-append new_path q h,
      )
      refl

move_path-elsewhere :
    (detect_path new_path p : FilePath)
    → starts_with p detect_path ≡ false
    → move_path detect_path new_path p ≡ none
unfolding move_path
move_path-elsewhere detect_path new_path p h = rw h refl

-- The fd replacer takes just the descriptors of files below the directory, in order, and replaces the
-- directory by the new path in their paths.
pub select_fds-moved :
    (detect_path new_path : FilePath) (ps : List (ℕ × Place))
    → All (λ p. Fits detect_path p.1) ps
    → select_fds detect_path new_path (map (λ p. (p.0, target_of detect_path p.1)) ps)
      ≡ moved new_path ps
unfolding select_fds
select_fds-moved detect_path new_path [] h = refl
select_fds-moved detect_path new_path ((fd, below q) ∷ ps) (h, hs) =
    rw (move_path-append detect_path new_path q h, select_fds-moved detect_path new_path ps hs) refl
select_fds-moved detect_path new_path ((fd, elsewhere p) ∷ ps) (h, hs) =
    rw (move_path-elsewhere detect_path new_path p h, select_fds-moved detect_path new_path ps hs)
      refl
select_fds-moved detect_path new_path ((fd, nowhere) ∷ ps) (h, hs) =
    select_fds-moved detect_path new_path ps hs
