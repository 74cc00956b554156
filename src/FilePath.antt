-- ===== src/FilePath.antt =====
-- std::path as the program uses it: a path is the list of its components, which is how the
-- standard library compares, strips and joins paths. Names are byte strings.
mod Text
pub mod Laws
pub mod Names
mod Tests
use Text.{split, utf8_from}
use toda.Base.{
  ℕ, ◌≡◌, ◌↔◌, Bool, true, false, Option, none, some, List, [], ◌∷◌, ◌++◌, arith, ◌==◌, Eq,
  list_beq, list_beq_iff, nat_eq, if◌then◌else◌,
}

abbrev pub Name : Type 0
Name = List ℕ

pub data Component : Type 0 where
  root_dir cur_dir parent_dir : Component
  normal : Name → Component

abbrev pub FilePath : Type 0
FilePath = List Component

abbrev pub component_beq : Component → Component → Bool
component_beq root_dir root_dir = true
component_beq cur_dir cur_dir = true
component_beq parent_dir parent_dir = true
component_beq (normal a) (normal b) = list_beq a b
component_beq _ _ = false

pub component_beq_iff : (a b : Component) → (component_beq a b ≡ true) ↔ (a ≡ b)
component_beq_iff root_dir b = ground arith
component_beq_iff cur_dir b = ground arith
component_beq_iff parent_dir b = ground arith
component_beq_iff (normal a) root_dir = ground arith
component_beq_iff (normal a) cur_dir = ground arith
component_beq_iff (normal a) parent_dir = ground arith
component_beq_iff (normal a) (normal b) =
    (λ h. ground (arith, list_beq_iff a b), λ h. ground (arith, list_beq_iff a b))

instance abbrev pub component_eq : Eq Component
component_eq = record { beq = component_beq; beq_iff = component_beq_iff }

abbrev pub path_beq : FilePath → FilePath → Bool
path_beq = list_beq

abbrev dot : Name
dot = b'.' ∷ []

abbrev dot_dot : Name
dot_dot = b'.' ∷ b'.' ∷ []

-- The pieces after the first: empty ones and `.` are dropped.
abbrev add_piece : Name → FilePath → FilePath
add_piece w p =
    if list_beq w []
    then p
    else (if list_beq w dot
        then p
        else (if list_beq w dot_dot then parent_dir ∷ p else normal w ∷ p))

components : List Name → FilePath
components [] = []
components (w ∷ ws) = add_piece w (components ws)

-- The first piece is empty exactly when the text begins with `/`, and only there `.` counts.
first_piece : List ℕ → Name → FilePath → FilePath
first_piece [] w p = p
first_piece (c ∷ s) w p =
    if list_beq w [] then root_dir ∷ p else (if list_beq w dot then cur_dir ∷ p else add_piece w p)

from_pieces : List ℕ → List Name → FilePath
unfolding first_piece components
from_pieces s [] = []
from_pieces s (w ∷ ws) = first_piece s w (components ws)

-- The components of a path that is given as bytes.
unfoldable pub parse : List ℕ → FilePath
unfolding from_pieces split
parse s = from_pieces s (split s)

unfoldable pub is_absolute : FilePath → Bool
is_absolute (root_dir ∷ p) = true
is_absolute _ = false

-- `./b` put behind another path loses its dot.
abbrev pub strip_dot : FilePath → FilePath
strip_dot (cur_dir ∷ q) = q
strip_dot q = q

-- `Path::join`, `PathBuf::push`: an absolute path replaces.
unfoldable pub join : FilePath → FilePath → FilePath
unfolding is_absolute
join [] q = q
join (c ∷ p) q = if is_absolute q then q else (c ∷ p) ++ strip_dot q

-- `path.strip_prefix(base)`
unfoldable pub strip_prefix : FilePath → FilePath → Option FilePath
strip_prefix p [] = some p
strip_prefix [] (b ∷ base) = none
strip_prefix (c ∷ p) (b ∷ base) = if component_beq c b then strip_prefix p base else none

-- `path.starts_with(base)`
unfoldable pub starts_with : FilePath → FilePath → Bool
unfolding strip_prefix
starts_with p base = elim (strip_prefix p base) [ none ↦ false | some _ ↦ true ]

unfoldable pub last : FilePath → Option Component
last [] = none
last (c ∷ []) = some c
last (c ∷ d ∷ p) = last (d ∷ p)

unfoldable pub but_last : FilePath → FilePath
but_last [] = []
but_last (c ∷ []) = []
but_last (c ∷ d ∷ p) = c ∷ but_last (d ∷ p)

-- `Path::parent`; `PathBuf::pop` truncates to it, or answers false.
unfoldable pub parent : FilePath → Option FilePath
unfolding last but_last
parent p = elim (last p) [
  | none ↦ none
  | some c ↦ elim c [ root_dir ↦ none | _ ↦ some (but_last p) ]
]

unfoldable pub file_name : FilePath → Option Name
unfolding last
file_name p = elim (last p) [ none ↦ none | some c ↦ elim c [ normal w ↦ some w | _ ↦ none ] ]

-- `to_str` succeeds on UTF-8 text.
unfoldable pub utf8 : List ℕ → Bool
unfolding utf8_from
utf8 s = utf8_from 0 0 0 s

component_bytes : Component → List ℕ
component_bytes root_dir = []
component_bytes cur_dir = b'.' ∷ []
component_bytes parent_dir = b'.' ∷ b'.' ∷ []
component_bytes (normal w) = w

relative_bytes : FilePath → List ℕ
unfolding component_bytes
relative_bytes [] = []
relative_bytes (c ∷ []) = component_bytes c
relative_bytes (c ∷ d ∷ p) = component_bytes c ++ (b'/' ∷ relative_bytes (d ∷ p))

-- `as_os_str().as_bytes()`: the components with `/` between them.
unfoldable pub as_bytes : FilePath → List ℕ
unfolding relative_bytes
as_bytes (root_dir ∷ []) = b'/' ∷ []
as_bytes p = relative_bytes p
