-- ===== src/Mount/Encode.antt =====
-- src/utils.rs: the name under which the original directory is hidden while the file system stands
-- in its place.
use mathlib.Core.List.{append_cancel_right}
use toda.Base.{
  drop, ◌≡◌, refl, ap, ◌∙◌, sym, true, Option, none, some, [], ◌∷◌, ◌++◌, if◌then◌else◌, arith,
}
use toda.FilePath.{
  FilePath, Name, Component, normal, parent, file_name, utf8, join, parse, last, but_last,
}
use toda.FilePath.Laws.{last-append, but_last-append, join-eq-append}
use toda.FilePath.Names.{no_slash, no_slash-append, parse-underscore}

pub data Encoded : Type 0 where
  -- the original path and the new one
  encoded : FilePath → FilePath → Encoded
  -- `path is the root`, `the path terminates in .. or /`, `path with non-UTF-8 character`
  is_root no_file_name not_utf8 : Encoded

abbrev chaosfs : Name
chaosfs = b'_' ∷ b'c' ∷ b'h' ∷ b'a' ∷ b'o' ∷ b's' ∷ b'f' ∷ b's' ∷ b'_' ∷ b'_' ∷ []

abbrev trailer : Name
trailer = b'_' ∷ b'_' ∷ []

-- `format!("__chaosfs__{}__", original_filename)`
abbrev pub hidden_name : Name → Name
hidden_name w = b'_' ∷ chaosfs ++ w ++ trailer

unfoldable pub encode_path : FilePath → Encoded
encode_path path = elim (parent path) [
  | none ↦ is_root
  | some base ↦ (elim (file_name path) [
    | none ↦ no_file_name
    | some w ↦ if utf8 w then encoded path (join base (parse (hidden_name w))) else not_utf8
  ])
]

hidden_name-one :
    (base : FilePath) (w : Name)
    → no_slash w ≡ true
    → join base (parse (hidden_name w)) ≡ base ++ normal (hidden_name w) ∷ []
unfolding no_slash
hidden_name-one base w h =
    ap (join base) (
      parse-underscore (chaosfs ++ w ++ trailer)
        (no_slash-append chaosfs (w ++ trailer) refl (no_slash-append w trailer h refl)))
    ∙ join-eq-append base (normal (hidden_name w) ∷ []) tt

parent-append : (base : FilePath) (w : Name) → parent (base ++ normal w ∷ []) ≡ some base
unfolding parent
parent-append base w =
    let l = last-append base (normal w) in let b = but_last-append base (normal w) in ground arith

file_name-append : (base : FilePath) (w : Name) → file_name (base ++ normal w ∷ []) ≡ some w
unfolding file_name
file_name-append base w = let l = last-append base (normal w) in ground arith

-- A path with a file name that is UTF-8 and has no slash is hidden beside itself: in the same directory, under its
-- name between `__chaosfs__` and `__`.
pub encode_path-append :
    (base : FilePath) (w : Name)
    → no_slash w ≡ true
    → utf8 w ≡ true
    → encode_path (base ++ normal w ∷ [])
      ≡ encoded (base ++ normal w ∷ []) (base ++ normal (hidden_name w) ∷ [])
unfolding encode_path
encode_path-append base w h u =
    let one = hidden_name-one base w h in
    ground (arith, parent-append base w, file_name-append base w)

abbrev new_of : Encoded → FilePath
new_of (encoded path new) = new
new_of _ = []

abbrev name_of : Option Component → Name
name_of (some (normal w)) = w
name_of _ = []

hidden_name-injective : (w w' : Name) → hidden_name w ≡ hidden_name w' → w ≡ w'
hidden_name-injective w w' e = append_cancel_right w w' trailer (ap (drop 11) e)

-- Two paths with slash-free UTF-8 file names that are hidden under the same new path are the same.
pub encode_path-injective :
    (base base' : FilePath) (w w' : Name) (new : FilePath)
    → no_slash w ≡ true
    → utf8 w ≡ true
    → no_slash w' ≡ true
    → utf8 w' ≡ true
    → encode_path (base ++ normal w ∷ []) ≡ encoded (base ++ normal w ∷ []) new
    → encode_path (base' ++ normal w' ∷ []) ≡ encoded (base' ++ normal w' ∷ []) new
    → base ++ normal w ∷ [] ≡ base' ++ normal w' ∷ []
encode_path-injective base base' w w' new h u h' u' e e' =
    let a : base ++ normal (hidden_name w) ∷ [] ≡ new =
      ap new_of (sym (encode_path-append base w h u) ∙ e) in
    let b : base' ++ normal (hidden_name w') ∷ [] ≡ new =
      ap new_of (sym (encode_path-append base' w' h' u') ∙ e') in
    let same = a ∙ sym b in
    let bases : base ≡ base' =
      sym (but_last-append base _) ∙ ap but_last same ∙ but_last-append base' _ in
    let names : w ≡ w' =
      hidden_name-injective w w'
        (ap name_of (sym (last-append base _) ∙ ap last same ∙ last-append base' _)) in
    ap (λ t. t ++ normal w ∷ []) bases ∙ ap (λ v. base' ++ normal v ∷ []) names
