-- ===== src/FilePath/Names.antt =====
-- Names without a slash are single components.
use toda.Base.{ℕ, ◌≡◌, refl, Bool, true, not, List, [], ◌∷◌, ◌++◌, ◌&&◌, ◌==◌, arith, nat_eq}
use toda.FilePath.{Name, normal, parse, from_pieces, first_piece, components}
use toda.FilePath.Text.{split}

unfoldable pub no_slash : Name → Bool
no_slash [] = true
no_slash (c ∷ s) = not (c == b'/') && no_slash s

split_whole : (s : List ℕ) → no_slash s ≡ true → split s ≡ s ∷ []
unfolding split no_slash
split_whole [] h = refl
split_whole (c ∷ s) h = ground (arith, split_whole s)

pub no_slash-append :
    (s t : Name) → no_slash s ≡ true → no_slash t ≡ true → no_slash (s ++ t) ≡ true
unfolding no_slash
no_slash-append [] t h k = k
no_slash-append (c ∷ s) t h k = ground (arith, no_slash-append s t)

-- A name that begins with an underscore is no dot.
pub parse-underscore : (s : Name) → no_slash s ≡ true → parse (b'_' ∷ s) ≡ normal (b'_' ∷ s) ∷ []
unfolding parse from_pieces first_piece components no_slash
parse-underscore s h = rw (split_whole (b'_' ∷ s) (ground arith)) refl
