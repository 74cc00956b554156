-- ===== src/FilePath/Tests.antt =====
-- Runs of the path functions.
use toda.Base.{◌≡◌, refl, true, false, some, [], ◌∷◌}
use toda.FilePath.{
  FilePath, root_dir, normal, parent_dir, cur_dir, parse, join, strip_prefix, as_bytes, utf8,
}

abbrev var_log : FilePath
var_log = root_dir ∷ normal (b'v' ∷ []) ∷ normal (b'l' ∷ []) ∷ []

parse_absolute : parse (b'/' ∷ b'v' ∷ b'/' ∷ b'/' ∷ b'.' ∷ b'/' ∷ b'l' ∷ b'/' ∷ []) ≡ var_log
unfolding parse
parse_absolute = refl

parse_dots : parse (b'.' ∷ b'/' ∷ b'.' ∷ b'.' ∷ []) ≡ cur_dir ∷ parent_dir ∷ []
unfolding parse
parse_dots = refl

as_bytes-var_log : as_bytes var_log ≡ b'/' ∷ b'v' ∷ b'/' ∷ b'l' ∷ []
unfolding as_bytes
as_bytes-var_log = refl

join_name : join (root_dir ∷ normal (b'v' ∷ []) ∷ []) (parse (b'l' ∷ [])) ≡ var_log
unfolding join parse
join_name = refl

strip_v : strip_prefix var_log (root_dir ∷ normal (b'v' ∷ []) ∷ []) ≡ some (normal (b'l' ∷ []) ∷ [])
unfolding strip_prefix
strip_v = refl

utf8_bad : utf8 (0xc3 ∷ 0x28 ∷ []) ≡ false
unfolding utf8
utf8_bad = refl

utf8_good : utf8 (0xc3 ∷ 0xa9 ∷ b'a' ∷ []) ≡ true
unfolding utf8
utf8_good = refl
