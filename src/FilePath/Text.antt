-- ===== src/FilePath/Text.antt =====
-- Bytes of a path: the pieces between slashes, and the UTF-8 check of `str::from_utf8`.
use toda.Base.{
  ℕ, zero, suc, Bool, true, false, Option, none, some, List, [], ◌∷◌, ◌&&◌, leb, ◌==◌,
  if◌then◌else◌,
}

abbrev put_byte : ℕ → List (List ℕ) → List (List ℕ)
put_byte c [] = (c ∷ []) ∷ []
put_byte c (w ∷ ws) = if c == b'/' then [] ∷ w ∷ ws else (c ∷ w) ∷ ws

unfoldable pub split : List ℕ → List (List ℕ)
split [] = [] ∷ []
split (c ∷ s) = put_byte c (split s)

abbrev within : ℕ → ℕ → ℕ → Bool
within lo hi a = leb lo a && leb a hi

-- The continuation bytes that a first byte asks for, and the range of the first of them.
lead : ℕ → Option (ℕ × ℕ × ℕ)
lead a =
    if within 0x00 0x7f a
    then some (0, 0, 0)
    else (if within 0xc2 0xdf a
        then some (1, 0x80, 0xbf)
        else (if a == 0xe0
            then some (2, 0xa0, 0xbf)
            else (if a == 0xed
                then some (2, 0x80, 0x9f)
                else (if within 0xe1 0xef a
                    then some (2, 0x80, 0xbf)
                    else (if a == 0xf0
                        then some (3, 0x90, 0xbf)
                        else (if within 0xf1 0xf3 a
                            then some (3, 0x80, 0xbf)
                            else (if a == 0xf4 then some (3, 0x80, 0x8f) else none)))))))

unfoldable pub utf8_from : ℕ → ℕ → ℕ → List ℕ → Bool
unfolding lead
utf8_from zero lo hi [] = true
utf8_from (suc n) lo hi [] = false
utf8_from zero lo hi (a ∷ s) = elim (lead a) [ none ↦ false | some (n, l, h) ↦ utf8_from n l h s ]
utf8_from (suc n) lo hi (a ∷ s) = elim (within lo hi a) [
  | true ↦ utf8_from n 0x80 0xbf s
  | false ↦ false
]
