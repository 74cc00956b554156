-- ===== src/Hookfs/Rooted/Paths.antt =====
-- Paths below the root of the original tree.
use mathlib.Core.List.{append-nil, append_assoc}
use toda.Base.{◌≡◌, ap, sym, ◌∙◌, refl, false, [], ◌∷◌, ◌++◌, arith}
use toda.FilePath.{FilePath, Name, root_dir, cur_dir, parent_dir, normal, parse, is_absolute, join}

-- The path begins with the root.
abbrev pub Under : FilePath → FilePath → Type 0
Under root path = (q : FilePath) × (path ≡ root ++ q)

-- A name that does not lead out by being absolute.
abbrev pub IsRelative : Name → Type 0
IsRelative name = is_absolute (parse name) ≡ false

-- A relative path is joined by putting some components behind.
join-relative : (p t : FilePath) → is_absolute t ≡ false → (q : FilePath) × (join p t ≡ p ++ q)
unfolding join is_absolute
join-relative [] t h = (t, refl)
join-relative (c ∷ p) [] h = ([], refl)
join-relative (c ∷ p) (root_dir ∷ t) h = ground arith
join-relative (c ∷ p) (cur_dir ∷ t) h = (t, refl)
join-relative (c ∷ p) (parent_dir ∷ t) h = (parent_dir ∷ t, refl)
join-relative (c ∷ p) (normal w ∷ t) h = (normal w ∷ t, refl)

pub Under-join :
    (root p t : FilePath) → is_absolute t ≡ false → Under root p → Under root (join p t)
Under-join root p t h (q, e) =
    let (t', e') = join-relative p t h in
    (q ++ t', e' ∙ ap (λ l. l ++ t') e ∙ append_assoc root q t')

pub Under-root : (root : FilePath) → Under root root
Under-root root = ([], sym (append-nil root))
