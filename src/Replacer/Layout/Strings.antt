-- ===== src/Replacer/Layout/Strings.antt =====
-- What the assembled code reads back: the cases with their paths.
use toda.Base.{
  ℕ, zero, suc, ◌+◌, ◌≡◌, refl, sym, ap, ◌∙◌, false, Option, none, some, List, [], ◌∷◌, ◌++◌,
  length, take, drop, map, All, if◌then◌else◌, ◌==◌, nat_eq, arith, length-append,
}
use toda.Replacer.Layout.{Cursor, write_all, Builder, push_bytes, or_kept}

module _ {A : Type 0} where
  append_nil : (xs : List A) → xs ++ [] ≡ xs
  append_nil [] = refl
  append_nil (x ∷ xs) = ap (λ ys. x ∷ ys) (append_nil xs)

  append_assoc : (xs ys zs : List A) → (xs ++ ys) ++ zs ≡ xs ++ (ys ++ zs)
  append_assoc [] ys zs = refl
  append_assoc (x ∷ xs) ys zs = ap (λ us. x ∷ us) (append_assoc xs ys zs)

  take_all : (xs : List A) → take (length xs) xs ≡ xs
  take_all [] = refl
  take_all (x ∷ xs) = ap (λ ys. x ∷ ys) (take_all xs)

  drop_nil : (n : ℕ) → drop {A = A} n [] ≡ []
  drop_nil zero = refl
  drop_nil (suc n) = refl

  drop_past : (n : ℕ) (xs : List A) → drop (length xs + n) xs ≡ []
  drop_past n [] = drop_nil (0 + n)
  drop_past n (x ∷ xs) =
      let e : suc (length xs) + n ≡ suc (length xs + n) = omega arith in
      ap (λ k. drop k (x ∷ xs)) e ∙ drop_past n xs

-- The bytes up to the first zero.
unfoldable pub c_string : List ℕ → List ℕ
c_string [] = []
c_string (b ∷ bs) = if b == 0 then [] else b ∷ c_string bs

abbrev pub string_at : List ℕ → ℕ → List ℕ
string_at bytes offset = c_string (drop offset bytes)

-- Every byte but the last of a placed string.
abbrev pub NoZero : List ℕ → Type 0
NoZero s = All (λ b. (b == 0) ≡ false) s

c_string-placed : (s rest : List ℕ) → NoZero s → c_string ((s ++ 0 ∷ []) ++ rest) ≡ s
unfolding c_string
c_string-placed [] rest h = refl
c_string-placed (b ∷ s) rest (h, hs) = rw (h, c_string-placed s rest hs) refl

drop-append : (xs ys : List ℕ) → drop (length xs) (xs ++ ys) ≡ ys
drop-append [] ys = refl
drop-append (x ∷ xs) ys = drop-append xs ys

-- A cursor behind all that it holds.
abbrev cursor_at : List ℕ → Cursor
cursor_at bytes = record { inner = bytes; position = length bytes }

write_all-append : (bytes s : List ℕ) → write_all s (cursor_at bytes) ≡ cursor_at (bytes ++ s)
unfolding write_all
write_all-append bytes s =
    let e : length bytes + length s ≡ length (bytes ++ s) = omega (arith, length-append bytes s) in
    rw (take_all bytes, drop_past (length s) bytes, append_nil (bytes ++ s), e) refl

-- The items with a path, each with it: what a builder is to hold.
abbrev pub wanted : {D : Type 0} → List (D × Option (List ℕ)) → List (D × List ℕ)
wanted [] = []
wanted ((d, none) ∷ items) = wanted items
wanted ((d, some s) ∷ items) = (d, s) ∷ wanted items

abbrev pub ZeroFree : Option (List ℕ) → Type 0
ZeroFree none = Unit
ZeroFree (some s) = NoZero s

-- Cases of a type `C` that hold what `get` shows of them, and the offset `off` of a path.
module _ {C D : Type 0} (mk : D → ℕ → C) (get : C → D) (off : C → ℕ) where
  unfoldable pub fill : List (D × Option (List ℕ)) → Builder C → Builder C
  fill [] b = b
  fill ((d, o) ∷ items) b = fill items (or_kept b (push_bytes (mk d) o b))

  -- The cases with the paths that their offsets lead to.
  abbrev pub view : List ℕ → List C → List (D × List ℕ)
  view bytes cases = map (λ c. (get c, string_at bytes (off c))) cases

  abbrev pub viewed : Builder C → List (D × List ℕ)
  viewed b = view b.new_paths.inner b.cases

  abbrev at_builder : List ℕ → List C → Builder C
  at_builder bytes cases = record { cases = cases; new_paths = cursor_at bytes }

  view-append :
      (bytes : List ℕ) (xs ys : List C) → view bytes (xs ++ ys) ≡ view bytes xs ++ view bytes ys
  view-append bytes [] ys = refl
  view-append bytes (c ∷ xs) ys =
      ap (λ zs. (get c, string_at bytes (off c)) ∷ zs) (view-append bytes xs ys)

  module _ (get_mk : (d : D) (o : ℕ) → get (mk d o) ≡ d)
      (off_mk : (d : D) (o : ℕ) → off (mk d o) ≡ o) where
    view_placed :
        (bytes s : List ℕ) (d : D) (rest : List ℕ)
        → NoZero s
        → ◌≡◌ {A = D × List ℕ}
            (
              get (mk d (length bytes)),
              string_at ((bytes ++ (s ++ 0 ∷ [])) ++ rest) (off (mk d (length bytes))),
            )
            (d, s)
    view_placed bytes s d rest h =
        rw
          (
            get_mk d (length bytes),
            off_mk d (length bytes),
            append_assoc bytes (s ++ 0 ∷ []) rest,
            drop-append bytes ((s ++ 0 ∷ []) ++ rest),
            c_string-placed s rest h,
          )
          refl

    push_view :
        (bytes s : List ℕ) (d : D) (cases : List C) (pairs : List (D × List ℕ))
        → NoZero s
        → ((rest : List ℕ) → view (bytes ++ rest) cases ≡ pairs)
        → (rest : List ℕ)
        → view ((bytes ++ (s ++ 0 ∷ [])) ++ rest) (cases ++ mk d (length bytes) ∷ [])
          ≡ pairs ++ (d, s) ∷ []
    push_view bytes s d cases pairs h v rest =
        let c = mk d (length bytes) in
        let placed = (bytes ++ (s ++ 0 ∷ [])) ++ rest in
        let before : view placed cases ≡ pairs =
          ap (λ u. view u cases) (append_assoc bytes (s ++ 0 ∷ []) rest)
          ∙ v ((s ++ 0 ∷ []) ++ rest) in
        view-append placed cases (c ∷ [])
        ∙ ap (λ ps. ps ++ (get c, string_at placed (off c)) ∷ []) before
        ∙ ap (λ (q : D × List ℕ). pairs ++ q ∷ []) (view_placed bytes s d rest h)

    pub fill-wanted :
        (items : List (D × Option (List ℕ))) (bytes : List ℕ) (cases : List C)
        (pairs : List (D × List ℕ))
        → All (λ i. ZeroFree i.1) items
        → ((rest : List ℕ) → view (bytes ++ rest) cases ≡ pairs)
        → viewed (fill items (at_builder bytes cases)) ≡ pairs ++ wanted items
    unfolding fill
    fill-wanted [] bytes cases pairs h v =
        ap (λ u. view u cases) (sym (append_nil bytes)) ∙ v [] ∙ sym (append_nil pairs)
    fill-wanted ((d, none) ∷ items) bytes cases pairs (h, hs) v =
        fill-wanted items bytes cases pairs hs v
    fill-wanted ((d, some s) ∷ items) bytes cases pairs (h, hs) v =
        let bytes' = bytes ++ (s ++ 0 ∷ []) in
        let cases' = cases ++ mk d (length bytes) ∷ [] in
        ap (λ cur. viewed (fill items (record { cases = cases'; new_paths = cur })))
          (write_all-append bytes (s ++ 0 ∷ []))
        ∙ fill-wanted items bytes' cases' (pairs ++ (d, s) ∷ []) hs
            (push_view bytes s d cases pairs h v)
        ∙ append_assoc pairs ((d, s) ∷ []) (wanted items)
