-- ===== src/Hookfs/Os/Slabs.antt =====
-- What holds of every value in a slab stays true as values are put in and taken out.
use toda.Base.{ℕ, ◌≡◌, ◌==◌, subst, Option, some, arith, Bool-cases, Option-cases, inl, inr, nat_eq}
use toda.Hookfs.Os.{Slab, SlabLaws}

same_value : {A : Type 0} {o : Option A} {x t : A} → o ≡ some x → o ≡ some t → x ≡ t
same_value e e' = ground arith

module _ {T : Type 0} {s : Slab T} (laws : SlabLaws s) (Q : T → Type 0) where
  abbrev pub Holds : s.S → Type 0
  Holds m = (k : ℕ) (t : T) → s.get k m ≡ some t → Q t

  pub insert-Holds : (x : T) (m : s.S) → Q x → Holds m → Holds (s.insert x m).1
  insert-Holds x m q h k t e = elim (Bool-cases (k == (s.insert x m).0)) [
    | inl same ↦
        (let at : k ≡ (s.insert x m).0 = ground arith in
          subst Q
            (same_value (laws.get_inserted x m)
              (subst (λ j. s.get j (s.insert x m).1 ≡ some t) at e))
            q)
    | inr other ↦ h k t (ground (arith, laws.get_others x m k))
  ]

  pub remove-Holds : (k : ℕ) (m m' : s.S) → s.remove k m ≡ some m' → Holds m → Holds m'
  remove-Holds k m m' r h j t e = elim (Bool-cases (j == k)) [
    | inl same ↦ (elim (Option-cases (s.get k m)) [
      | inl missing ↦ ground (arith, laws.remove_missing k m)
      | inr (x, present) ↦
          (let (m'', r', gone) = laws.remove_present k m x present in
            let at : j ≡ k = ground arith in ground (arith, same_value r r'))
    ])
    | inr other ↦ h j t (ground (arith, laws.remove_others k j m m'))
  ]
