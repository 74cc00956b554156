-- ===== src/Hookfs/Dirs/Pages.antt =====
-- The pages of `readdir` (src/hookfs/mod.rs): what one call puts into the buffer of the kernel.
use mathlib.Core.List.{append-nil, append_assoc}
use toda.Base.{
  subst, ℕ, zero, suc, ◌+◌, ◌≡◌, ◌⊎◌, inl, inr, refl, sym, ap, ◌∙◌, Bool, true, false, List, [],
  ◌∷◌, ◌++◌, some, length, take, drop, leb, arith, Bool-cases,
}
use toda.Action.{Result, ok, ⊤}
use toda.FilePath.{Name}
use toda.Hookfs.Errors.{NixError}
use toda.Hookfs.Os.{DirBuffer, DirEntry, Outcome, done}
use toda.Hookfs.Reply.{FileType}
use toda.Hookfs.Utils.{DirType, convert_filetype}
use toda.Hookfs.Dirs.{add_next, add_entries, fill_page}

-- Entries that could be read and have a type.
abbrev pub Known : Type 0
Known = List (ℕ × (DirType × Name))

abbrev pub outcomes : Known → List (Outcome NixError DirEntry)
outcomes [] = []
outcomes ((ino, (t, name)) ∷ es) =
    done (record { ino = ino; file_type = some t; file_name = name }) ∷ outcomes es

-- An entry in a buffer: its inode, the offset after it, its kind and its name.
abbrev pub Shown : Type 0
Shown = ℕ × (ℕ × (FileType × Name))

abbrev pub shown : ℕ → Known → List Shown
shown k [] = []
shown k ((ino, (t, name)) ∷ es) = (ino, (k + 1, (convert_filetype t, name))) ∷ shown (k + 1) es

drop-outcomes : (n : ℕ) (es : Known) → drop n (outcomes es) ≡ outcomes (drop n es)
drop-outcomes zero es = refl
drop-outcomes (suc n) [] = refl
drop-outcomes (suc n) (e ∷ es) = drop-outcomes n es

drop-shown : (n k : ℕ) (es : Known) → drop n (shown k es) ≡ shown (k + n) (drop n es)
drop-shown zero k es = let e : k + 0 ≡ k = omega arith in rw e refl
drop-shown (suc n) k [] = refl
drop-shown (suc n) k (e ∷ es) =
    let eq : (k + 1) + n ≡ k + suc n = omega arith in
    drop-shown n (k + 1) es ∙ ap (λ j. shown j (drop n es)) eq

drop-past : (n k : ℕ) (es : Known) → leb (length (outcomes es)) n ≡ true → drop n (shown k es) ≡ []
drop-past zero k [] h = refl
drop-past zero k (e ∷ es) h = ground arith
drop-past (suc n) k [] h = refl
drop-past (suc n) k (e ∷ es) h = drop-past n (k + 1) es (ground arith)

-- What fuser documents of its buffer: an entry is put behind those before it, unless it does not fit.
pub record BufferLaws (b : DirBuffer) (listed : b.Buffer → List Shown) : Type 0 where
  pub added :
      (ino offset : ℕ) (kind : FileType) (name : Name) (buffer : b.Buffer)
      → (b.add ino offset kind name buffer).0 ≡ false
      → listed (b.add ino offset kind name buffer).1
        ≡ listed buffer ++ (ino, (offset, (kind, name))) ∷ []
  pub unfit :
      (ino offset : ℕ) (kind : FileType) (name : Name) (buffer : b.Buffer)
      → (b.add ino offset kind name buffer).0 ≡ true
      → listed (b.add ino offset kind name buffer).1 ≡ listed buffer

module _ (b : DirBuffer) (listed : b.Buffer → List Shown) (laws : BufferLaws b listed) where
  -- The first `n` of some entries were put behind those in the buffer; if not all of them, the buffer
  -- with just these in it refused the next, and that refusal left the buffer that is returned.
  pub record Page (before : List Shown) (rest : List Shown) (r : Result ⊤ × b.Buffer) : Type 0 where
    pub n : ℕ
    pub well : r.0 ≡ ok tt
    pub prefix_shown : listed r.1 ≡ before ++ take n rest
    pub complete :
        (take n rest ≡ rest)
        ⊎ ((e : Shown) × (later : List Shown) × (last : b.Buffer) × (drop n rest ≡ e ∷ later)
            × (listed last ≡ before ++ take n rest)
            × (b.add e.0 e.1.0 e.1.1.0 e.1.1.1 last ≡ (true, r.1)))

  stopped :
      (r : Bool × b.Buffer) (next : b.Buffer → Result ⊤ × b.Buffer)
      → r.0 ≡ true
      → add_next b r next ≡ (ok tt, r.1)
  stopped (true, buffer) next h = refl
  stopped (false, buffer) next h = ground arith

  went_on :
      (r : Bool × b.Buffer) (next : b.Buffer → Result ⊤ × b.Buffer)
      → r.0 ≡ false
      → add_next b r next ≡ next r.1
  went_on (true, buffer) next h = ground arith
  went_on (false, buffer) next h = refl

  module _ (k ino : ℕ) (t : DirType) (name : Name) (es : Known) (buffer : b.Buffer)
      (next : b.Buffer → Result ⊤ × b.Buffer) where
    abbrev answer : Bool × b.Buffer
    answer = b.add ino (k + 1) (convert_filetype t) name buffer

    Page-full :
        answer.0 ≡ true
        → Page (listed buffer) (shown k ((ino, (t, name)) ∷ es)) (add_next b answer next)
    Page-full full =
        subst (Page (listed buffer) (shown k ((ino, (t, name)) ∷ es)))
          (sym (stopped answer next full))
          (record {
            n = 0;
            well = refl;
            prefix_shown =
                laws.unfit ino (k + 1) (convert_filetype t) name buffer full ∙ sym (append-nil _);
            complete = inr (
              (ino, (k + 1, (convert_filetype t, name))),
              shown (k + 1) es,
              buffer,
              refl,
              sym (append-nil _),
              λ i. (full i, answer.1),
            );
          })

    longer :
        answer.0 ≡ false
        → (n : ℕ)
        → listed answer.1 ++ take n (shown (k + 1) es)
          ≡ listed buffer ++ take (suc n) (shown k ((ino, (t, name)) ∷ es))
    longer room n =
        ap (λ l. l ++ take n (shown (k + 1) es))
          (laws.added ino (k + 1) (convert_filetype t) name buffer room)
        ∙ append_assoc (listed buffer) _ _

    Page-room :
        answer.0 ≡ false
        → Page (listed answer.1) (shown (k + 1) es) (next answer.1)
        → Page (listed buffer) (shown k ((ino, (t, name)) ∷ es)) (add_next b answer next)
    Page-room room rest =
        subst (Page (listed buffer) (shown k ((ino, (t, name)) ∷ es)))
          (sym (went_on answer next room))
          (record {
            n = suc rest.n;
            well = rest.well;
            prefix_shown = rest.prefix_shown ∙ longer room rest.n;
            complete = elim rest.complete [
              | inl all ↦ inl (ap (λ l. (ino, (k + 1, (convert_filetype t, name))) ∷ l) all)
              | inr (e, later, last, next_one, before, refused) ↦
                  inr (e, later, last, next_one, before ∙ longer room rest.n, refused)
            ];
          })

  add_entries-Page :
      (k : ℕ) (es : Known) (buffer : b.Buffer)
      → Page (listed buffer) (shown k es) (add_entries b k (outcomes es) buffer)
  unfolding add_entries
  add_entries-Page k [] buffer = record {
    n = 0;
    well = refl;
    prefix_shown = sym (append-nil _);
    complete = inl refl;
  }
  add_entries-Page k ((ino, (t, name)) ∷ es) buffer =
      elim (Bool-cases (b.add ino (k + 1) (convert_filetype t) name buffer).0) [
        | inl full ↦ Page-full k ino t name es buffer _ full
        | inr room ↦
            Page-room k ino t name es buffer _ room
              (add_entries-Page (k + 1) es (b.add ino (k + 1) (convert_filetype t) name buffer).1)
      ]

  Page-past :
      (offset : ℕ) (es : Known) (buffer : b.Buffer)
      → leb (length (outcomes es)) offset ≡ true
      → Page (listed buffer) (drop offset (shown 0 es)) (fill_page b offset (outcomes es) buffer)
  unfolding fill_page
  Page-past offset es buffer past =
      rw (past, drop-past offset 0 es past)
        (record { n = 0; well = refl; prefix_shown = sym (append-nil _); complete = inl refl })

  Page-within :
      (offset : ℕ) (es : Known) (buffer : b.Buffer)
      → leb (length (outcomes es)) offset ≡ false
      → Page (listed buffer) (drop offset (shown 0 es)) (fill_page b offset (outcomes es) buffer)
  unfolding fill_page
  Page-within offset es buffer within =
      let z : 0 + offset ≡ offset = omega arith in
      rw (within, drop-outcomes offset es, drop-shown offset 0 es, z)
        (add_entries-Page offset (drop offset es) buffer)

  -- One call of `readdir` at an offset, where all entries can be read and have a type: it puts into
  -- the buffer the entries from that offset on, in their order and each with the offset after it,
  -- either all of them or until the buffer, with just those before it added, refuses the next.
  pub fill_page-Page :
      (offset : ℕ) (es : Known) (buffer : b.Buffer)
      → Page (listed buffer) (drop offset (shown 0 es)) (fill_page b offset (outcomes es) buffer)
  unfolding fill_page
  fill_page-Page offset es buffer = elim (Bool-cases (leb (length (outcomes es)) offset)) [
    | inl past ↦ Page-past offset es buffer past
    | inr within ↦ Page-within offset es buffer within
  ]
