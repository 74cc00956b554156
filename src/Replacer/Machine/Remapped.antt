-- ===== src/Replacer/Machine/Remapped.antt =====
-- What the code of the mmap replacer does for its cases.
use toda.Base.{
  ℕ, zero, suc, ◌+◌, ◌*◌, ◌%◌, ◌<◌, ◌≡◌, refl, ap, ◌∙◌, subst, true, false, Option, none, some,
  List, [], ◌∷◌, length, ltb, arith,
}
use toda.Replacer.Layout.{RawCase}
use toda.Replacer.Machine.{
  Cpu, Kernel, Data, two64, exec, exec_all, from_end, run, mmap_body, at_case, put, r13, r14, r15,
}

module _ (k : Kernel) (d : Data) where
  open k use {World}

  -- `munmap` of a mapping, `open` of the path at an offset, `mmap` and `close`.
  remap_with : (addr len offset len' prot flags at : ℕ) → World → World
  remap_with addr len offset len' prot flags at w =
      let path = (d.new_paths + offset) % two64 in
      let (t, w1) = k.munmap addr len w in
      let (fd, w2) = k.open_at path 2 0 w1 in
      let (u, w3) = k.mmap path len' prot flags fd at w2 in (k.close fd w3).1

  -- Unmaps a mapping, opens its file through the new path, maps it and closes it. What `mmap` takes
  -- for the address of the mapping is the address of the path: no instruction puts the old one back.
  unfoldable pub remap : RawCase → World → World
  unfolding remap_with
  remap c w =
      remap_with c.memory_addr c.length_of c.new_path_offset c.length_of c.prot c.flags c.offset w

  -- The case that stands where r14 and r15 lead.
  abbrev pub case_at : ℕ → RawCase
  case_at a = record {
    memory_addr = d.word ((a + 0) % two64);
    length_of = d.word ((a + 8) % two64);
    prot = d.word ((a + 16) % two64);
    flags = d.word ((a + 24) % two64);
    new_path_offset = d.word ((a + 32) % two64);
    offset = d.word ((a + 40) % two64);
  }

  abbrev Leaves : World → ℕ → Cpu World → Option (Cpu World) → Type 0
  Leaves w i s none = ⊥
  Leaves w i s (some s') = (s'.world ≡ w) × (s'.r15 ≡ i) × (s'.r14 ≡ s.r14) × (s'.stack ≡ s.stack)

  -- What the code passes, with the additions to r15 as they stand in it.
  abbrev passed : Cpu World → World
  passed s =
      remap_with (at_case k d 0 s) (at_case k d 8 s)
        (d.word ((s.r14 + (s.r15 + 32) % two64 + 0) % two64))
        (d.word (
          (s.r14 + (((s.r15 + 32) % two64 + 18446744073709551584) % two64 + 8) % two64 + 0)
          % two64))
        (d.word (
          (s.r14
            + ((((s.r15 + 32) % two64 + 18446744073709551584) % two64 + 8) % two64 + 8) % two64
            + 0)
          % two64))
        (d.word (
          (s.r14
            + (((((s.r15 + 32) % two64 + 18446744073709551584) % two64 + 8) % two64 + 8) % two64
                + 8)
              % two64
            + 0)
          % two64))
        (d.word (
          (s.r14
            + ((((((s.r15 + 32) % two64 + 18446744073709551584) % two64 + 8) % two64 + 8) % two64
                    + 8)
                  % two64
                + 16)
              % two64
            + 0)
          % two64))
        s.world

  abbrev r15_after : Cpu World → ℕ
  r15_after s =
      ((((((((s.r15 + 32) % two64 + 18446744073709551584) % two64 + 8) % two64 + 8) % two64 + 8)
                  % two64
                + 16)
              % two64
            + 18446744073709551576)
          % two64
        + 48)
      % two64

  body-passed : (s : Cpu World) → Leaves (passed s) (r15_after s) s (exec_all k d mmap_body s)
  unfolding exec_all exec remap_with
  body-passed s = (refl, refl, refl, refl)

  passed-remap :
      (s : Cpu World) → s.r15 + 48 < two64 → passed s ≡ remap (case_at (s.r14 + s.r15)) s.world
  unfolding remap
  passed-remap s h =
      let q32 : s.r14 + (s.r15 + 32) % two64 + 0 ≡ s.r14 + s.r15 + 32 = omega arith in
      let q8 : s.r14 + (((s.r15 + 32) % two64 + 18446744073709551584) % two64 + 8) % two64 + 0
          ≡ s.r14 + s.r15 + 8 =
        omega arith in
      let q16 : s.r14
            + ((((s.r15 + 32) % two64 + 18446744073709551584) % two64 + 8) % two64 + 8) % two64
            + 0
          ≡ s.r14 + s.r15 + 16 =
        omega arith in
      let q24 : s.r14
            + (((((s.r15 + 32) % two64 + 18446744073709551584) % two64 + 8) % two64 + 8) % two64
                + 8)
              % two64
            + 0
          ≡ s.r14 + s.r15 + 24 =
        omega arith in
      let q40 : s.r14
            + ((((((s.r15 + 32) % two64 + 18446744073709551584) % two64 + 8) % two64 + 8) % two64
                    + 8)
                  % two64
                + 16)
              % two64
            + 0
          ≡ s.r14 + s.r15 + 40 =
        omega arith in
      rw (q32, q8, q16, q24, q40) refl

  body-remap :
      (s : Cpu World)
      → s.r15 + 48 < two64
      → Leaves (remap (case_at (s.r14 + s.r15)) s.world) (s.r15 + 48) s (exec_all k d mmap_body s)
  body-remap s h =
      let e : r15_after s ≡ s.r15 + 48 = omega arith in
      subst (λ i. Leaves (remap (case_at (s.r14 + s.r15)) s.world) i s (exec_all k d mmap_body s)) e
        (subst (λ w. Leaves w (r15_after s) s (exec_all k d mmap_body s)) (passed-remap s h)
          (body-passed s))

  abbrev pub remap_all : List RawCase → World → World
  remap_all [] w = w
  remap_all (c ∷ cs) w = remap_all cs (remap c w)

  -- The words from the `i`th byte of the cases on are the fields of these cases.
  abbrev pub Holds : ℕ → List RawCase → Type 0
  Holds i [] = Unit
  Holds i (c ∷ cs) = (case_at (d.cases + i) ≡ c) × Holds (i + 48) cs

  abbrev pub Done : World → Option (Cpu World) → Type 0
  Done w none = ⊥
  Done w (some s) = s.world ≡ w

  go_on :
      (c : RawCase) (cs : List RawCase) (fuel i : ℕ) (s : Cpu World)
      → case_at (d.cases + i) ≡ c
      → s.r15 ≡ i
      → s.r14 ≡ d.cases
      → ((s' : Cpu World)
          → s'.r15 ≡ i + 48
          → s'.r14 ≡ d.cases
          → Done (remap_all cs s'.world) (from_end k d fuel mmap_body s'))
      → (r : Option (Cpu World)) → Leaves (remap (case_at (s.r14 + s.r15)) s.world) (s.r15 + 48) s r
      → Done
          (remap_all (c ∷ cs) s.world)
          (elim r [ none ↦ none | some s' ↦ from_end k d fuel mmap_body s' ])
  go_on c cs fuel i s h a b rest none n = elim n [ ]
  go_on c cs fuel i s h a b rest (some s') (w, i', c', t) =
      let q : s.r14 + s.r15 ≡ d.cases + i = omega arith in
      let w' : s'.world ≡ remap c s.world =
        w ∙ ap (λ n. remap (case_at n) s.world) q ∙ ap (λ c. remap c s.world) h in
      subst (λ v. Done (remap_all cs v) (from_end k d fuel mmap_body s')) w'
        (rest s' (omega arith) (c' ∙ b))

  from_end-remap_all :
      (cs : List RawCase) (fuel i : ℕ) (s : Cpu World)
      → Holds i cs
      → s.r15 ≡ i
      → s.r14 ≡ d.cases
      → i + length cs * 48 ≡ d.cases_length
      → d.cases_length < two64
      → length cs < fuel
      → Done (remap_all cs s.world) (from_end k d fuel mmap_body s)
  unfolding from_end
  from_end-remap_all cs zero i s h a b e l f = elim f [ ]
  from_end-remap_all [] (suc fuel) i s h a b e l f =
      let stop : ltb s.r15 d.cases_length ≡ false = ground arith in rw stop refl
  from_end-remap_all (c ∷ cs) (suc fuel) i s (h, hs) a b e l f =
      let go : ltb s.r15 d.cases_length ≡ true = ground arith in
      rw go (
        go_on c cs fuel i s h a b
          (λ s' i' c'.
            from_end-remap_all cs fuel (i + 48) s' hs i' c' (omega arith) l (omega arith))
          (exec_all k d mmap_body (put r13 d.cases_length s))
          (body-remap (put r13 d.cases_length s) (omega arith)))

  -- The assembled code of the mmap replacer, with one round of fuel more than there are cases, comes
  -- to its end, and has remapped every case in order. The new mapping is asked for at the address of
  -- the path, not at that of the old mapping. The words of memory are to hold the cases.
  pub run-remap_all :
      (cs : List RawCase) (fuel : ℕ) (s : Cpu World)
      → Holds 0 cs
      → length cs * 48 ≡ d.cases_length
      → d.cases_length < two64
      → length cs < fuel
      → Done (remap_all cs s.world) (run k d fuel mmap_body s)
  unfolding run
  run-remap_all cs fuel s h e l f =
      from_end-remap_all cs fuel 0 (put r14 d.cases (put r15 0 s)) h refl refl (omega arith) l f
