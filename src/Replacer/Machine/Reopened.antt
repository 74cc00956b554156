-- ===== src/Replacer/Machine/Reopened.antt =====
-- What the code of the fd replacer does for its cases.
use toda.Base.{
  ℕ, zero, suc, ◌+◌, ◌*◌, ◌%◌, ◌<◌, ◌≡◌, refl, ap, ◌∙◌, subst, true, false, Option, none, some,
  List, [], ◌∷◌, length, ltb, arith,
}
use toda.Replacer.Layout.{FdCase}
use toda.Replacer.Machine.{
  Cpu, Kernel, Data, two64, exec, exec_all, from_end, run, fd_body, at_case, put, r13, r14, r15,
}

module _ (k : Kernel) (d : Data) where
  open k use {World}

  -- Opens the file behind a descriptor again, with its flags and its position, and puts the new
  -- descriptor in the place of the old one.
  unfoldable pub reopen : ℕ → ℕ → World → World
  reopen fd offset w =
      let (flags, w1) = k.fcntl fd 3 0 w in
      let (new, w2) = k.open_at ((d.new_paths + offset) % two64) flags 0 w1 in
      let (at, w3) = k.lseek fd 0 1 w2 in
      let (t, w4) = k.lseek new at 0 w3 in let (u, w5) = k.dup2 new fd w4 in (k.close new w5).1

  abbrev Leaves : World → ℕ → Cpu World → Option (Cpu World) → Type 0
  Leaves w i s none = ⊥
  Leaves w i s (some s') = (s'.world ≡ w) × (s'.r15 ≡ i) × (s'.r14 ≡ s.r14) × (s'.stack ≡ s.stack)

  body-reopen :
      (s : Cpu World)
      → Leaves
          (reopen (at_case k d 0 s) (at_case k d 8 s) s.world)
          ((s.r15 + 16) % two64)
          s
          (exec_all k d fd_body s)
  unfolding exec_all exec reopen
  body-reopen s = (refl, refl, refl, refl)

  abbrev pub reopen_all : List FdCase → World → World
  reopen_all [] w = w
  reopen_all (c ∷ cs) w = reopen_all cs (reopen c.fd c.new_path_offset w)

  -- The words from the `i`th byte of the cases on are the fields of these cases.
  abbrev pub Holds : ℕ → List FdCase → Type 0
  Holds i [] = Unit
  Holds i (c ∷ cs) =
      (d.word ((d.cases + i + 0) % two64) ≡ c.fd)
      × (d.word ((d.cases + i + 8) % two64) ≡ c.new_path_offset)
      × Holds (i + 16) cs

  abbrev pub Done : World → Option (Cpu World) → Type 0
  Done w none = ⊥
  Done w (some s) = s.world ≡ w

  go_on :
      (c : FdCase) (cs : List FdCase) (fuel i : ℕ) (s : Cpu World)
      → d.word ((d.cases + i + 0) % two64) ≡ c.fd
      → d.word ((d.cases + i + 8) % two64) ≡ c.new_path_offset
      → s.r15 ≡ i
      → s.r14 ≡ d.cases
      → i + 16 < two64
      → ((s' : Cpu World)
          → s'.r15 ≡ i + 16
          → s'.r14 ≡ d.cases
          → Done (reopen_all cs s'.world) (from_end k d fuel fd_body s'))
      → (r : Option (Cpu World))
      → Leaves (reopen (at_case k d 0 s) (at_case k d 8 s) s.world) ((s.r15 + 16) % two64) s r
      → Done
          (reopen_all (c ∷ cs) s.world)
          (elim r [ none ↦ none | some s' ↦ from_end k d fuel fd_body s' ])
  go_on c cs fuel i s h h' a b l k' none n = elim n [ ]
  go_on c cs fuel i s h h' a b l rest (some s') (w, i', c', t) =
      let q : s.r14 + s.r15 + 0 ≡ d.cases + i + 0 = omega arith in
      let q' : s.r14 + s.r15 + 8 ≡ d.cases + i + 8 = omega arith in
      let fd : at_case k d 0 s ≡ c.fd = ap (λ n. d.word (n % two64)) q ∙ h in
      let offset : at_case k d 8 s ≡ c.new_path_offset = ap (λ n. d.word (n % two64)) q' ∙ h' in
      let w' : s'.world ≡ reopen c.fd c.new_path_offset s.world =
        w
        ∙ ap (λ n. reopen n (at_case k d 8 s) s.world) fd
        ∙ ap (λ n. reopen c.fd n s.world) offset in
      subst (λ v. Done (reopen_all cs v) (from_end k d fuel fd_body s')) w'
        (rest s' (omega arith) (c' ∙ b))

  from_end-reopen_all :
      (cs : List FdCase) (fuel i : ℕ) (s : Cpu World)
      → Holds i cs
      → s.r15 ≡ i
      → s.r14 ≡ d.cases
      → i + length cs * 16 ≡ d.cases_length
      → d.cases_length < two64
      → length cs < fuel
      → Done (reopen_all cs s.world) (from_end k d fuel fd_body s)
  unfolding from_end
  from_end-reopen_all cs zero i s h a b e l f = elim f [ ]
  from_end-reopen_all [] (suc fuel) i s h a b e l f =
      let stop : ltb s.r15 d.cases_length ≡ false = ground arith in rw stop refl
  from_end-reopen_all (c ∷ cs) (suc fuel) i s (h, h', hs) a b e l f =
      let go : ltb s.r15 d.cases_length ≡ true = ground arith in
      rw go (
        go_on c cs fuel i s h h' a b (omega arith)
          (λ s' i' c'.
            from_end-reopen_all cs fuel (i + 16) s' hs i' c' (omega arith) l (omega arith))
          (exec_all k d fd_body (put r13 d.cases_length s))
          (body-reopen (put r13 d.cases_length s)))

  -- The assembled code, with one round of fuel more than there are cases, comes to its end, and has
  -- reopened every case in order: each descriptor with its flags, at its position, through the new
  -- path that its offset leads to. The words of memory are to hold the cases.
  pub run-reopen_all :
      (cs : List FdCase) (fuel : ℕ) (s : Cpu World)
      → Holds 0 cs
      → length cs * 16 ≡ d.cases_length
      → d.cases_length < two64
      → length cs < fuel
      → Done (reopen_all cs s.world) (run k d fuel fd_body s)
  unfolding run
  run-reopen_all cs fuel s h e l f =
      from_end-reopen_all cs fuel 0 (put r14 d.cases (put r15 0 s)) h refl refl (omega arith) l f
