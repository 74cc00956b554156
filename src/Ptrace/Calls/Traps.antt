-- ===== src/Ptrace/Calls/Traps.antt =====
-- The loop of `run_codes` that lets the codes run until they trap (src/ptrace/mod.rs).
use toda.Base.{
  ℕ, zero, suc, ◌+◌, ◌-◌, ◌<◌, ◌≡◌, ◌≢◌, ◌↔◌, ◌⊎◌, inl, inr, refl, arith, true, false, ◌==◌,
  Bool-cases, if◌then◌else◌, nat_eq, subst, ap, ◌∙◌, sym,
}
use toda.Task.{returns, ◌>>=◌, ◌>>◌, pure}
use toda.Ptrace.System.{System, Regs, WaitStatus, stopped, other_status, nix}
use toda.Ptrace.Calls.{continue_to_trap, is_trap, sigtrap}

Sum-cases : {A B : Type 0} (r : A ⊎ B) → ((a : A) × (r ≡ inl a)) ⊎ ((b : B) × (r ≡ inr b))
Sum-cases (inl a) = inl (a, refl)
Sum-cases (inr b) = inr (b, refl)

module _ (x : System) (pid : ℕ) where
  open x use {World}

  -- The world after the thread went on, stopped, and was looked at.
  abbrev pub next : World → World
  next w = (x.getregs pid (x.waitpid pid (x.cont pid w).1).1).1

  -- The thread went on and stopped with this status.
  pub record Round (w : World) (status : WaitStatus) : Type 0 where
    pub regs : Regs
    pub went_on : (x.cont pid w).0 ≡ inr tt
    pub waited : (x.waitpid pid (x.cont pid w).1).0 ≡ inr status
    pub looked : (x.getregs pid (x.waitpid pid (x.cont pid w).1).1).0 ≡ inr regs

  -- The thread stops so many times for another reason, and then by SIGTRAP; in between and after it is
  -- looked at, and nothing else happens.
  pub Traps : ℕ → World → World → Type 0
  Traps zero w v = (q : ℕ) × Round w (stopped q sigtrap) × (v ≡ next w)
  Traps (suc n) w v =
      (status : WaitStatus) × ((q : ℕ) → status ≢ stopped q sigtrap)
      × Round w status
      × Traps n (next w) v

  is_trap-ne :
      (status : WaitStatus) → ((q : ℕ) → status ≢ stopped q sigtrap) → is_trap status ≡ false
  is_trap-ne (stopped q signal) h = elim (Bool-cases (signal == sigtrap)) [
    | inl e ↦ absurd (h q (ground arith))
    | inr e ↦ e
  ]
  is_trap-ne other_status h = refl

  ne-is_trap : (status : WaitStatus) → is_trap status ≡ false → (q : ℕ) → status ≢ stopped q sigtrap
  ne-is_trap status h q e = ground arith

  trap_status :
      (status : WaitStatus) → is_trap status ≡ true → (q : ℕ) × (status ≡ stopped q sigtrap)
  trap_status (stopped q signal) h = (q, ground arith)
  trap_status other_status h = cc

  round :
      (fuel : ℕ) (w : World) (status : WaitStatus)
      → Round w status
      → continue_to_trap x (suc fuel) pid w
        ≡ (if is_trap status then pure tt else continue_to_trap x fuel pid) (next w)
  unfolding continue_to_trap ◌>>=◌ ◌>>◌ nix
  round fuel w status r = rw (r.went_on, r.waited, r.looked) refl

  Traps-ends :
      (n more : ℕ) (w v : World)
      → Traps n w v
      → continue_to_trap x (suc n + more) pid w ≡ (returns tt, v)
  unfolding Traps
  Traps-ends zero more w v (q, r, e) =
      let f : suc zero + more ≡ suc more = omega arith in
      rw f (round more w (stopped q sigtrap) r ∙ ap (λ u. (returns tt, u)) (sym e))
  Traps-ends (suc n) more w v (status, other, r, t) =
      let f : suc (suc n) + more ≡ suc (suc n + more) = omega arith in
      rw f (
        round (suc n + more) w status r
        ∙ rw (is_trap-ne status other) (Traps-ends n more (next w) v t))

  status_of :
      (fuel : ℕ) (w v : World)
      → continue_to_trap x (suc fuel) pid w ≡ (returns tt, v)
      → (status : WaitStatus) × Round w status
  unfolding continue_to_trap ◌>>=◌ ◌>>◌ nix
  status_of fuel w v h = elim (Sum-cases (x.cont pid w).0) [
    | inl (n, c) ↦ ground (arith, c)
    | inr (u, c) ↦ (elim (Sum-cases (x.waitpid pid (x.cont pid w).1).0) [
      | inl (n, a) ↦ ground (arith, c, a)
      | inr (status, a) ↦ (elim (Sum-cases (x.getregs pid (x.waitpid pid (x.cont pid w).1).1).0) [
        | inl (n, g) ↦ ground (arith, c, a, g)
        | inr (regs, g) ↦ (status, record { regs = regs; went_on = c; waited = a; looked = g })
      ])
    ])
  ]

  -- What the loop does after a round.
  breaks_or_loops :
      (fuel : ℕ) (w v : World) (status : WaitStatus)
      → Round w status
      → continue_to_trap x (suc fuel) pid w ≡ (returns tt, v)
      → ((is_trap status ≡ true) × (v ≡ next w))
        ⊎ ((is_trap status ≡ false) × (continue_to_trap x fuel pid (next w) ≡ (returns tt, v)))
  breaks_or_loops fuel w v status r h = elim (Bool-cases (is_trap status)) [
    | inl e ↦ (let step = round fuel w status r in inl (e, ground (arith, step)))
    | inr e ↦ (let step = round fuel w status r in inr (e, ground (arith, step)))
  ]

  ends-Traps :
      (fuel : ℕ) (w v : World)
      → continue_to_trap x fuel pid w ≡ (returns tt, v)
      → (n : ℕ) × (n < fuel) × Traps n w v
  unfolding continue_to_trap Traps
  ends-Traps zero w v h = cc
  ends-Traps (suc fuel) w v h =
      let (status, r) = status_of fuel w v h in
      elim (breaks_or_loops fuel w v status r h) [
        | inl (e, last) ↦
            (let (q, t) = trap_status status e in (0, omega arith, (q, subst (Round w) t r, last)))
        | inr (e, rest) ↦
            (let (n, lt, t) = ends-Traps fuel (next w) v rest in
              (suc n, omega arith, (status, ne-is_trap status e, r, t)))
      ]

  -- The loop that lets the codes run comes to its end well exactly when the thread stops by SIGTRAP,
  -- after other stops that are fewer than the fuel; it then has continued, waited for and looked
  -- at the thread once for each stop, and the world is the one after the last.
  pub continue_to_trap-Traps :
      (fuel : ℕ) (w v : World)
      → (continue_to_trap x fuel pid w ≡ (returns tt, v)) ↔ ((n : ℕ) × (n < fuel) × Traps n w v)
  continue_to_trap-Traps fuel w v = (
    ends-Traps fuel w v,
    λ (n, lt, t).
        let e : suc n + (fuel - suc n) ≡ fuel = omega arith in
        subst (λ f. continue_to_trap x f pid w ≡ (returns tt, v)) e
          (Traps-ends n (fuel - suc n) w v t),
  )
