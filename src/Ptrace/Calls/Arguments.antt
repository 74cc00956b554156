-- ===== src/Ptrace/Calls/Arguments.antt =====
-- How `TracedProcess::syscall` passes a call to the traced process: the registers of the x86-64
-- convention and the `syscall` instruction.
use toda.Base.{
  ℕ, ◌≤◌, ◌<◌, ◌≡◌, refl, sym, subst, ◌⊎◌, inl, inr, Option, none, some, List, [], ◌∷◌, length,
  take, arith,
}
use toda.Task.{Task, ⊤, ◌>>=◌, ◌>>◌, or_throw}
use toda.Task.Steps.{Returns, Returns->>=, Returns->>}
use toda.Ptrace.System.{OnRight, System, TraceError, too_many_arguments, Regs, nix, nix_exit}
use toda.Ptrace.System.Laws.{TraceLaws}
use toda.Ptrace.Calls.{set_arg, set_args, arm, syscall_code}

-- The argument registers in the order of the convention.
abbrev pub arguments : Regs → List ℕ
arguments r = r.rdi ∷ r.rsi ∷ r.rdx ∷ r.r10 ∷ r.r8 ∷ r.r9 ∷ []

-- The registers `q` are those of `r`, for a call with these arguments.
abbrev pub Passes : List ℕ → Regs → Regs → Type 0
Passes args r q =
    (length args ≤ 6)
    × (take (length args) (arguments q) ≡ args)
    × (q.rax ≡ r.rax)
    × (q.rip ≡ r.rip)

abbrev OnArgs : List ℕ → Regs → Option Regs → Type 0
OnArgs args r none = 6 < length args
OnArgs args r (some q) = Passes args r q

set_args-Passes : (args : List ℕ) (r : Regs) → OnArgs args r (set_args 0 args r)
unfolding set_args set_arg
set_args-Passes [] r = (omega arith, refl, refl, refl)
set_args-Passes (a ∷ []) r = (omega arith, refl, refl, refl)
set_args-Passes (a ∷ b ∷ []) r = (omega arith, refl, refl, refl)
set_args-Passes (a ∷ b ∷ c ∷ []) r = (omega arith, refl, refl, refl)
set_args-Passes (a ∷ b ∷ c ∷ d ∷ []) r = (omega arith, refl, refl, refl)
set_args-Passes (a ∷ b ∷ c ∷ d ∷ e ∷ []) r = (omega arith, refl, refl, refl)
set_args-Passes (a ∷ b ∷ c ∷ d ∷ e ∷ f ∷ []) r = (omega arith, refl, refl, refl)
set_args-Passes (a ∷ b ∷ c ∷ d ∷ e ∷ f ∷ g ∷ args) r = omega arith

abbrev armed_by : (x : System) → ℕ → ℕ → List ℕ → Regs → Task TraceError x.World ⊤
armed_by x pid id args r =
    or_throw (set_args 0 args (record r { rax = id })) too_many_arguments >>= λ q.
    nix (x.setregs pid q) >> nix (x.write pid r.rip syscall_code)

module _ (x : System) (laws : TraceLaws x) (pid : ℕ) where
  open x use {World, getregs, setregs, write}
  open laws use {regs, word}

  answer-Returns :
      {A : Type 0} (Q : A → World → Type 0) (q : ℕ ⊎ A) (w : World)
      → OnRight (λ a. Q a w) q
      → Returns Q (nix_exit q, w)
  answer-Returns Q (inl e) w h = tt
  answer-Returns Q (inr a) w h = h

  nix-Returns :
      {A : Type 0} (Q : A → World → Type 0) (call : World → (ℕ ⊎ A) × World) (w : World)
      → OnRight (λ a. Q a (call w).1) (call w).0
      → Returns Q (nix call w)
  unfolding nix
  nix-Returns Q call w h = answer-Returns Q (call w).0 (call w).1 h

  right_and :
      {A : Type 0} (P : A → Type 0) (Q : Type 0) (q : ℕ ⊎ A)
      → OnRight P q
      → Q
      → OnRight (λ a. Q × P a) q
  right_and P Q (inl e) h k = tt
  right_and P Q (inr a) h k = (k, h)

  -- The registers of `w` with the call in them, and the instruction where they point at.
  abbrev pub Armed : ℕ → List ℕ → Regs → World → Type 0
  Armed id args r w =
      Passes args (record r { rax = id }) (regs w pid) × (word w pid r.rip ≡ syscall_code)

  write-Armed :
      (id : ℕ) (args : List ℕ) (r : Regs) (w : World)
      → Passes args (record r { rax = id }) (regs w pid)
      → Returns (λ t. Armed id args r) (nix (write pid r.rip syscall_code) w)
  write-Armed id args r w h =
      nix-Returns (λ t. Armed id args r) (write pid r.rip syscall_code) w
        (right_and (λ _. word (write pid r.rip syscall_code w).1 pid r.rip ≡ syscall_code)
          (Passes args (record r { rax = id }) (regs (write pid r.rip syscall_code w).1 pid))
          (write pid r.rip syscall_code w).0 (laws.write_word pid r.rip syscall_code w)
          (subst (Passes args (record r { rax = id }))
            (sym (laws.write_regs pid r.rip syscall_code w)) h))

  args-Armed :
      (id : ℕ) (args : List ℕ) (r : Regs) (o : Option Regs) (w : World)
      → OnArgs args (record r { rax = id }) o
      → Returns
          (λ t. Armed id args r)
          ((or_throw o too_many_arguments >>= λ q.
              nix (setregs pid q) >> nix (write pid r.rip syscall_code))
            w)
  unfolding ◌>>=◌
  args-Armed id args r none w h = tt
  args-Armed id args r (some q) w h =
      Returns->> (λ t. Armed id args r) (nix (setregs pid q)) (nix (write pid r.rip syscall_code)) w
        (nix-Returns (λ t s. regs s pid ≡ q) (setregs pid q) w (laws.setregs_regs pid q w))
        λ t s d. write-Armed id args r s (subst (Passes args (record r { rax = id })) (sym d) h)

  -- When the step is reached, there are at most six arguments, and the thread's registers hold the
  -- call number, the arguments in the order of the x86-64 convention and the old instruction pointer,
  -- at which the `syscall` instruction now stands.
  pub arm-Armed :
      (id : ℕ) (args : List ℕ) (w : World)
      → Returns (λ t. Armed id args (regs w pid)) (arm x pid id args w)
  unfolding arm
  arm-Armed id args w =
      Returns->>= (λ t. Armed id args (regs w pid)) (nix (getregs pid)) (armed_by x pid id args) w
        (nix-Returns (λ r s. r ≡ regs w pid) (getregs pid) w (laws.getregs_gives pid w))
        λ r s e.
          subst (λ r'. Returns (λ t. Armed id args r') (armed_by x pid id args r s)) e
            (args-Armed id args r (set_args 0 args (record r { rax = id })) s
              (set_args-Passes args (record r { rax = id })))
