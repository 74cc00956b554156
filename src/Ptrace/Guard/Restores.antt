-- ===== src/Ptrace/Guard/Restores.antt =====
-- What `with_protect` keeps: the registers, and the code word that they point at.
use toda.Base.{ℕ, subst, ◌≡◌, sym, ap, ◌∙◌, ◌⊎◌, inl, inr}
use toda.Task.{Task, ⊤, ◌>>=◌, ◌>>◌, unwrapped, unwrapped_exit, after_exit, finally}
use toda.Task.Leads.{OnEnd, OnReturn, Any, Leads, finally_run, Leads-pure, Leads->>=}
use toda.Ptrace.System.{OnRight, System, Regs, TraceError, nix, nix_exit}
use toda.Ptrace.System.Laws.{TraceLaws}
use toda.Ptrace.Guard.{ThreadGuard, protect, drop_guard, with_protect}

module _ (x : System) (laws : TraceLaws x) (pid : ℕ) where
  open x use {World, getregs, setregs, read, write}
  open laws use {regs, word}

  -- The process has these registers, and this word where they point at.
  abbrev pub Untouched : Regs → ℕ → World → Type 0
  Untouched r v w = (regs w pid ≡ r) × (word w pid r.rip ≡ v)

  module _ (r : Regs) (v : ℕ) where
    abbrev guard : ThreadGuard
    guard = record { tid = pid; regs = r; rip_ins = v }

    nix_leads :
        {A : Type 0} (I : World → Type 0) (P : A → Type 0) (q : ℕ ⊎ A) (w : World)
        → I w
        → OnRight P q
        → OnEnd I P (nix_exit q, w)
    nix_leads I P (inl e) w i h = i
    nix_leads I P (inr a) w i h = (i, h)

    right_weaken :
        {A : Type 0} (P Q : A → Type 0) (q : ℕ ⊎ A)
        → ((a : A) → P a → Q a)
        → OnRight P q
        → OnRight Q q
    right_weaken P Q (inl e) k h = tt
    right_weaken P Q (inr a) k h = k a h

    pub Leads-getregs : Leads (Untouched r v) (λ r'. r' ≡ r) (nix (getregs pid))
    unfolding nix
    Leads-getregs = record {
      run = λ w h.
          nix_leads (Untouched r v) (λ r'. r' ≡ r) (getregs pid w).0 (getregs pid w).1
            (laws.getregs_regs pid w ∙ h.0, laws.getregs_word pid r.rip w ∙ h.1)
            (right_weaken (λ r'. r' ≡ regs w pid) (λ r'. r' ≡ r) (getregs pid w).0 (λ r' e. e ∙ h.0)
              (laws.getregs_gives pid w));
    }

    Leads-read : Leads (Untouched r v) (λ v'. v' ≡ v) (nix (read pid r.rip))
    unfolding nix
    Leads-read = record {
      run = λ w h.
          nix_leads (Untouched r v) (λ v'. v' ≡ v) (read pid r.rip w).0 (read pid r.rip w).1
            (laws.read_regs pid r.rip w ∙ h.0, laws.read_word pid r.rip r.rip w ∙ h.1)
            (right_weaken (λ v'. v' ≡ word w pid r.rip) (λ v'. v' ≡ v) (read pid r.rip w).0
              (λ v' e. e ∙ h.1) (laws.read_gives pid r.rip w));
    }

    Leads-protect : Leads (Untouched r v) (λ g. g ≡ guard) (protect x pid)
    unfolding protect
    Leads-protect = Leads->>= Leads-getregs λ r' e.
        Leads->>=
          (subst (λ a. Leads (Untouched r v) (λ v'. v' ≡ v) (nix (read pid a)))
            (ap (λ q. q.rip) (sym e)) Leads-read)
          λ v' d.
            Leads-pure (record { tid = pid; regs = r'; rip_ins = v' })
              (ap (λ q. record { tid = pid; regs = q; rip_ins = v' }) e
                ∙ ap (λ q. record { tid = pid; regs = r; rip_ins = q }) d)

    set_regs_run :
        (q : ℕ ⊎ ⊤) (w : World)
        → word w pid r.rip ≡ v
        → OnRight (λ _. regs w pid ≡ r) q
        → OnReturn (Untouched r v) (unwrapped_exit (nix_exit q), w)
    set_regs_run (inl e) w a b = tt
    set_regs_run (inr t) w a b = (b, a)

    set_regs_at :
        (w : World)
        → word w pid r.rip ≡ v
        → OnReturn (Untouched r v) (unwrapped (nix (setregs pid r)) w)
    unfolding unwrapped nix
    set_regs_at w h =
        set_regs_run (setregs pid r w).0 (setregs pid r w).1 (laws.setregs_word pid r.rip r w ∙ h)
          (laws.setregs_regs pid r w)

    write_run :
        (q : ℕ ⊎ ⊤) (w : World)
        → OnRight (λ _. word w pid r.rip ≡ v) q
        → OnReturn
            (Untouched r v)
            (after_exit (λ _. unwrapped (nix (setregs pid r))) (unwrapped_exit (nix_exit q)) w)
    write_run (inl e) w h = tt
    write_run (inr t) w h = set_regs_at w h

    drop_guard-puts_back : (w : World) → OnReturn (Untouched r v) (drop_guard x guard w)
    unfolding drop_guard ◌>>◌ ◌>>=◌ unwrapped nix
    drop_guard-puts_back w =
        write_run (write pid r.rip v w).0 (write pid r.rip v w).1 (laws.write_word pid r.rip v w)

    Leads-finally :
        {R : Type 0} (f : Task TraceError World R) (g : ThreadGuard)
        → g ≡ guard
        → Leads (Untouched r v) Any (finally f (drop_guard x g))
    Leads-finally f g e = record {
      run = λ w i.
          finally_run (Untouched r v) f (drop_guard x g)
            (subst (λ g'. (w' : World) → OnReturn (Untouched r v) (drop_guard x g' w')) (sym e)
              drop_guard-puts_back)
            w;
    }

    -- Whatever `f` does to the process: once `with_protect` returns or fails, the registers and the
    -- code word that they point at are as they were.
    pub Leads-with_protect :
        {R : Type 0} (f : Task TraceError World R)
        → Leads (Untouched r v) Any (with_protect x pid f)
    unfolding with_protect
    Leads-with_protect f = Leads->>= Leads-protect λ g e. Leads-finally f g e
