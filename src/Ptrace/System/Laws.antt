-- ===== src/Ptrace/System/Laws.antt =====
-- What ptrace(2) documents of the registers and of the words of a stopped process.
use toda.Base.{ℕ, ◌≡◌}
use toda.Ptrace.System.{OnRight, System, Regs}

module _ (x : System) where
  open x use {World, getregs, setregs, read, write}

  pub record TraceLaws : Type 0 where
    pub regs : World → ℕ → Regs
    pub word : World → ℕ → ℕ → ℕ
    -- reading gives what is there, and changes neither
    pub getregs_gives : (pid : ℕ) (w : World) → OnRight (λ r. r ≡ regs w pid) (getregs pid w).0
    pub getregs_regs : (pid : ℕ) (w : World) → regs (getregs pid w).1 pid ≡ regs w pid
    pub getregs_word : (pid a : ℕ) (w : World) → word (getregs pid w).1 pid a ≡ word w pid a
    pub read_gives : (pid a : ℕ) (w : World) → OnRight (λ v. v ≡ word w pid a) (read pid a w).0
    pub read_regs : (pid a : ℕ) (w : World) → regs (read pid a w).1 pid ≡ regs w pid
    pub read_word : (pid a b : ℕ) (w : World) → word (read pid a w).1 pid b ≡ word w pid b
    -- a write that succeeds is there afterwards; setting the registers leaves memory alone
    pub write_word :
        (pid a v : ℕ) (w : World)
        → OnRight (λ _. word (write pid a v w).1 pid a ≡ v) (write pid a v w).0
    pub setregs_regs :
        (pid : ℕ) (r : Regs) (w : World)
        → OnRight (λ _. regs (setregs pid r w).1 pid ≡ r) (setregs pid r w).0
    pub setregs_word :
        (pid a : ℕ) (r : Regs) (w : World) → word (setregs pid r w).1 pid a ≡ word w pid a
    pub write_regs : (pid a v : ℕ) (w : World) → regs (write pid a v w).1 pid ≡ regs w pid
