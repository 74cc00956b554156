-- ===== src/Ptrace/Guard.antt =====
-- `ThreadGuard` and `TracedProcess::protect`, `with_protect`: the registers and the code word that a
-- remote call overwrites are put back when the guard is dropped.
pub mod Restores
use toda.Base.{ℕ}
use toda.Task.{Task, ⊤, ◌>>=◌, ◌>>◌, pure, unwrapped, finally}
use toda.Ptrace.System.{System, Regs, TraceError, nix}

pub record ThreadGuard : Type 0 where
  pub tid : ℕ
  pub regs : Regs
  pub rip_ins : ℕ

module _ (x : System) where
  open x use {World, getregs, setregs, read, write}

  unfoldable pub protect : ℕ → Task TraceError World ThreadGuard
  protect pid = nix (getregs pid) >>= λ regs. nix (read pid regs.rip) >>= λ rip_ins.
      pure (record { tid = pid; regs = regs; rip_ins = rip_ins })

  -- `Drop for ThreadGuard`
  unfoldable pub drop_guard : ThreadGuard → Task TraceError World ⊤
  drop_guard guard =
      unwrapped (nix (write guard.tid guard.regs.rip guard.rip_ins))
      >> unwrapped (nix (setregs guard.tid guard.regs))

  unfoldable pub with_protect : {R : Type 0} → ℕ → Task TraceError World R → Task TraceError World R
  with_protect pid f = protect pid >>= λ guard. finally f (drop_guard guard)
