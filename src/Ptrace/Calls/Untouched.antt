-- ===== src/Ptrace/Calls/Untouched.antt =====
-- What the calls of `TracedProcess` leave of the thread they run in: its registers, and the code
-- word they point at.
use toda.Base.{ℕ, ◌+◌, ◌%◌, ◌^◌, refl, ◌⊎◌, inl, inr, List, length}
use toda.Task.{Task}
use toda.Task.Leads.{OnEnd, Any, Leads, Leads-pure, Leads-throw, Leads->>=, Leads->>}
use toda.Ptrace.System.{System, Regs, TraceError}
use toda.Ptrace.System.Laws.{TraceLaws}
use toda.Ptrace.Guard.{with_protect}
use toda.Ptrace.Guard.Restores.{Untouched, Leads-with_protect, Leads-getregs}
use toda.Ptrace.Calls.{
  Codes, generated, syscall, run_syscall, mmap, munmap, with_mmap, run_codes, run_at,
}

module _ (x : System) (laws : TraceLaws x) (pid : ℕ) (r : Regs) (v : ℕ) where
  abbrev I : x.World → Type 0
  I = Untouched x laws pid r v

  Leads-syscall : (fuel id : ℕ) (args : List ℕ) → Leads I Any (syscall x fuel pid id args)
  unfolding syscall
  Leads-syscall fuel id args = Leads-with_protect x laws pid r v (run_syscall x fuel pid id args)

  Leads-with_mmap :
      {R : Type 0} (fuel len : ℕ) (f : ℕ → Task TraceError x.World R)
      → ((addr : ℕ) → Leads I Any (f addr))
      → Leads I Any (with_mmap x fuel pid len f)
  unfolding with_mmap mmap munmap
  Leads-with_mmap fuel len f h =
      Leads->>= (Leads-syscall fuel 9 _)
        λ addr _. Leads->>= (h addr) λ ret _. Leads->> (Leads-syscall fuel 11 _) (Leads-pure ret tt)

  Leads-generated : (q : TraceError ⊎ (ℕ × List ℕ)) → Leads I Any (generated x q)
  Leads-generated (inl e) = Leads-throw e
  Leads-generated (inr c) = Leads-pure c tt

  Leads-run_codes : (fuel : ℕ) (codes : Codes) → Leads I Any (run_codes x fuel pid codes)
  unfolding run_codes
  Leads-run_codes fuel codes = Leads->>= (Leads-getregs x laws pid r v) λ regs _.
      Leads->>= (Leads-generated (codes regs.rip)) λ c _.
        Leads-with_mmap fuel ((length c.1 + 16) % 2 ^ 64)
          (λ addr. with_protect x pid (run_at x fuel pid codes addr))
          λ addr. Leads-with_protect x laws pid r v (run_at x fuel pid codes addr)

module _ (x : System) (laws : TraceLaws x) (fuel pid : ℕ) (w : x.World) where
  abbrev regs : Regs
  regs = laws.regs w pid

  abbrev code : ℕ
  code = laws.word w pid regs.rip

  -- Once a system call in the traced process returns or fails, the thread's registers and the code
  -- word that they point at are as before it.
  pub syscall-Untouched :
      (id : ℕ) (args : List ℕ)
      → OnEnd (Untouched x laws pid regs code) Any (syscall x fuel pid id args w)
  syscall-Untouched id args = (Leads-syscall x laws pid regs code fuel id args).run w (refl, refl)

  -- Once `run_codes` returns or fails, at whatever step and whatever the codes do, the thread's
  -- registers and the code word that they point at are as before it.
  pub run_codes-Untouched :
      (codes : Codes) → OnEnd (Untouched x laws pid regs code) Any (run_codes x fuel pid codes w)
  run_codes-Untouched codes = (Leads-run_codes x laws pid regs code fuel codes).run w (refl, refl)
