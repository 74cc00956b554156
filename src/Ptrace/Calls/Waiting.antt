-- ===== src/Ptrace/Calls/Waiting.antt =====
-- The loops that wait for a trap: more fuel changes nothing once they end.
use toda.Base.{ℕ, zero, suc, ◌+◌, ◌≡◌, arith, List, length, nat_eq, ◌%◌, ◌^◌}
use toda.Task.{Task, ◌>>◌, pure, or_throw}
use toda.Task.Settles.{
  Ended, Settles, Settles-refl, Settles-spin, Settles-if, Settles-finally, Settles->>=, Settles->>,
}
use toda.Ptrace.System.{System, TraceError, nix, nul_in_path}
use toda.Ptrace.Guard.{with_protect, protect, drop_guard}
use toda.Ptrace.Calls.{
  Codes, generated, arm, syscall, run_syscall, mmap, munmap, with_mmap, run_codes, run_at,
  await_trap, continue_to_trap, is_trap, write_mem, chdir, c_string,
}

module _ (x : System) (pid : ℕ) where
  Settles-await_trap :
      (fuel more : ℕ) → Settles (await_trap x fuel pid) (await_trap x (fuel + more) pid)
  unfolding await_trap
  Settles-await_trap zero more = Settles-spin (await_trap x (zero + more) pid)
  Settles-await_trap (suc fuel) more =
      let e : suc fuel + more ≡ suc (fuel + more) = omega arith in
      rw e (
        Settles->>= (Settles-refl (nix (x.waitpid pid))) λ status.
          Settles-if (is_trap status) (Settles-refl (pure tt))
            (Settles->> (Settles-refl (nix (x.step pid))) (Settles-await_trap fuel more)))

  Settles-continue_to_trap :
      (fuel more : ℕ) → Settles (continue_to_trap x fuel pid) (continue_to_trap x (fuel + more) pid)
  unfolding continue_to_trap
  Settles-continue_to_trap zero more = Settles-spin (continue_to_trap x (zero + more) pid)
  Settles-continue_to_trap (suc fuel) more =
      let e : suc fuel + more ≡ suc (fuel + more) = omega arith in
      rw e (
        Settles->>=
          (Settles->> (Settles-refl (nix (x.cont pid))) (Settles-refl (nix (x.waitpid pid))))
          λ status. Settles->> (Settles-refl (nix (x.getregs pid))) (
            Settles-if (is_trap status) (Settles-refl (pure tt))
              (Settles-continue_to_trap fuel more)))

  Settles-with_protect :
      {R : Type 0} {f f' : Task TraceError x.World R}
      → Settles f f'
      → Settles (with_protect x pid f) (with_protect x pid f')
  unfolding with_protect
  Settles-with_protect h =
      Settles->>= (Settles-refl (protect x pid)) λ guard. Settles-finally (drop_guard x guard) h

  Settles-syscall :
      (fuel more id : ℕ) (args : List ℕ)
      → Settles (syscall x fuel pid id args) (syscall x (fuel + more) pid id args)
  unfolding syscall run_syscall
  Settles-syscall fuel more id args = Settles-with_protect (
      Settles->>=
        (Settles->>
          (Settles->> (Settles-refl (arm x pid id args >> nix (x.step pid)))
            (Settles-await_trap fuel more))
          (Settles-refl (nix (x.getregs pid))))
        λ regs. Settles-refl (pure regs.rax))

  Settles-with_mmap :
      {R : Type 0} (fuel more len : ℕ) {f f' : ℕ → Task TraceError x.World R}
      → ((addr : ℕ) → Settles (f addr) (f' addr))
      → Settles (with_mmap x fuel pid len f) (with_mmap x (fuel + more) pid len f')
  unfolding with_mmap mmap munmap
  Settles-with_mmap fuel more len h = Settles->>= (Settles-syscall fuel more 9 _) λ addr.
      Settles->>= (h addr)
        λ ret. Settles->> (Settles-syscall fuel more 11 _) (Settles-refl (pure ret))

  Settles-run_at :
      (fuel more : ℕ) (codes : Codes) (addr : ℕ)
      → Settles (run_at x fuel pid codes addr) (run_at x (fuel + more) pid codes addr)
  unfolding run_at
  Settles-run_at fuel more codes addr = Settles->>= (Settles-refl (generated x (codes addr))) λ c.
      Settles->>= (Settles-refl (write_mem x pid addr c.1 >> nix (x.getregs pid)))
        λ regs. Settles->> (Settles-refl _) (Settles-continue_to_trap fuel more)

  Settles-chdir :
      (fuel more : ℕ) (filename : List ℕ)
      → Settles (chdir x fuel pid filename) (chdir x (fuel + more) pid filename)
  unfolding chdir
  Settles-chdir fuel more filename =
      Settles->>= (Settles-refl (or_throw (c_string filename) nul_in_path)) λ path.
        Settles-with_mmap fuel more (length path) λ addr.
          Settles->>
            (Settles->> (Settles-refl (write_mem x pid addr path)) (Settles-syscall fuel more 80 _))
            (Settles-refl (pure tt))

  Settles-run_codes :
      (fuel more : ℕ) (codes : Codes)
      → Settles (run_codes x fuel pid codes) (run_codes x (fuel + more) pid codes)
  unfolding run_codes
  Settles-run_codes fuel more codes = Settles->>= (Settles-refl (nix (x.getregs pid))) λ regs.
      Settles->>= (Settles-refl (generated x (codes regs.rip))) λ c.
        Settles-with_mmap fuel more ((length c.1 + 16) % 2 ^ 64)
          λ addr. Settles-with_protect (Settles-run_at fuel more codes addr)

-- Fuel on which `run_codes` ends is enough: with any more of it the call ends in the same way, in the
-- same state.
pub run_codes-more_fuel :
    (x : System) (pid fuel more : ℕ) (codes : Codes) (w : x.World)
    → Ended (run_codes x fuel pid codes w).0
    → run_codes x (fuel + more) pid codes w ≡ run_codes x fuel pid codes w
run_codes-more_fuel x pid fuel more codes w h = (Settles-run_codes x pid fuel more codes).run w h

-- The same of `chdir`.
pub chdir-more_fuel :
    (x : System) (pid fuel more : ℕ) (filename : List ℕ) (w : x.World)
    → Ended (chdir x fuel pid filename w).0
    → chdir x (fuel + more) pid filename w ≡ chdir x fuel pid filename w
chdir-more_fuel x pid fuel more filename w h = (Settles-chdir x pid fuel more filename).run w h
