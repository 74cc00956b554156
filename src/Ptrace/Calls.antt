-- ===== src/Ptrace/Calls.antt =====
-- What a `TracedProcess` does in the traced process: system calls, memory, and code that runs there.
-- The loops that wait for a trap take fuel.
pub mod Untouched
pub mod Arguments
pub mod Waiting
pub mod Traps
pub mod Leaks
use toda.Base.{
  ℕ, zero, suc, ◌+◌, ◌%◌, ◌^◌, ◌==◌, ◌⊎◌, inl, inr, Bool, false, Option, none, some, List, [], ◌∷◌,
  if◌then◌else◌, nat_eq, length,
}
use Prim.Native.Nat.{bit_or}
use toda.Task.{Task, returns, fails, ⊤, ◌>>=◌, ◌>>◌, pure, throw, spin, or_throw}
use toda.Ptrace.System.{
  System, TraceError, too_many_arguments, nul_in_path, Regs, WaitStatus, stopped, other_status, nix,
}
use toda.Ptrace.Guard.{with_protect}

abbrev pub sigtrap : ℕ
sigtrap = 5

abbrev pub is_trap : WaitStatus → Bool
is_trap (stopped pid signal) = signal == sigtrap
is_trap other_status = false

-- The register that holds the argument of this index.
unfoldable pub set_arg : ℕ → ℕ → Regs → Option Regs
set_arg index arg regs =
    if index == 0
    then some (record regs { rdi = arg })
    else if index == 1
    then some (record regs { rsi = arg })
    else if index == 2
    then some (record regs { rdx = arg })
    else if index == 3
    then some (record regs { r10 = arg })
    else if index == 4
    then some (record regs { r8 = arg })
    else if index == 5
    then some (record regs { r9 = arg })
    else none

unfoldable pub set_args : ℕ → List ℕ → Regs → Option Regs
set_args index [] regs = some regs
set_args index (arg ∷ args) regs = elim (set_arg index arg regs) [
  | none ↦ none
  | some regs' ↦ set_args (suc index) args regs'
]

-- `syscall` in little-endian order, as the word that is written.
abbrev pub syscall_code : ℕ
syscall_code = 0x050f

-- `PROT_READ | PROT_WRITE | PROT_EXEC` and `MAP_PRIVATE | MAP_ANON`
abbrev pub prot_all : ℕ
prot_all = bit_or 1 (bit_or 2 4)

abbrev pub private_anon : ℕ
private_anon = bit_or 2 32

abbrev pub Codes : Type 0
Codes = ℕ → TraceError ⊎ (ℕ × List ℕ)

-- `CString::new`: a path with a zero byte in it is refused.
unfoldable pub c_string : List ℕ → Option (List ℕ)
c_string [] = some (0 ∷ [])
c_string (b ∷ bs) =
    if b == 0 then none else elim (c_string bs) [ none ↦ none | some r ↦ some (b ∷ r) ]

module _ (x : System) where
  open x use {World, getregs, setregs, write, step, cont, waitpid, process_vm_writev}

  abbrev pub Remote : Type 0 → Type 0
  Remote A = Task TraceError World A

  unfoldable pub await_trap : ℕ → ℕ → Remote ⊤
  await_trap zero pid = spin
  await_trap (suc fuel) pid = nix (waitpid pid) >>= λ status.
      if is_trap status then pure tt else nix (step pid) >> await_trap fuel pid

  -- The body of `syscall` up to the step: the registers and the code for the call `id`.
  unfoldable pub arm : ℕ → ℕ → List ℕ → Remote ⊤
  arm pid id args = nix (getregs pid) >>= λ regs.
      or_throw (set_args 0 args (record regs { rax = id })) too_many_arguments >>= λ regs'.
      nix (setregs pid regs') >> nix (write pid regs.rip syscall_code)

  unfoldable pub run_syscall : ℕ → ℕ → ℕ → List ℕ → Remote ℕ
  run_syscall fuel pid id args =
      arm pid id args >> nix (step pid) >> await_trap fuel pid >> nix (getregs pid) >>= λ regs.
      pure regs.rax

  unfoldable pub syscall : ℕ → ℕ → ℕ → List ℕ → Remote ℕ
  syscall fuel pid id args = with_protect x pid (run_syscall fuel pid id args)

  unfoldable pub mmap : ℕ → ℕ → ℕ → ℕ → Remote ℕ
  mmap fuel pid len fd = syscall fuel pid 9 (0 ∷ len ∷ prot_all ∷ private_anon ∷ fd ∷ 0 ∷ [])

  unfoldable pub munmap : ℕ → ℕ → ℕ → ℕ → Remote ℕ
  munmap fuel pid addr len = syscall fuel pid 11 (addr ∷ len ∷ [])

  unfoldable pub with_mmap : {R : Type 0} → ℕ → ℕ → ℕ → (ℕ → Remote R) → Remote R
  with_mmap fuel pid len f =
      mmap fuel pid len 0 >>= λ addr. f addr >>= λ ret. munmap fuel pid addr len >> pure ret

  unfoldable pub write_mem : ℕ → ℕ → List ℕ → Remote ⊤
  write_mem pid addr content = nix (process_vm_writev pid addr content) >> pure tt

  unfoldable pub chdir : ℕ → ℕ → List ℕ → Remote ⊤
  chdir fuel pid filename = or_throw (c_string filename) nul_in_path >>= λ path.
      with_mmap fuel pid (length path)
        λ addr. write_mem pid addr path >> syscall fuel pid 80 (addr ∷ []) >> pure tt

  -- What the caller's closure gives for an address.
  abbrev pub generated : TraceError ⊎ (ℕ × List ℕ) → Remote (ℕ × List ℕ)
  generated (inl e) = throw e
  generated (inr c) = pure c

  unfoldable pub continue_to_trap : ℕ → ℕ → Remote ⊤
  continue_to_trap zero pid = spin
  continue_to_trap (suc fuel) pid = nix (cont pid) >> nix (waitpid pid) >>= λ status.
      nix (getregs pid) >> (if is_trap status then pure tt else continue_to_trap fuel pid)

  unfoldable pub run_at : ℕ → ℕ → Codes → ℕ → Remote ⊤
  run_at fuel pid codes addr = generated (codes addr) >>= λ c.
      write_mem pid addr c.1 >> nix (getregs pid) >>= λ regs.
      nix (setregs pid (record regs { rip = (addr + c.0) % 2 ^ 64 }))
      >> nix (getregs pid)
      >> continue_to_trap fuel pid

  unfoldable pub run_codes : ℕ → ℕ → Codes → Remote ⊤
  run_codes fuel pid codes = nix (getregs pid) >>= λ regs. generated (codes regs.rip) >>= λ c.
      with_mmap fuel pid ((length c.1 + 16) % 2 ^ 64)
        λ addr. with_protect x pid (run_at fuel pid codes addr)
