-- ===== src/Ptrace/System.antt =====
-- What src/ptrace/mod.rs takes from the crates `nix`, `procfs` and `retry`: the calls are parameters,
-- on a state of the machine with the traced processes in it.
pub mod Laws
pub mod Sample
use toda.Base.{ℕ, ◌⊎◌, inl, inr, Bool, Option, none, some, List, if◌then◌else◌}
use toda.Task.{Task, Exit, returns, fails, ⊤}

-- `libc::user_regs_struct`: the registers that the code names, and the others.
pub record Regs : Type 0 where
  pub rax : ℕ
  pub rdi : ℕ
  pub rsi : ℕ
  pub rdx : ℕ
  pub r10 : ℕ
  pub r8 : ℕ
  pub r9 : ℕ
  pub rip : ℕ
  pub others : List ℕ

pub data ProcError : Type 0 where
  not_found other_proc : ProcError

-- What the functions of src/ptrace/mod.rs fail with: an error of nix (an errno), of procfs, of the
-- caller's closure, and the module's own.
pub data TraceError : Type 0 where
  sys : ℕ → TraceError
  proc : ProcError → TraceError
  too_many_arguments not_traced nul_in_path no_codes : TraceError

pub data WaitStatus : Type 0 where
  stopped : ℕ → ℕ → WaitStatus
  other_status : WaitStatus

-- `procfs::process::Process` with the state of its `stat`, a character.
pub record Process : Type 0 where
  pub pid : ℕ
  pub state : ℕ

-- `retry::OperationResult`
pub data Operation : Type 0 where
  completed : Operation
  again : TraceError → Operation

-- What `retry::retry` gives: the operation was completed, its last error, or an internal error.
pub data Retried : Type 0 where
  done internal : Retried
  gave_up : TraceError → Retried

pub record System : Type 1 where
  pub World : Type 0
  -- `ptrace::getregs`, `setregs`, `read`, `write`, `step`, `cont`, `attach`, `detach`
  pub getregs : ℕ → World → (ℕ ⊎ Regs) × World
  pub setregs : ℕ → Regs → World → (ℕ ⊎ ⊤) × World
  pub read : ℕ → ℕ → World → (ℕ ⊎ ℕ) × World
  pub write : ℕ → ℕ → ℕ → World → (ℕ ⊎ ⊤) × World
  pub step : ℕ → World → (ℕ ⊎ ⊤) × World
  pub cont : ℕ → World → (ℕ ⊎ ⊤) × World
  pub attach : ℕ → World → (ℕ ⊎ ⊤) × World
  pub detach : ℕ → World → (ℕ ⊎ ⊤) × World
  -- `waitpid(pid, None)`, `waitpid(pid, Some(__WALL))`
  pub waitpid : ℕ → World → (ℕ ⊎ WaitStatus) × World
  pub waitpid_all : ℕ → World → (ℕ ⊎ WaitStatus) × World
  -- `process_vm_writev` of one slice to one address: how many bytes were written
  pub process_vm_writev : ℕ → ℕ → List ℕ → World → (ℕ ⊎ ℕ) × World
  -- `procfs::process::Process::new`, and `tasks()` with the ids of the tasks that could be read
  pub new_process : ℕ → World → (ProcError ⊎ Process) × World
  pub tasks : Process → World → (ProcError ⊎ List (Option ℕ)) × World
  -- `retry(Fixed::from_millis(delay).take(times), operation)`
  pub retry : ℕ → ℕ → (World → Operation × World) → World → Retried × World

abbrev pub nix_exit : {A : Type 0} → ℕ ⊎ A → Exit TraceError A
nix_exit (inl errno) = fails (TraceError.sys errno)
nix_exit (inr a) = returns a

abbrev pub proc_exit : {A : Type 0} → ProcError ⊎ A → Exit TraceError A
proc_exit (inl e) = fails (TraceError.proc e)
proc_exit (inr a) = returns a

-- A predicate on the answer of a call that succeeds.
abbrev pub OnRight : {E A : Type 0} → (A → Type 0) → E ⊎ A → Type 0
OnRight P (inl e) = Unit
OnRight P (inr a) = P a

module _ {W : Type 0} where
  -- A call of nix, and of procfs, with its error converted by `?`.
  unfoldable pub nix : {A : Type 0} → (W → (ℕ ⊎ A) × W) → Task TraceError W A
  nix call w = let (r, w') = call w in (nix_exit r, w')

  unfoldable pub procfs : {A : Type 0} → (W → (ProcError ⊎ A) × W) → Task TraceError W A
  procfs call w = let (r, w') = call w in (proc_exit r, w')
