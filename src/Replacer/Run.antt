-- ===== src/Replacer/Run.antt =====
-- `UnionReplacer`, and `run` of the replacers, src/replacer.
use toda.Base.{ℕ, Option, none, some, List, [], ◌∷◌, map}
use toda.FilePath.{FilePath, as_bytes}
use toda.Task.{Task, ⊤, ◌>>◌, pure}
use toda.Ptrace.System.{System, TraceError}
use toda.Ptrace.Calls.{Codes, run_codes, chdir}
use toda.Replacer.Layout.{Builder, FdCase, RawCase}
use toda.Replacer.Machine.{Instr, fd_body, mmap_body}

-- The prepared replacers, in order, without those that could not be prepared.
abbrev pub push_prepared : {M : Type 0} → Option M → List M → List M
push_prepared none ms = ms
push_prepared (some m) ms = m ∷ ms

unfoldable pub prepared : {M : Type 0} → Option M → Option M → Option M → List M
prepared fd cwd mmap = push_prepared fd (push_prepared cwd (push_prepared mmap []))

-- `for x in xs { x.run()?; }`
unfoldable pub run_all : {E S : Type 0} → List (Task E S ⊤) → Task E S ⊤
run_all [] = pure tt
run_all (m ∷ ms) = m >> run_all ms

-- `dynasm!`: the bytes of the code for an address, from the data and the instructions of its loop.
pub record Assembler : Type 0 where
  pub fd_codes : List FdCase → List ℕ → List Instr → Codes
  pub mmap_codes : List RawCase → List ℕ → List Instr → Codes

module _ (x : System) (a : Assembler) (fuel : ℕ) where
  open x use {World}

  -- `ProcessAccessor::run` of the fd replacer and of the mmap replacer
  unfoldable pub run_fd_accessor : ℕ × Builder FdCase → Task TraceError World ⊤
  run_fd_accessor (pid, b) = run_codes x fuel pid (a.fd_codes b.cases b.new_paths.inner fd_body)

  unfoldable pub run_mmap_accessor : ℕ × Builder RawCase → Task TraceError World ⊤
  run_mmap_accessor (pid, b) =
      run_codes x fuel pid (a.mmap_codes b.cases b.new_paths.inner mmap_body)

  unfoldable pub run_fd_replacer : List (ℕ × Builder FdCase) → Task TraceError World ⊤
  run_fd_replacer processes = run_all (map run_fd_accessor processes)

  unfoldable pub run_mmap_replacer : List (ℕ × Builder RawCase) → Task TraceError World ⊤
  run_mmap_replacer processes = run_all (map run_mmap_accessor processes)

  unfoldable pub run_cwd_replacer : FilePath → List ℕ → Task TraceError World ⊤
  run_cwd_replacer new_path processes =
      run_all (map (λ pid. chdir x fuel pid (as_bytes new_path)) processes)
