-- ===== src/Ptrace/Calls/Leaks.antt =====
-- A mapping of `with_mmap` whose use fails.
use toda.Base.{ℕ, ◌≡◌}
use toda.Task.{Task, returns, fails, ◌>>=◌, ◌>>◌, pure}
use toda.Task.Steps.{bind-returns, bind-fails}
use toda.Ptrace.System.{System, TraceError}
use toda.Ptrace.Calls.{mmap, munmap, with_mmap}
use toda.Base.{◌∙◌}

-- When the use of the mapping fails, `with_mmap` fails with the same error in the same state: it does
-- not unmap.
pub with_mmap-fails :
    {R : Type 0} (x : System) (fuel pid len : ℕ) (f : ℕ → Task TraceError x.World R) {addr : ℕ}
    {e : TraceError} (w w' w'' : x.World)
    → mmap x fuel pid len 0 w ≡ (returns addr, w')
    → f addr w' ≡ (fails e, w'')
    → with_mmap x fuel pid len f w ≡ (fails e, w'')
unfolding with_mmap
with_mmap-fails {R = R} x fuel pid len f {addr} w w' w'' m b =
    let use_it : ℕ → Task TraceError x.World R =
      λ a. f a >>= λ ret. munmap x fuel pid a len >> pure ret in
    bind-returns (mmap x fuel pid len 0) use_it m
    ∙ bind-fails (f addr) (λ ret. munmap x fuel pid addr len >> pure ret) b
