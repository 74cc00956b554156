-- ===== src/Replacer/Prepare.antt =====
-- `FdReplacer::prepare` and `CwdReplacer::prepare`, src/replacer: which handles of a process are made
-- and dropped while the iterators run. The processes come one after another here: that the next one
-- is looked at before the last item of a group is done touches other counters only.
pub mod Handles
use toda.Base.{ℕ, ◌⊎◌, inl, inr, Bool, Option, none, some, List, [], ◌∷◌, if◌then◌else◌}
use toda.FilePath.{FilePath, starts_with}
use toda.Task.{Task, Exit, returns, fails, ⊤, ◌>>=◌, ◌>>◌, pure, caught}
use toda.Ptrace.System.{System, TraceError, ProcError}
use toda.Ptrace.Manager.{Manager, trace, clone_process, drop_process}
use toda.Replacer.Layout.{Builder, FdCase, new_builder, fds_from_iter}
use toda.Replacer.Select.{Target, select_fds}

module _ (x : System) (fuel : ℕ) where
  -- A call of procfs on the machine.
  unfoldable pub on_world : {A : Type 0} → (x.World → A × x.World) → Task TraceError (Manager x) A
  on_world call pm = let (r, w) = call pm.world in (returns r, record pm { world = w })

  -- The items of a group after its first: each has a handle until it is collected.
  unfoldable pub use_items : ℕ → List (ℕ × FilePath) → Task TraceError (Manager x) ⊤
  use_items pid [] = pure tt
  use_items pid (i ∷ items) = clone_process x fuel pid >> drop_process x pid >> use_items pid items

  -- The group of a traced process: the first item with its handle, the handle of the accessor, the
  -- items, and the drop of the handle that the process came with.
  unfoldable pub collect_group :
      ℕ → List (ℕ × FilePath) → Task TraceError (Manager x) (Option (Builder FdCase))
  collect_group pid [] = drop_process x pid >> pure none
  collect_group pid (i ∷ items) =
      clone_process x fuel pid
      >> trace x fuel pid
      >> drop_process x pid
      >> use_items pid items
      >> drop_process x pid
      >> pure (some (fds_from_iter (i ∷ items) new_builder))

  -- `process.fd().ok()?`
  abbrev pub group_of :
      FilePath
      → FilePath
      → ℕ
      → ProcError ⊎ List (ℕ × Target)
      → Task TraceError (Manager x) (Option (Builder FdCase))
  group_of detect_path new_path pid (inl e) = drop_process x pid >> pure none
  group_of detect_path new_path pid (inr fds) =
      collect_group pid (select_fds detect_path new_path fds)

  module _ (read_fds : ℕ → x.World → (ProcError ⊎ List (ℕ × Target)) × x.World) where
    abbrev pub after_trace :
        FilePath → FilePath → ℕ → Option ⊤ → Task TraceError (Manager x) (Option (Builder FdCase))
    after_trace detect_path new_path pid none = pure none
    after_trace detect_path new_path pid (some t) =
        on_world (read_fds pid) >>= λ r. group_of detect_path new_path pid r

    unfoldable pub prepare_fds :
        FilePath → FilePath → ℕ → Task TraceError (Manager x) (Option (Builder FdCase))
    prepare_fds detect_path new_path pid =
        caught (trace x fuel pid) >>= λ r. after_trace detect_path new_path pid r

  abbrev pub kept_pid : ℕ → Option ⊤ → List ℕ → List ℕ
  kept_pid pid none pids = pids
  kept_pid pid (some t) pids = pid ∷ pids

  -- The processes of the cwd replacer that could be traced, of those whose working directory was read.
  unfoldable pub prepare_cwds :
      FilePath → List (ℕ × Option FilePath) → Task TraceError (Manager x) (List ℕ)
  prepare_cwds detect_path [] = pure []
  prepare_cwds detect_path ((pid, none) ∷ ps) = prepare_cwds detect_path ps
  prepare_cwds detect_path ((pid, some cwd) ∷ ps) =
      if starts_with cwd detect_path
      then (caught (trace x fuel pid) >>= λ r.
          prepare_cwds detect_path ps >>= λ pids. pure (kept_pid pid r pids))
      else prepare_cwds detect_path ps
