-- ===== src/Ptrace/Manager.antt =====
-- `PtraceManager` and the handles it counts: `trace`, `detach`, `Clone` and `Drop` of
-- `TracedProcess`.
pub mod Attach
pub mod Handles
use toda.Base.{
  ℕ, zero, suc, ◌==◌, ◌⊎◌, inl, inr, Bool, true, false, ◌||◌, ◌&&◌, Option, none, some, List, [],
  ◌∷◌, if◌then◌else◌, nat_eq,
}
use toda.Base.Map
use toda.Base.Map.{Map}
use toda.Base.Int.{ℤ, pos, ◌+ℤ◌, ◌-ℤ◌, ltb_ℤ, wrap_i32}
use toda.Task.{
  Task, Exit, returns, fails, panics, runs_on, ⊤, ◌>>=◌, ◌>>◌, pure, throw, spin, caught, unwrapped,
}
use toda.Ptrace.System.{
  System, ProcError, not_found, other_proc, TraceError, sys, proc, not_traced, Process, Operation,
  completed, again, Retried, done, internal, gave_up, procfs,
}

-- Zombie or dead: 'Z', 'x', 'X'
unfoldable pub thread_is_gone : ℕ → Bool
thread_is_gone state = state == 90 || state == 120 || state == 88

abbrev pub esrch : ℕ
esrch = 3

abbrev pub eperm : ℕ
eperm = 1

-- The `for` loop over the tasks: whether a new thread was found, and the traced tasks.
abbrev pub Found : Type 0
Found = Bool × (ℕ → Bool)

abbrev pub note_task : ℕ → Found → Option ⊤ → Found
note_task tid (found, traced) none = (found, traced)
note_task tid (found, traced) (some t) = (true, λ j. j == tid || traced j)

abbrev pub no_tasks : ℕ → Bool
no_tasks tid = false

abbrev pub counted_one : ℕ → Map ℤ → Exit TraceError ⊤ → Map ℤ
counted_one pid counter (returns t) = Map.insert pid (pos 1) counter
counted_one pid counter (fails e) = counter
counted_one pid counter panics = counter
counted_one pid counter runs_on = counter

abbrev pub after_retry : Retried → Exit TraceError ⊤
after_retry done = returns tt
after_retry internal = returns tt
after_retry (gave_up e) = fails e

module _ (x : System) where
  open x use {World, attach, waitpid_all, new_process, tasks, retry}

  pub record Manager : Type 0 where
    pub counter : Map ℤ
    pub world : World

  -- What the error of `ptrace::attach` does, for a task of this state.
  unfoldable pub attach_result : ℕ → ℕ ⊎ ⊤ → Task TraceError World ⊤
  attach_result state (inr t) = pure tt
  attach_result state (inl errno) =
      if errno == esrch || errno == eperm && thread_is_gone state
      then pure tt
      else throw (sys errno)

  unfoldable pub ignored : {A : Type 0} → (World → A × World) → Task TraceError World ⊤
  ignored call w = (returns tt, (call w).1)

  unfoldable pub kept : {A : Type 0} → (World → A × World) → Task TraceError World A
  kept call w = let (r, w') = call w in (returns r, w')

  unfoldable pub attach_task : ℕ → Task TraceError World ⊤
  attach_task tid = procfs (new_process tid) >>= λ process.
      kept (attach tid) >>= λ r. attach_result process.state r >> ignored (waitpid_all tid)

  unfoldable pub attach_new : List (Option ℕ) → Found → Task TraceError World Found
  attach_new [] f = pure f
  attach_new (none ∷ ts) f = attach_new ts f
  attach_new (some tid ∷ ts) f =
      if f.1 tid
      then attach_new ts f
      else caught (attach_task tid) >>= λ r. attach_new ts (note_task tid f r)

  -- The `while` loop, on fuel.
  unfoldable pub attach_rounds : ℕ → ℕ → ℕ → (ℕ → Bool) → Task TraceError World ⊤
  attach_rounds fuel pid zero traced = pure tt
  attach_rounds zero pid (suc n) traced = spin
  attach_rounds (suc fuel) pid (suc n) traced = procfs (new_process pid) >>= λ process.
      procfs (tasks process) >>= λ ts.
      attach_new ts (false, traced) >>= λ f. attach_rounds fuel pid (if f.0 then suc n else n) f.1

  abbrev pub count_handle : ℕ → ℕ → Option ℤ → Task TraceError Manager ⊤
  count_handle fuel pid (some count) pm =
      (returns tt, record pm { counter = Map.insert pid (wrap_i32 (count +ℤ pos 1)) pm.counter })
  count_handle fuel pid none pm =
      let (r, w) = attach_rounds fuel pid 2 no_tasks pm.world in
      (r, record { counter = counted_one pid pm.counter r; world = w })

  -- `PtraceManager::trace`, which gives a handle of the process.
  unfoldable pub trace : ℕ → ℕ → Task TraceError Manager ⊤
  trace fuel pid pm = count_handle fuel pid (pm.counter pid) pm

  unfoldable pub detach_tasks : List (Option ℕ) → World → World
  detach_tasks [] w = w
  detach_tasks (none ∷ ts) w = detach_tasks ts w
  detach_tasks (some tid ∷ ts) w = detach_tasks ts (x.detach tid w).1

  abbrev pub detach_listed : ProcError ⊎ List (Option ℕ) → World → Operation × World
  detach_listed (inl e) w = (again (proc e), w)
  detach_listed (inr ts) w = (completed, detach_tasks ts w)

  abbrev pub detach_process : ProcError ⊎ Process → World → Operation × World
  detach_process (inl not_found) w = (completed, w)
  detach_process (inl other_proc) w = (again (proc other_proc), w)
  detach_process (inr process) w = let (r, w') = tasks process w in detach_listed r w'

  -- The operation that `detach` retries.
  unfoldable pub detach_all : ℕ → World → Operation × World
  detach_all pid w = let (r, w') = new_process pid w in detach_process r w'

  -- `PtraceManager::detach`
  abbrev pub uncount : ℕ → Option ℤ → Task TraceError Manager ⊤
  uncount pid none pm = (fails not_traced, pm)
  uncount pid (some count) pm =
      let left = wrap_i32 (count -ℤ pos 1) in
      let (r, w) = retry 500 20 (detach_all pid) pm.world in
      if ltb_ℤ left (pos 1)
      then (after_retry r, record { counter = Map.remove pid pm.counter; world = w })
      else (returns tt, record pm { counter = Map.insert pid left pm.counter })

  unfoldable pub detach : ℕ → Task TraceError Manager ⊤
  detach pid pm = uncount pid (pm.counter pid) pm

  -- `Clone for TracedProcess` and `Drop for TracedProcess`
  unfoldable pub clone_process : ℕ → ℕ → Task TraceError Manager ⊤
  clone_process fuel pid = unwrapped (trace fuel pid)

  unfoldable pub drop_process : ℕ → Task TraceError Manager ⊤
  drop_process pid = caught (detach pid) >>= λ r. pure tt
