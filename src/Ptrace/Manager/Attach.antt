-- ===== src/Ptrace/Manager/Attach.antt =====
-- The loop of `PtraceManager::trace` that attaches the tasks of a process: it comes to an end.
use toda.Base.{
  ℕ, zero, suc, ◌+◌, ◌≤◌, ◌<◌, ◌≡◌, refl, ap, ◌∙◌, ◌==◌, ◌⊎◌, inl, inr, Bool, false, ◌||◌, ◌&&◌,
  Option, none, some, List, [], ◌∷◌, if◌then◌else◌, nat_eq, arith, All, Bool-cases,
}
use toda.Base.Map.{Map}
use toda.Base.Int.{ℤ, pos, wrap_i32, ◌+ℤ◌}
use toda.Task.{Exit, returns, fails, panics, runs_on, ⊤}
use toda.Task.Yields.{
  Good, Any, OnSome, Yields, Yields-pure, Yields-throw, Yields->>=, Yields->>, Yields-caught,
  Yields-if, Yields-test, Yields-weaken,
}
use toda.Ptrace.System.{
  OnRight, System, TraceError, ProcError, Process, sys, nix_exit, procfs, proc_exit,
}
use toda.Ptrace.Manager.{
  thread_is_gone, attach_task, attach_result, kept, ignored, Found, note_task, attach_new,
  attach_rounds, no_tasks, Manager, trace, count_handle, counted_one, esrch, eperm,
}

-- How many task ids below `n` are not traced yet.
unfoldable pub left : ℕ → (ℕ → Bool) → ℕ
left zero traced = 0
left (suc n) traced = (if traced n then 0 else 1) + left n traced

abbrev mark : ℕ → (ℕ → Bool) → ℕ → Bool
mark tid traced j = j == tid || traced j

left-mark_le : (n tid : ℕ) (traced : ℕ → Bool) → left n (mark tid traced) ≤ left n traced
unfolding left
left-mark_le zero tid traced = omega arith
left-mark_le (suc n) tid traced = ground (arith, left-mark_le n tid traced)

left-mark :
    (n tid : ℕ) (traced : ℕ → Bool)
    → tid < n
    → traced tid ≡ false
    → left n (mark tid traced) < left n traced
unfolding left
left-mark zero tid traced h e = elim h [ ]
left-mark (suc n) tid traced h e = elim (Bool-cases (n == tid)) [
  | inl same ↦
      let f : traced n ≡ false = ap traced (ground arith) ∙ e in
      ground (arith, left-mark_le n tid traced)
  | inr other ↦ ground (arith, left-mark n tid traced)
]

left-no_tasks : (n : ℕ) → left n no_tasks ≡ n
unfolding left
left-no_tasks zero = refl
left-no_tasks (suc n) = omega (arith, left-no_tasks n)

-- The untraced ids, and one more when a new thread was found.
abbrev measure : ℕ → Found → ℕ
measure n f = left n f.1 + (if f.0 then 1 else 0)

abbrev pub Listed : {E : Type 0} → ℕ → E ⊎ List (Option ℕ) → Type 0
Listed n (inl e) = Unit
Listed n (inr ts) = All (OnSome (λ tid. tid < n)) ts

note_task-measure :
    (n tid : ℕ) (f : Found) (r : Option ⊤)
    → tid < n
    → f.1 tid ≡ false
    → measure n (note_task tid f r) ≤ measure n f
note_task-measure n tid (found, traced) none h e = omega arith
note_task-measure n tid (found, traced) (some t) h e = ground (arith, left-mark n tid traced h e)

any_right : {E A : Type 0} (r : E ⊎ A) → OnRight Any r
any_right (inl e) = tt
any_right (inr a) = tt

Listed-right :
    {E : Type 0} (n : ℕ) (r : E ⊎ List (Option ℕ))
    → Listed n r
    → OnRight (All (OnSome (λ tid. tid < n))) r
Listed-right n (inl e) h = tt
Listed-right n (inr ts) h = h

module _ (x : System) where
  open x use {World, new_process, tasks}

  nix_run : {A : Type 0} (r : ℕ ⊎ A) → Good Any (nix_exit r)
  nix_run (inl e) = tt
  nix_run (inr a) = tt

  proc_run : {A : Type 0} (P : A → Type 0) (r : ProcError ⊎ A) → OnRight P r → Good P (proc_exit r)
  proc_run P (inl e) h = tt
  proc_run P (inr a) h = h

  Yields-procfs :
      {A : Type 0} (P : A → Type 0) (call : World → (ProcError ⊎ A) × World)
      → ((w : World) → OnRight P (call w).0)
      → Yields P (procfs call)
  unfolding procfs
  Yields-procfs P call h = record { run = λ w. proc_run P (call w).0 (h w) }

  Yields-kept : {A : Type 0} (call : World → A × World) → Yields Any (kept x call)
  unfolding kept
  Yields-kept call = record { run = λ w. tt }

  Yields-ignored : {A : Type 0} (call : World → A × World) → Yields Any (ignored x call)
  unfolding ignored
  Yields-ignored call = record { run = λ w. tt }

  Yields-attach_result : (state : ℕ) (r : ℕ ⊎ ⊤) → Yields Any (attach_result x state r)
  unfolding attach_result
  Yields-attach_result state (inr t) = Yields-pure tt tt
  Yields-attach_result state (inl errno) =
      Yields-if (errno == esrch || errno == eperm && thread_is_gone state) (Yields-pure tt tt)
        (Yields-throw (sys errno))

  Yields-attach_task : (tid : ℕ) → Yields Any (attach_task x tid)
  unfolding attach_task
  Yields-attach_task tid =
      Yields->>= (Yields-procfs Any (new_process tid) (λ w. any_right (new_process tid w).0))
        λ process _. Yields->>= (Yields-kept (x.attach tid)) λ r _.
          Yields->> (Yields-attach_result process.state r) (Yields-ignored (x.waitpid_all tid))

  abbrev NoMore : ℕ → Found → Found → Type 0
  NoMore n f g = measure n g ≤ measure n f

  Yields-attach_new :
      (n : ℕ) (ts : List (Option ℕ)) (f : Found)
      → All (OnSome (λ tid. tid < n)) ts
      → Yields (NoMore n f) (attach_new x ts f)
  unfolding attach_new
  Yields-attach_new n [] f h = Yields-pure f (omega arith)
  Yields-attach_new n (none ∷ ts) f h = Yields-attach_new n ts f h.1
  Yields-attach_new n (some tid ∷ ts) f h =
      Yields-test (f.1 tid) (λ e. Yields-attach_new n ts f h.1)
        λ e. Yields->>= (Yields-caught (Yields-attach_task tid)) λ r _.
          let less : measure n (note_task tid f r) ≤ measure n f =
            note_task-measure n tid f r h.0 e in
          Yields-weaken (λ g k. omega arith) (Yields-attach_new n ts (note_task tid f r) h.1)

  next : Bool → ℕ → ℕ
  next found n = if found then suc n else n

  -- Each round uses up one of the two spare iterations, or traces a new task.
  attach_rounds-ends :
      (n : ℕ)
      → ((process : Process) (w : World) → Listed n (tasks process w).0)
      → (fuel pid iterations : ℕ) (traced : ℕ → Bool) → left n traced + iterations ≤ fuel
      → Yields Any (attach_rounds x fuel pid iterations traced)
  unfolding attach_rounds
  attach_rounds-ends n ids fuel pid zero traced h = Yields-pure tt tt
  attach_rounds-ends n ids zero pid (suc i) traced h = let c : suc i ≤ 0 = omega arith in elim c [ ]
  attach_rounds-ends n ids (suc fuel) pid (suc i) traced h =
      Yields->>= (Yields-procfs Any (new_process pid) λ w. any_right (new_process pid w).0)
        λ process _.
          Yields->>=
            (Yields-procfs (All (OnSome (λ tid. tid < n))) (tasks process)
              λ w. Listed-right n (tasks process w).0 (ids process w))
            λ ts h'. Yields->>= (Yields-attach_new n ts (false, traced) h') λ f less.
              attach_rounds-ends n ids fuel pid (if f.0 then suc i else i) f.1 (ground arith)

  counted_run :
      (pid : ℕ) (counter : Map ℤ) (r : Exit TraceError ⊤)
      → Good Any r
      → Good (λ t. counted_one pid counter r pid ≡ some (pos 1)) r
  counted_run pid counter (returns t) h = ground arith
  counted_run pid counter (fails e) h = tt
  counted_run pid counter panics h = h
  counted_run pid counter runs_on h = h

  abbrev pub counted_next : Option ℤ → ℤ
  counted_next none = pos 1
  counted_next (some count) = wrap_i32 (count +ℤ pos 1)

  count_run :
      (n fuel pid : ℕ)
      → ((process : Process) (w : World) → Listed n (tasks process w).0)
      → n + 2 ≤ fuel
      → (o : Option ℤ) (pm : Manager x)
      → let (r, pm') = count_handle x fuel pid o pm in
        Good (λ t. pm'.counter pid ≡ some (counted_next o)) r
  count_run n fuel pid ids h (some count) pm = ground arith
  count_run n fuel pid ids h none pm =
      let ends : Yields Any (attach_rounds x fuel pid 2 no_tasks) =
        attach_rounds-ends n ids fuel pid 2 no_tasks (omega (arith, left-no_tasks n)) in
      counted_run pid pm.counter (attach_rounds x fuel pid 2 no_tasks pm.world).0
        (ends.run pm.world)

  -- When every task id that procfs lists is below `n`, `trace` ends after at most `n + 2` rounds, with
  -- an error or with the process counted: as one handle when it was not traced, and as one more than
  -- before when it was.
  pub trace-counted_next :
      (n fuel pid : ℕ)
      → ((process : Process) (w : World) → Listed n (tasks process w).0)
      → n + 2 ≤ fuel
      → (pm : Manager x)
      → let (r, pm') = trace x fuel pid pm in
        Good (λ t. pm'.counter pid ≡ some (counted_next (pm.counter pid))) r
  unfolding trace
  trace-counted_next n fuel pid ids h pm = count_run n fuel pid ids h (pm.counter pid) pm
