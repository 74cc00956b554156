-- ===== src/Ptrace/Manager/Handles.antt =====
-- The counter of a process against the handles that are alive: clones and drops of `TracedProcess`.
use toda.Base.{ℕ, zero, suc, ◌≤◌, ◌<◌, ◌≡◌, refl, ap, ◌∙◌, false, none, some, List, [], ◌∷◌, arith}
use toda.Base.Map
use toda.Base.Map.{insert-insert, remove-insert, Map}
use toda.Base.Int.{pos, ◌+ℤ◌, ◌-ℤ◌, ltb_ℤ, wrap_i32, two31}
use toda.Task.{Task, returns, ⊤, ◌>>=◌, ◌>>◌, pure, caught, after_exit, caught_exit, unwrapped}
use toda.Task.Steps.{then-returns}
use toda.Ptrace.System.{System, TraceError, Retried, done, internal, gave_up}
use toda.Ptrace.Manager.{
  Manager, trace, detach, detach_all, no_tasks, attach_rounds, clone_process, drop_process,
  after_retry,
}

pub data HandleEvent : Type 0 where
  cloned dropped : HandleEvent

-- How many handles there are after the events, from `k` of them.
abbrev pub live : ℕ → List HandleEvent → ℕ
live k [] = k
live k (cloned ∷ es) = live (suc k) es
live zero (dropped ∷ es) = live zero es
live (suc k) (dropped ∷ es) = live k es

-- One handle is left all the time, and their number fits an i32.
abbrev pub Held : ℕ → List HandleEvent → Type 0
Held k [] = Unit
Held k (cloned ∷ es) = suc k < two31 × Held (suc k) es
Held zero (dropped ∷ es) = ⊥
Held (suc k) (dropped ∷ es) = 0 < k × Held k es

one_more : (k : ℕ) → suc k < two31 → wrap_i32 (pos k +ℤ pos 1) ≡ pos (suc k)
unfolding ◌+ℤ◌ wrap_i32
one_more k h = ground arith

one_less : (k : ℕ) → suc k < two31 → wrap_i32 (pos (suc k) -ℤ pos 1) ≡ pos k
unfolding ◌-ℤ◌ wrap_i32
one_less k h = ground arith

swallowed :
    {S : Type 0} (r : Retried) (s : S)
    → after_exit (λ _. pure tt) (caught_exit (after_retry r)) s ≡ (returns tt, s)
swallowed done s = refl
swallowed internal s = refl
swallowed (gave_up e) s = refl

module _ (x : System) (fuel pid : ℕ) where
  open x use {World, retry}

  unfoldable pub run_handles : List HandleEvent → Task TraceError (Manager x) ⊤
  run_handles [] = pure tt
  run_handles (cloned ∷ es) = clone_process x fuel pid >> run_handles es
  run_handles (dropped ∷ es) = drop_process x pid >> run_handles es

  abbrev pub counting : ℕ → Manager x → Manager x
  counting k pm = record pm { counter = Map.insert pid (pos k) pm.counter }

  pub counting_again : (j k : ℕ) (pm : Manager x) → counting k (counting j pm) ≡ counting k pm
  counting_again j k pm =
      ap (λ c. record { counter = c; world = pm.world })
        (insert-insert pid (pos k) (pos j) pm.counter)

  pub trace_step :
      (k : ℕ) (pm : Manager x)
      → pm.counter pid ≡ some (pos k)
      → suc k < two31
      → trace x fuel pid pm ≡ (returns tt, counting (suc k) pm)
  unfolding trace
  trace_step k pm e h = rw (e, one_more k h) refl

  pub clone_step :
      (k : ℕ) (pm : Manager x)
      → pm.counter pid ≡ some (pos k)
      → suc k < two31
      → clone_process x fuel pid pm ≡ (returns tt, counting (suc k) pm)
  unfolding clone_process unwrapped trace
  clone_step k pm e h = rw (e, one_more k h) refl

  pub drop_step :
      (k : ℕ) (pm : Manager x)
      → pm.counter pid ≡ some (pos (suc (suc k)))
      → suc (suc k) < two31
      → drop_process x pid pm ≡ (returns tt, counting (suc k) pm)
  unfolding drop_process caught detach ◌>>=◌
  drop_step k pm e h =
      let f : ltb_ℤ (pos (suc k)) (pos 1) ≡ false = ground arith in
      rw (e, one_less (suc k) h, f) refl

  pub drop_last :
      (pm : Manager x)
      → pm.counter pid ≡ some (pos 1)
      → drop_process x pid pm ≡ (
        returns tt,
        record {
          counter = Map.remove pid pm.counter;
          world = (retry 500 20 (detach_all x pid) pm.world).1;
        },
      )
  unfolding drop_process caught detach ◌>>=◌
  drop_last pm e =
      rw (e, one_less 0 (omega arith))
        (swallowed (retry 500 20 (detach_all x pid) pm.world).0 (record {
          counter = Map.remove pid pm.counter;
          world = (retry 500 20 (detach_all x pid) pm.world).1;
        }))

  pub trace_new :
      (pm : Manager x) {w : World}
      → pm.counter pid ≡ none
      → attach_rounds x fuel pid 2 no_tasks pm.world ≡ (returns tt, w)
      → trace x fuel pid pm ≡ (returns tt, counting 1 (record pm { world = w }))
  unfolding trace
  trace_new pm e a = rw (e, a) refl

  -- While a handle of the process is left, the counter is the number of its handles, and clones and
  -- drops do not touch the process.
  pub run_handles-live :
      (es : List HandleEvent) (k : ℕ) (pm : Manager x)
      → k < two31
      → Held k es
      → run_handles es (counting k pm) ≡ (returns tt, counting (live k es) pm)
  unfolding run_handles
  run_handles-live [] k pm b h = refl
  run_handles-live (cloned ∷ es) k pm b h =
      then-returns (clone_process x fuel pid) (run_handles es)
        (clone_step k (counting k pm) (ground arith) h.0)
      ∙ ap (run_handles es) (counting_again k (suc k) pm)
      ∙ run_handles-live es (suc k) pm h.0 h.1
  run_handles-live (dropped ∷ es) zero pm b h = elim h [ ]
  run_handles-live (dropped ∷ es) (suc zero) pm b h =
      let c : 1 ≤ 0 = omega (arith, h.0) in elim c [ ]
  run_handles-live (dropped ∷ es) (suc (suc k)) pm b h =
      then-returns (drop_process x pid) (run_handles es)
        (drop_step k (counting (suc (suc k)) pm) (ground arith) b)
      ∙ ap (run_handles es) (counting_again (suc (suc k)) (suc k) pm)
      ∙ run_handles-live es (suc k) pm (omega arith) h.1

  -- A process that was not traced is traced, its handles are cloned and dropped, and the last one is
  -- dropped: the counters are as before, and the process has been detached once, at the end. The
  -- attach loop is to succeed.
  pub trace-run_handles-drop_process :
      (es : List HandleEvent) (pm : Manager x) {w : World}
      → pm.counter pid ≡ none
      → attach_rounds x fuel pid 2 no_tasks pm.world ≡ (returns tt, w)
      → Held 1 es
      → live 1 es ≡ 1
      → (trace x fuel pid >> run_handles es >> drop_process x pid) pm
        ≡ (returns tt, record pm { world = (retry 500 20 (detach_all x pid) w).1 })
  trace-run_handles-drop_process es pm {w} e a h l =
      let one = counting 1 (record pm { world = w }) in
      let traced : trace x fuel pid pm ≡ (returns tt, one) = trace_new pm e a in
      let used : (trace x fuel pid >> run_handles es) pm ≡ (returns tt, one) =
        then-returns (trace x fuel pid) (run_handles es) traced
        ∙ run_handles-live es 1 (record pm { world = w }) (omega arith) h
        ∙ ap (λ k. (returns tt, counting k (record pm { world = w }))) l in
      then-returns (trace x fuel pid >> run_handles es) (drop_process x pid) used
      ∙ drop_last one (ground arith)
      ∙ ap
          (λ c. (returns tt, record { counter = c; world = (retry 500 20 (detach_all x pid) w).1 }))
          (remove-insert pid (pos 1) pm.counter e)
