-- ===== src/Replacer/Prepare/Handles.antt =====
-- How many handles of a process are left when the fd replacer is prepared.
use toda.Base.{ℕ, suc, ◌<◌, ◌≡◌, refl, ap, ◌∙◌, ◌⊎◌, inr, none, some, List, [], ◌∷◌, arith}
use toda.Base.Int.{two31}
use toda.FilePath.{FilePath}
use toda.Task.{Task, Exit, returns, ◌>>◌, pure, caught}
use toda.Task.Steps.{then-returns, bind-returns, caught-returns}
use toda.Ptrace.System.{System, TraceError, ProcError}
use toda.Ptrace.Manager.{Manager, trace, clone_process, drop_process, attach_rounds, no_tasks}
use toda.Ptrace.Manager.Handles.{
  counting, counting_again, clone_step, drop_step, trace_new, trace_step,
}
use toda.Replacer.Layout.{new_builder, fds_from_iter}
use toda.Replacer.Select.{Target, select_fds}
use toda.Replacer.Prepare.{on_world, use_items, collect_group, group_of, after_trace, prepare_fds}

module _ (x : System) (fuel pid : ℕ) where
  abbrev counts : ℕ → Manager x → Manager x
  counts = counting x fuel pid

  seq :
      {A B : Type 0} (m : Task TraceError (Manager x) A) (n : Task TraceError (Manager x) B) {a : A}
      {s s' : Manager x} {r : Exit TraceError B × Manager x}
      → m s ≡ (returns a, s')
      → n s' ≡ r
      → (m >> n) s ≡ r
  seq m n e h = then-returns m n e ∙ h

  trace_at :
      (k : ℕ) (pm : Manager x)
      → suc k < two31
      → trace x fuel pid (counts k pm) ≡ (returns tt, counts (suc k) pm)
  trace_at k pm h =
      trace_step x fuel pid k (counts k pm) (ground arith) h
      ∙ ap (λ m. (returns tt, m)) (counting_again x fuel pid k (suc k) pm)

  clone_at :
      (k : ℕ) (pm : Manager x)
      → suc k < two31
      → clone_process x fuel pid (counts k pm) ≡ (returns tt, counts (suc k) pm)
  clone_at k pm h =
      clone_step x fuel pid k (counts k pm) (ground arith) h
      ∙ ap (λ m. (returns tt, m)) (counting_again x fuel pid k (suc k) pm)

  drop_at :
      (k : ℕ) (pm : Manager x)
      → suc (suc k) < two31
      → drop_process x pid (counts (suc (suc k)) pm) ≡ (returns tt, counts (suc k) pm)
  drop_at k pm h =
      drop_step x fuel pid k (counts (suc (suc k)) pm) (ground arith) h
      ∙ ap (λ m. (returns tt, m)) (counting_again x fuel pid (suc (suc k)) (suc k) pm)

  use_items-counts :
      (items : List (ℕ × FilePath)) (pm : Manager x)
      → use_items x fuel pid items (counts 2 pm) ≡ (returns tt, counts 2 pm)
  unfolding use_items
  use_items-counts [] pm = refl
  use_items-counts (i ∷ items) pm =
      seq (clone_process x fuel pid >> drop_process x pid) (use_items x fuel pid items)
        (seq (clone_process x fuel pid) (drop_process x pid) (clone_at 2 pm (omega arith))
          (drop_at 1 pm (omega arith)))
        (use_items-counts items pm)

  collect_group-counts :
      (i : ℕ × FilePath) (items : List (ℕ × FilePath)) (pm : Manager x)
      → collect_group x fuel pid (i ∷ items) (counts 1 pm)
        ≡ (returns (some (fds_from_iter (i ∷ items) new_builder)), counts 1 pm)
  unfolding collect_group
  collect_group-counts i items pm =
      let clone = clone_process x fuel pid in
      let count = trace x fuel pid in
      let drop = drop_process x pid in
      let rest = use_items x fuel pid items in
      let built = pure (some (fds_from_iter (i ∷ items) new_builder)) in
      seq (clone >> count >> drop >> rest >> drop) built
        (seq (clone >> count >> drop >> rest) drop
          (seq (clone >> count >> drop) rest
            (seq (clone >> count) drop
              (seq clone count (clone_at 1 pm (omega arith)) (trace_at 2 pm (omega arith)))
              (drop_at 1 pm (omega arith)))
            (use_items-counts items pm))
          (drop_at 0 pm (omega arith)))
        refl

  world_read :
      {A : Type 0} (call : x.World → A × x.World) (pm : Manager x) {a : A} {w' : x.World}
      → call pm.world ≡ (a, w')
      → on_world x fuel call pm ≡ (returns a, record pm { world = w' })
  unfolding on_world
  world_read call pm e = ap (λ q. (returns q.0, record pm { world = q.1 })) e

  -- A process that was not traced, whose tasks are attached and whose descriptors can be read, and of
  -- which some are selected: `prepare` builds their cases, and of all the handles it made just one is
  -- left, the accessor's.
  pub prepare_fds-counting :
      (read_fds : ℕ → x.World → (ProcError ⊎ List (ℕ × Target)) × x.World)
      (detect_path new_path : FilePath) (pm : Manager x) {w w' : x.World} {fds : List (ℕ × Target)}
      {i : ℕ × FilePath} {items : List (ℕ × FilePath)}
      → pm.counter pid ≡ none
      → attach_rounds x fuel pid 2 no_tasks pm.world ≡ (returns tt, w)
      → read_fds pid w ≡ (inr fds, w')
      → select_fds detect_path new_path fds ≡ i ∷ items
      → prepare_fds x fuel read_fds detect_path new_path pid pm ≡ (
        returns (some (fds_from_iter (i ∷ items) new_builder)),
        counts 1 (record pm { world = w' }),
      )
  unfolding prepare_fds
  prepare_fds-counting read_fds detect_path new_path pm {w} {w'} {fds} {i} {items} n a r c =
      let traced = trace_new x fuel pid pm n a in
      let caught_one : caught (trace x fuel pid) pm
          ≡ (returns (some tt), counts 1 (record pm { world = w })) =
        caught-returns (trace x fuel pid) traced in
      let group = group_of x fuel detect_path new_path pid in
      let read : on_world x fuel (read_fds pid) (counts 1 (record pm { world = w }))
          ≡ (returns (inr fds), counts 1 (record pm { world = w' })) =
        world_read (read_fds pid) (counts 1 (record pm { world = w })) r in
      bind-returns (caught (trace x fuel pid))
        (after_trace x fuel read_fds detect_path new_path pid) caught_one
      ∙ bind-returns (on_world x fuel (read_fds pid)) group read
      ∙ ap (λ is. collect_group x fuel pid is (counts 1 (record pm { world = w' }))) c
      ∙ collect_group-counts i items (record pm { world = w' })
