-- ===== src/Ptrace/Tests.antt =====
-- Runs of the tracing code on the sample machine.
use toda.Base.{ℕ, ◌<◌, ◌↔◌, inl, ◌≡◌, refl, inr, some, List, [], ◌∷◌, arith}
use toda.Base.Int.{pos}
use toda.Base.Map
use toda.Task.{returns, fails, runs_on, ⊤, ◌>>=◌, ◌>>◌, throw, finally, unwrapped, caught}
use toda.Ptrace.Guard.{with_protect, protect, drop_guard}
use toda.Ptrace.Calls.{
  Codes, syscall, run_codes, arm, with_mmap, await_trap, run_at, write_mem, mmap, munmap,
  continue_to_trap, run_syscall, set_args, set_arg,
}
use toda.Ptrace.Manager.{
  Manager, trace, detach_all, detach_tasks, drop_process, attach_rounds, attach_new, attach_task,
  kept, ignored, attach_result, thread_is_gone,
}
use toda.Ptrace.System.{sys, too_many_arguments, nix, procfs}
use toda.Task.Steps.{Returns}
use toda.Task.Yields.{Good}
use toda.Task.Leads.{OnEnd, Any}
use toda.Ptrace.System.Sample.{sample, sample_laws, machine, Machine}
use toda.Ptrace.Manager.Attach.{trace-counted_next}
use toda.Ptrace.Manager.Handles.{
  run_handles-live, trace-run_handles-drop_process, cloned, dropped, HandleEvent, counting,
  run_handles, Held,
}
use toda.Ptrace.Guard.Restores.{Untouched}
use toda.Ptrace.Calls.Untouched.{syscall-Untouched, run_codes-Untouched}
use toda.Ptrace.Calls.Waiting.{run_codes-more_fuel}
use toda.Ptrace.Calls.Traps.{next, Traps, continue_to_trap-Traps}
use toda.Ptrace.Calls.Arguments.{arm-Armed, Armed}
use toda.Ptrace.Calls.Leaks.{with_mmap-fails}

syscall_test : (syscall sample 3 7 9 (1 ∷ 2 ∷ []) machine).0 ≡ returns 77
unfolding ◌>>=◌ ◌>>◌ syscall with_protect protect finally run_syscall arm set_args set_arg
    await_trap nix unwrapped drop_guard
syscall_test = refl

too_many_test :
    (syscall sample 3 7 9 (1 ∷ 2 ∷ 3 ∷ 4 ∷ 5 ∷ 6 ∷ 7 ∷ []) machine).0 ≡ fails too_many_arguments
unfolding ◌>>=◌ ◌>>◌ syscall with_protect protect finally run_syscall arm set_args set_arg
    await_trap nix unwrapped drop_guard
too_many_test = refl

-- One wait is not enough here.
runs_on_test : (syscall sample 1 7 9 [] machine).0 ≡ runs_on
unfolding ◌>>=◌ ◌>>◌ syscall with_protect protect finally run_syscall arm set_args set_arg
    await_trap nix unwrapped drop_guard
runs_on_test = refl

abbrev codes : Codes
codes a = inr (1, 144 ∷ 204 ∷ [])

run_codes_test : (run_codes sample 5 7 codes machine).0 ≡ returns tt
unfolding ◌>>=◌ ◌>>◌ run_codes run_at write_mem with_mmap mmap munmap continue_to_trap syscall
    with_protect protect finally run_syscall arm set_args set_arg await_trap nix unwrapped
    drop_guard
run_codes_test = refl

syscall-Untouched_example :
    OnEnd
      (Untouched sample sample_laws 7 machine.regs 4096)
      Any
      (syscall sample 3 7 9 (1 ∷ []) machine)
syscall-Untouched_example = syscall-Untouched sample sample_laws 3 7 machine 9 (1 ∷ [])

run_codes-Untouched_example :
    OnEnd
      (Untouched sample sample_laws 7 machine.regs 4096)
      Any
      (run_codes sample 5 7 codes machine)
run_codes-Untouched_example = run_codes-Untouched sample sample_laws 5 7 machine codes

run_codes-more_fuel_example :
    run_codes sample 9 7 codes machine ≡ run_codes sample 5 7 codes machine
unfolding ◌>>=◌ ◌>>◌ run_codes run_at write_mem with_mmap mmap munmap continue_to_trap syscall
    with_protect protect finally run_syscall arm set_args set_arg await_trap nix unwrapped
    drop_guard
run_codes-more_fuel_example = run_codes-more_fuel sample 7 5 4 codes machine tt

abbrev trapped : Machine
trapped = next sample 7 (next sample 7 machine)

continue_to_trap-Traps_example :
    (continue_to_trap sample 3 7 machine ≡ (returns tt, trapped))
    ↔ ((n : ℕ) × (n < 3) × Traps sample 7 n machine trapped)
continue_to_trap-Traps_example = continue_to_trap-Traps sample 7 3 machine trapped

-- The machine does trap, at its second stop.
trapped_test : continue_to_trap sample 3 7 machine ≡ (returns tt, trapped)
unfolding continue_to_trap ◌>>=◌ ◌>>◌ nix
trapped_test = refl

arm-Armed_example :
    Returns
      (λ t. Armed sample sample_laws 7 9 (5 ∷ 6 ∷ []) machine.regs)
      (arm sample 7 9 (5 ∷ 6 ∷ []) machine)
arm-Armed_example = arm-Armed sample sample_laws 7 9 (5 ∷ 6 ∷ []) machine

abbrev mapped : Machine
mapped = (mmap sample 3 7 16 0 machine).1

with_mmap-fails_example :
    with_mmap sample 3 7 16 (λ addr. throw {A = ⊤} too_many_arguments) machine
    ≡ (fails too_many_arguments, mapped)
unfolding ◌>>=◌ ◌>>◌ mmap syscall with_protect protect finally run_syscall arm set_args set_arg
    await_trap nix unwrapped drop_guard
with_mmap-fails_example =
    with_mmap-fails sample 3 7 16 (λ addr. throw {A = ⊤} too_many_arguments) machine mapped mapped
      refl refl

abbrev manager : Manager sample
manager = record { counter = Map.empty; world = machine }

trace_test : (trace sample 4 9 manager).1.world.attached ≡ 0 ∷ 1 ∷ []
unfolding ◌>>=◌ ◌>>◌ trace attach_rounds attach_new attach_task kept ignored attach_result procfs
    caught
trace_test = refl

abbrev events : List HandleEvent
events = cloned ∷ cloned ∷ dropped ∷ dropped ∷ []

held : Held 1 events
held = (omega arith, (omega arith, (omega arith, (omega arith, tt))))

run_handles-live_example :
    run_handles sample 4 9 events (counting sample 4 9 1 manager)
    ≡ (returns tt, counting sample 4 9 1 manager)
run_handles-live_example = run_handles-live sample 4 9 events 1 manager (omega arith) held

trace-run_handles-drop_process_example :
    (trace sample 4 9 >> run_handles sample 4 9 events >> drop_process sample 9) manager
    ≡ (returns tt, manager)
unfolding ◌>>=◌ ◌>>◌ attach_rounds attach_new attach_task kept ignored attach_result procfs caught
    detach_all detach_tasks
trace-run_handles-drop_process_example =
    trace-run_handles-drop_process sample 4 9 events manager refl refl held refl

trace-counted_next_example :
    Good (λ t. (trace sample 4 9 manager).1.counter 9 ≡ some (pos 1)) (trace sample 4 9 manager).0
trace-counted_next_example =
    trace-counted_next sample 2 4 9 (λ process w. (omega arith, (tt, (omega arith, tt))))
      (omega arith) manager

-- A task that is gone in the meantime (ESRCH) is no error, whatever its state was; EPERM is one for a
-- task that lives.
esrch_test : (attach_result sample 83 (inl 3) machine).0 ≡ returns tt
unfolding attach_result thread_is_gone
esrch_test = refl

eperm_test : (attach_result sample 83 (inl 1) machine).0 ≡ fails (sys 1)
unfolding attach_result thread_is_gone
eperm_test = refl

zombie_test : (attach_result sample 90 (inl 1) machine).0 ≡ returns tt
unfolding attach_result thread_is_gone
zombie_test = refl
