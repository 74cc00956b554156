-- ===== src/Ptrace/System/Sample.antt =====
-- A machine with one traced thread, for the tests: its memory is a function from addresses to words.
use toda.Base.{
  none, ◌≡◌, ℕ, ◌+◌, refl, ◌⊎◌, inl, inr, some, List, [], ◌∷◌, ◌==◌, nat_eq, if◌then◌else◌, length,
  arith,
}
use toda.Task.{⊤}
use toda.Ptrace.System.{
  Regs, WaitStatus, stopped, other_status, Operation, completed, again, Retried, done, gave_up,
  System,
}
use toda.Ptrace.System.Laws.{TraceLaws}

pub record Machine : Type 0 where
  pub regs : Regs
  pub memory : ℕ → ℕ
  pub statuses : List WaitStatus
  pub attached : List ℕ

abbrev pub zero_regs : Regs
zero_regs = record {
  rax = 0;
  rdi = 0;
  rsi = 0;
  rdx = 0;
  r10 = 0;
  r8 = 0;
  r9 = 0;
  rip = 4096;
  others = [];
}

-- A thread that stops once for another reason before it traps.
abbrev pub machine : Machine
machine = record {
  regs = zero_regs;
  memory = λ a. a;
  statuses = other_status ∷ stopped 7 5 ∷ other_status ∷ stopped 7 5 ∷ stopped 7 5 ∷ [];
  attached = [];
}

abbrev unit_ok : Machine → (ℕ ⊎ ⊤) × Machine
unit_ok m = (inr tt, m)

abbrev wait : List WaitStatus → Machine → (ℕ ⊎ WaitStatus) × Machine
wait [] m = (inl 10, m)
wait (s ∷ ss) m = (inr s, record m { statuses = ss })

abbrev after_try : Operation × Machine → Retried × Machine
after_try (completed, m) = (done, m)
after_try (again e, m) = (gave_up e, m)

-- A system call puts 77 into rax.
abbrev run_one : Machine → Machine
run_one m =
    if m.memory m.regs.rip == 0x050f
    then record m { regs = record m.regs { rax = 77; rip = m.regs.rip + 2 } }
    else m

abbrev pub sample : System
sample = record {
  World = Machine;
  getregs = λ pid m. (inr m.regs, m);
  setregs = λ pid r m. unit_ok (record m { regs = r });
  read = λ pid a m. (inr (m.memory a), m);
  write = λ pid a v m. unit_ok (record m { memory = λ j. if j == a then v else m.memory j });
  step = λ pid m. unit_ok (run_one m);
  cont = λ pid m. unit_ok (record m { regs = record m.regs { rip = 0; rdi = 5 } });
  attach = λ pid m. unit_ok (record m { attached = pid ∷ m.attached });
  detach = λ pid m. unit_ok (record m { attached = [] });
  waitpid = λ pid m. wait m.statuses m;
  waitpid_all = λ pid m. (inr other_status, m);
  process_vm_writev = λ pid a bytes m. (inr (length bytes), m);
  new_process = λ pid m. (inr (record { pid = pid; state = 83 }), m);
  tasks = λ process m. (inr (some 1 ∷ none ∷ some 0 ∷ []), m);
  retry = λ delay times operation m. after_try (operation m);
}

pub at_written : (a v : ℕ) (memory : ℕ → ℕ) → (if a == a then v else memory a) ≡ v
at_written a v memory = ground arith

abbrev pub sample_laws : TraceLaws sample
sample_laws = record {
  regs = λ m pid. m.regs;
  word = λ m pid a. m.memory a;
  getregs_gives = λ pid w. refl;
  getregs_regs = λ pid w. refl;
  getregs_word = λ pid a w. refl;
  read_gives = λ pid a w. refl;
  read_regs = λ pid a w. refl;
  read_word = λ pid a b w. refl;
  write_word = λ pid a v w. at_written a v w.memory;
  setregs_regs = λ pid r w. refl;
  setregs_word = λ pid a r w. refl;
  write_regs = λ pid a v w. refl;
}
