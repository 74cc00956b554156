-- ===== src/Replacer/Tests.antt =====
-- Runs of the replacers' parts.
use toda.Base.{ℕ, ◌+◌, ◌≡◌, refl, some, List, [], ◌∷◌, arith, nat_eq}
use toda.FilePath.{FilePath, root_dir, normal, as_bytes, utf8, starts_with, strip_prefix}
use toda.Base.{◌⊎◌, inr}
use toda.Base.Map
use toda.FilePath.{join}
use toda.Task.{returns, ◌>>=◌, ◌>>◌, caught}
use toda.Ptrace.System.{ProcError, procfs}
use toda.Ptrace.System.Sample as Machine
use toda.Ptrace.Manager.{
  Manager, trace, attach_rounds, attach_new, attach_task, kept, ignored, attach_result,
}
use toda.Ptrace.Manager.Handles.{counting}
use toda.Replacer.Prepare.{prepare_fds}
use toda.Replacer.Prepare.Handles.{prepare_fds-counting}
use toda.Replacer.Select.{Target, move_path}
use toda.Replacer.Layout.{
  MmapCase, FdCase, RawCase, fds_from_iter, maps_from_iter, new_builder, new_cursor, Builder,
  to_str,
}
use toda.Replacer.Layout.Cases.{fds_of, fds_from_iter-wanted, maps_of, maps_from_iter-wanted}
use toda.Replacer.Select.{select_fds, get_prot_and_flags_from_perms, path, other_target}
use toda.Replacer.Select.Below.{select_fds-moved, below, elsewhere, nowhere}
use toda.Replacer.Machine.{Cpu, Kernel, run, fd_body, mmap_body}
use toda.Replacer.Machine.Reopened
use toda.Replacer.Machine.Remapped
use toda.Replacer.Machine.Placed.{fd_data, mmap_data, run-fd_data, run-mmap_data}

abbrev a_file : FilePath
a_file = root_dir ∷ normal (b'm' ∷ []) ∷ normal (b'a' ∷ []) ∷ []

abbrev b_file : FilePath
b_file = root_dir ∷ normal (b'm' ∷ []) ∷ normal (b'b' ∷ []) ∷ []

abbrev two_fds : List (ℕ × FilePath)
two_fds = (3, a_file) ∷ (9, b_file) ∷ []

fds_from_iter-wanted_example :
    fds_of (fds_from_iter two_fds new_builder)
    ≡ (3, b'/' ∷ b'm' ∷ b'/' ∷ b'a' ∷ []) ∷ (9, b'/' ∷ b'm' ∷ b'/' ∷ b'b' ∷ []) ∷ []
unfolding to_str as_bytes utf8
fds_from_iter-wanted_example =
    fds_from_iter-wanted two_fds
      ((refl, (refl, (refl, (refl, tt)))), ((refl, (refl, (refl, (refl, tt)))), tt))

abbrev one_map : List MmapCase
one_map =
    record { memory_addr = 4096; length_of = 8192; prot = 3; flags = 2; path = a_file; offset = 0 }
    ∷ []

maps_from_iter-wanted_example :
    maps_of (maps_from_iter one_map new_builder)
    ≡ ((4096, 8192, 3, 2, 0), b'/' ∷ b'm' ∷ b'/' ∷ b'a' ∷ []) ∷ []
unfolding to_str as_bytes utf8
maps_from_iter-wanted_example =
    maps_from_iter-wanted one_map ((refl, (refl, (refl, (refl, tt)))), tt)

select_fds-moved_example :
    select_fds
      (root_dir ∷ normal (b'm' ∷ []) ∷ [])
      (root_dir ∷ [])
      ((3, path a_file) ∷ (4, path (root_dir ∷ [])) ∷ (5, other_target) ∷ [])
    ≡ (3, root_dir ∷ normal (b'a' ∷ []) ∷ []) ∷ []
unfolding starts_with strip_prefix
select_fds-moved_example =
    select_fds-moved (root_dir ∷ normal (b'm' ∷ []) ∷ []) (root_dir ∷ [])
      ((3, below (normal (b'a' ∷ []) ∷ [])) ∷ (4, elsewhere (root_dir ∷ [])) ∷ (5, nowhere) ∷ [])
      (tt, (refl, (tt, tt)))

-- A kernel that notes the number of its calls.
abbrev counter : Kernel
counter = record {
  World = ℕ;
  fcntl = λ fd cmd arg w. (2, w + 1);
  open_at = λ p flags mode w. (7, w + 1);
  lseek = λ fd offset whence w. (100, w + 1);
  dup2 = λ old new w. (new, w + 1);
  close = λ fd w. (0, w + 1);
  munmap = λ addr len w. (0, w + 1);
  mmap = λ addr len prot flags fd offset w. (addr, w + 1);
  other = λ nr w. (0, w);
}

abbrev cpu : Cpu ℕ
cpu = record {
  rax = 0;
  rdi = 0;
  rsi = 0;
  rdx = 0;
  r10 = 0;
  r8 = 0;
  r9 = 0;
  r12 = 0;
  r13 = 0;
  r14 = 0;
  r15 = 0;
  stack = [];
  world = 0;
}

abbrev two_cases : List FdCase
two_cases = record { fd = 3; new_path_offset = 0 } ∷ record { fd = 9; new_path_offset = 5 } ∷ []

abbrev two_built : Builder FdCase
two_built = record { cases = two_cases; new_paths = new_cursor }

run-fd_data_example :
    Reopened.Done counter
      (fd_data 4096 two_built)
      12
      (run counter (fd_data 4096 two_built) 3 fd_body cpu)
unfolding Reopened.reopen
run-fd_data_example = run-fd_data counter 4096 two_built 3 cpu (omega arith) (omega arith)

abbrev one_case : List RawCase
one_case =
    record {
      memory_addr = 0;
      length_of = 8192;
      prot = 3;
      flags = 2;
      new_path_offset = 0;
      offset = 0;
    }
    ∷ []

abbrev one_built : Builder RawCase
one_built = record { cases = one_case; new_paths = new_cursor }

run-mmap_data_example :
    Remapped.Done counter
      (mmap_data 4096 one_built)
      4
      (run counter (mmap_data 4096 one_built) 2 mmap_body cpu)
unfolding Remapped.remap
run-mmap_data_example = run-mmap_data counter 4096 one_built 2 cpu (omega arith) (omega arith)

perms_test : get_prot_and_flags_from_perms (b'r' ∷ b'w' ∷ b'-' ∷ b'p' ∷ []) ≡ some (3, 2)
unfolding get_prot_and_flags_from_perms
perms_test = refl

abbrev manager : Manager Machine.sample
manager = record { counter = Map.empty; world = Machine.machine }

abbrev read_one : ℕ → Machine.Machine → (ProcError ⊎ List (ℕ × Target)) × Machine.Machine
read_one pid w = (inr ((3, path a_file) ∷ (4, other_target) ∷ []), w)

-- The process is attached, and counted for one handle.
abbrev prepared_one : Manager Machine.sample
prepared_one =
    counting Machine.sample 4 9 1
      (record manager { world = (trace Machine.sample 4 9 manager).1.world })

prepare_fds-counting_example :
    prepare_fds Machine.sample 4 read_one
      (root_dir ∷ normal (b'm' ∷ []) ∷ [])
      (root_dir ∷ [])
      9
      manager
    ≡ (
      returns (some (fds_from_iter ((3, root_dir ∷ normal (b'a' ∷ []) ∷ []) ∷ []) new_builder)),
      prepared_one,
    )
unfolding ◌>>=◌ ◌>>◌ trace attach_rounds attach_new attach_task kept ignored attach_result procfs
    caught select_fds move_path starts_with strip_prefix join
prepare_fds-counting_example =
    prepare_fds-counting Machine.sample 4 9 read_one (root_dir ∷ normal (b'm' ∷ []) ∷ [])
      (root_dir ∷ []) manager refl refl refl refl
