-- ===== src/Lib.antt =====
-- Verification of toda, a file system that injects faults: a FUSE file system is mounted over a
-- directory, and hands each request on to the original directory after its injectors had their say.
--
-- The parts of the program and the modules that model them:
--   Injector/...      src/injector: the configuration (Config), the method flags (Method), the test
--                     whether a call is hit (Filter), and the injectors (Fault, Latency, Mistake,
--                     AttrOverride, and the list of them, Multi).
--   Hookfs/Errors, Utils, Reply   src/hookfs/errors.rs, utils.rs, reply.rs.
--   Hookfs/State, Inject, InodeMap   of src/hookfs/mod.rs the structs and the macros that call the
--                     injectors.
--   Hookfs/Attrs, Nodes, Files, Dirs, Xattrs   the methods of `impl AsyncFileSystemImpl for HookFs`
--                     in src/hookfs/mod.rs, one function for each, under the method's name (`open`,
--                     `write` and `create` are open_file, write_file and create_file).
--   Hookfs/Service    src/hookfs/async_fs.rs: a request of the kernel is a `Request`, `serve` runs
--                     the method and gives the answer, `serve_all` runs a history of requests;
--                     Entries has one function for each request, and Sent the replies of reply.rs.
--   Mount             of src/mount.rs the mount table and `non_root`; Mount/Encode is src/utils.rs, and
--                     Mount/Injector src/mount_injector.rs with the other methods of `MountsInfo`.
--   Jsonrpc           src/jsonrpc.rs: the calls that ask for the status and replace the injectors.
--   Ptrace            src/ptrace/mod.rs: Manager is `PtraceManager` with `Clone` and `Drop` of
--                     `TracedProcess`, Guard is `ThreadGuard` with `protect` and `with_protect`, and
--                     Calls the other methods of `TracedProcess`, under their names.
--   Replacer          src/replacer: Select is what `prepare` selects of a process, Prepare the handles
--                     it makes and drops, Layout the two `ProcessAccessorBuilder`s, Machine the two
--                     assembled programs, the data in front of them (Placed) and the processor that
--                     runs them, and Run the `run`s.
--   Stop              src/stop.rs: `lock`, `wait` and `wake` as steps of two threads.
--   Base, FilePath, Action, Task   numbers, lists and maps; std::path on components; calls on a
--                     state that return, fail with a HookFsError, or panic (Action); calls with an
--                     error type of their own that may also run on when their fuel is spent (Task).
--                     What was written before a failure stays written.
-- The theorems stand beside what they are about: Hookfs/Stable says which few facts make an
-- invariant hold after every request, and Hookfs/Rooted and Hookfs/Quiet are two such invariants.
-- Task/Leads, Task/Yields and Task/Settles do the same for what a call restores, for its coming to an
-- end, and for its not depending on fuel.
--
-- What is outside the repository is a parameter: External (floating-point numbers, rand, glob, nix's
-- errno table, lower case outside ASCII) and Hookfs/Os (the system calls on a world of their own, the
-- slab of open files, fuser's directory buffer). The laws that are assumed of them are the records
-- RngLaws, FloatLaws, SlabLaws and BufferLaws (in Hookfs/Dirs/Pages); External/Sample and
-- Hookfs/Os/Sample are concrete worlds that meet them. A system call may answer anything.
-- Ptrace/System takes nix, procfs and retry in the same way, with what ptrace(2) says of registers and
-- words in TraceLaws; Mount/System takes mount(2), fuser's mount and retry, with what they make of the
-- mounts in MountLaws; Replacer/Machine takes the kernel's calls, and Replacer/Run the assembler.
--
-- Numbers are natural numbers or integers with the wrap-around of their casts and of i32 arithmetic
-- written out. Where a usize or a u64 count would have to pass 2 ^ 64 the theorems say so in a
-- hypothesis. The loops of the file system and of the injectors run over lists or down to zero. Fuel
-- bounds the attach loop of Ptrace/Manager (two rounds more than there are task ids are enough), the
-- waits of Ptrace/Calls (what ends does not depend on it), and the assembled loops of
-- Replacer/Machine (one round more than there are cases).
--
-- Where a task panics, the model says that the reply object of its request is dropped with no call on
-- it (`dropped`); what the destructor in fuser then answers is not in this repository. A path is its
-- components, so a slash at its end is not kept.
--
-- Not modelled: the interleaving of requests at their awaits (each runs to its end); logging; paths
-- of more than PATH_MAX bytes; the encoding of instructions, which is the assembler's; the handles
-- that `prepare` of the mmap replacer clones and drops while its iterators run; and the main
-- program (src/main.rs, src/fuse_device.rs). Process ids are taken to be no less than zero.
pub mod Base
pub mod FilePath
pub mod External
pub mod Action
pub mod Hookfs
pub mod Injector
pub mod Mount
pub mod Jsonrpc
pub mod Task
pub mod Ptrace
pub mod Stop
pub mod Replacer
