-- ===== src/Replacer/Machine.antt =====
-- The code that src/replacer/fd_replacer.rs and mmap_replacer.rs assemble, and the part of an x86-64
-- processor that runs it. The code's loop takes fuel; the calls of the kernel are parameters.
pub mod Reopened
pub mod Remapped
pub mod Placed
use toda.Base.{
  ℕ, zero, suc, ◌+◌, ◌-◌, ◌%◌, ◌==◌, ltb, Option, none, some, List, [], ◌∷◌, if◌then◌else◌, nat_eq,
}

-- The registers that the code uses, and the words that it pushed.
pub record Cpu (W : Type 0) : Type 0 where
  pub rax : ℕ
  pub rdi : ℕ
  pub rsi : ℕ
  pub rdx : ℕ
  pub r10 : ℕ
  pub r8 : ℕ
  pub r9 : ℕ
  pub r12 : ℕ
  pub r13 : ℕ
  pub r14 : ℕ
  pub r15 : ℕ
  pub stack : List ℕ
  pub world : W

pub data Reg : Type 0 where
  rax rdi rsi rdx r10 r8 r9 r12 r13 r14 r15 : Reg

-- The instructions that the two programs use. `load` and `add_load` read `QWORD [r14+r15+d]`, and the
-- `lea`s and `load_length` the labels `cases`, `new_paths` and `cases_length`.
pub data Instr : Type 0 where
  xor_self : Reg → Instr
  mov : Reg → Reg → Instr
  mov_imm : Reg → ℕ → Instr
  load : Reg → ℕ → Instr
  add_load : Reg → ℕ → Instr
  lea_cases : Reg → Instr
  lea_paths : Reg → Instr
  load_length : Reg → Instr
  add_imm : Reg → ℕ → Instr
  sub_imm : Reg → ℕ → Instr
  push : Reg → Instr
  pop : Reg → Instr
  syscall : Instr

-- The system calls, with their arguments as they stand in the registers.
pub record Kernel : Type 1 where
  pub World : Type 0
  pub fcntl : ℕ → ℕ → ℕ → World → ℕ × World
  pub open_at : ℕ → ℕ → ℕ → World → ℕ × World
  pub lseek : ℕ → ℕ → ℕ → World → ℕ × World
  pub dup2 : ℕ → ℕ → World → ℕ × World
  pub close : ℕ → World → ℕ × World
  pub munmap : ℕ → ℕ → World → ℕ × World
  pub mmap : ℕ → ℕ → ℕ → ℕ → ℕ → ℕ → World → ℕ × World
  pub other : ℕ → World → ℕ × World

-- The bytes in front of the code: where the labels stand, the number of bytes of the cases, and the
-- words in memory.
pub record Data : Type 0 where
  pub cases : ℕ
  pub new_paths : ℕ
  pub cases_length : ℕ
  pub word : ℕ → ℕ

abbrev pub two64 : ℕ
two64 = 18_446_744_073_709_551_616

module _ {W : Type 0} where
  abbrev pub reg : Reg → Cpu W → ℕ
  reg rax s = s.rax
  reg rdi s = s.rdi
  reg rsi s = s.rsi
  reg rdx s = s.rdx
  reg r10 s = s.r10
  reg r8 s = s.r8
  reg r9 s = s.r9
  reg r12 s = s.r12
  reg r13 s = s.r13
  reg r14 s = s.r14
  reg r15 s = s.r15

  abbrev pub put : Reg → ℕ → Cpu W → Cpu W
  put rax v s = record s { rax = v }
  put rdi v s = record s { rdi = v }
  put rsi v s = record s { rsi = v }
  put rdx v s = record s { rdx = v }
  put r10 v s = record s { r10 = v }
  put r8 v s = record s { r8 = v }
  put r9 v s = record s { r9 = v }
  put r12 v s = record s { r12 = v }
  put r13 v s = record s { r13 = v }
  put r14 v s = record s { r14 = v }
  put r15 v s = record s { r15 = v }

  abbrev pub pop_into : Reg → List ℕ → Cpu W → Option (Cpu W)
  pop_into r [] s = none
  pop_into r (v ∷ vs) s = some (put r v (record s { stack = vs }))

module _ (k : Kernel) (d : Data) where
  open k use {World}

  -- The call whose number is in rax.
  abbrev pub call : Cpu World → ℕ × World
  call s =
      if s.rax == 0x48
      then k.fcntl s.rdi s.rsi s.rdx s.world
      else (if s.rax == 0x2
          then k.open_at s.rdi s.rsi s.rdx s.world
          else (if s.rax == 0x8
              then k.lseek s.rdi s.rsi s.rdx s.world
              else (if s.rax == 0x21
                  then k.dup2 s.rdi s.rsi s.world
                  else (if s.rax == 0x3
                      then k.close s.rdi s.world
                      else (if s.rax == 0xb
                          then k.munmap s.rdi s.rsi s.world
                          else (if s.rax == 0x9
                              then k.mmap s.rdi s.rsi s.rdx s.r10 s.r8 s.r9 s.world
                              else k.other s.rax s.world))))))

  abbrev pub answered : ℕ × World → Cpu World → Cpu World
  answered r s = record s { rax = r.0; world = r.1 }

  -- `QWORD [r14+r15+n]`
  abbrev pub at_case : ℕ → Cpu World → ℕ
  at_case n s = d.word ((s.r14 + s.r15 + n) % two64)

  -- `none` where the code would read a stack that it did not write.
  unfoldable pub exec : Instr → Cpu World → Option (Cpu World)
  exec (xor_self r) s = some (put r 0 s)
  exec (mov r q) s = some (put r (reg q s) s)
  exec (mov_imm r n) s = some (put r n s)
  exec (load r n) s = some (put r (at_case n s) s)
  exec (add_load r n) s = some (put r ((reg r s + at_case n s) % two64) s)
  exec (lea_cases r) s = some (put r d.cases s)
  exec (lea_paths r) s = some (put r d.new_paths s)
  exec (load_length r) s = some (put r d.cases_length s)
  exec (add_imm r n) s = some (put r ((reg r s + n) % two64) s)
  exec (sub_imm r n) s = some (put r ((reg r s + (two64 - n)) % two64) s)
  exec (push r) s = some (record s { stack = reg r s ∷ s.stack })
  exec (pop r) s = pop_into r s.stack s
  exec syscall s = some (answered (call s) s)

  unfoldable pub exec_all : List Instr → Cpu World → Option (Cpu World)
  exec_all [] s = some s
  exec_all (i ∷ is) s = elim (exec i s) [ none ↦ none | some s' ↦ exec_all is s' ]

  -- From `->end`: `mov r13, [->cases_length]`, `cmp r15, r13`, `jb ->start`, and `int3` after them.
  unfoldable pub from_end : ℕ → List Instr → Cpu World → Option (Cpu World)
  from_end zero body s = none
  from_end (suc fuel) body s =
      if ltb s.r15 d.cases_length
      then elim (exec_all body (put r13 d.cases_length s)) [
        | none ↦ none
        | some s' ↦ from_end fuel body s'
      ]
      else some (put r13 d.cases_length s)

  -- The code from its entry: `xor r15, r15`, `lea r14, [->cases]`, `jmp ->end`.
  unfoldable pub run : ℕ → List Instr → Cpu World → Option (Cpu World)
  run fuel body s = from_end fuel body (put r14 d.cases (put r15 0 s))

-- From `->start` to `->end` in fd_replacer.rs.
abbrev pub fd_body : List Instr
fd_body =
    mov_imm rax 0x48
    ∷ load rdi 0
    ∷ mov_imm rsi 3
    ∷ mov_imm rdx 0
    ∷ syscall
    ∷ mov rsi rax
    ∷ mov_imm rax 2
    ∷ lea_paths rdi
    ∷ add_load rdi 8
    ∷ mov_imm rdx 0
    ∷ syscall
    ∷ mov r12 rax
    ∷ mov_imm rax 8
    ∷ load rdi 0
    ∷ mov_imm rsi 0
    ∷ mov_imm rdx 1
    ∷ syscall
    ∷ mov rdi r12
    ∷ mov rsi rax
    ∷ mov_imm rax 8
    ∷ mov_imm rdx 0
    ∷ syscall
    ∷ mov_imm rax 0x21
    ∷ mov rdi r12
    ∷ load rsi 0
    ∷ syscall
    ∷ mov_imm rax 3
    ∷ mov rdi r12
    ∷ syscall
    ∷ add_imm r15 16
    ∷ []

-- From `->start` to `->end` in mmap_replacer.rs.
abbrev pub mmap_body : List Instr
mmap_body =
    mov_imm rax 0xb
    ∷ load rdi 0
    ∷ load rsi 8
    ∷ mov_imm rdx 0
    ∷ syscall
    ∷ mov_imm rax 2
    ∷ lea_paths rdi
    ∷ add_imm r15 32
    ∷ add_load rdi 0
    ∷ sub_imm r15 32
    ∷ mov_imm rsi 2
    ∷ mov_imm rdx 0
    ∷ syscall
    ∷ push rax
    ∷ mov r8 rax
    ∷ mov_imm rax 9
    ∷ add_imm r15 8
    ∷ load rsi 0
    ∷ add_imm r15 8
    ∷ load rdx 0
    ∷ add_imm r15 8
    ∷ load r10 0
    ∷ add_imm r15 16
    ∷ load r9 0
    ∷ syscall
    ∷ sub_imm r15 40
    ∷ mov_imm rax 3
    ∷ pop rdi
    ∷ syscall
    ∷ add_imm r15 48
    ∷ []
