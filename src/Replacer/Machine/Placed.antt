-- ===== src/Replacer/Machine/Placed.antt =====
-- The bytes that src/replacer puts in front of its code, and the code on them.
use toda.Base.{
  ℕ, zero, suc, ◌+◌, ◌-◌, ◌*◌, ◌/◌, ◌%◌, ◌<◌, ◌≡◌, refl, ap, ◌∙◌, List, [], ◌∷◌, length, arith,
}
use toda.Replacer.Layout.{FdCase, RawCase, Builder}
use toda.Replacer.Machine.{Cpu, Kernel, Data, two64, run, fd_body, mmap_body}
use toda.Replacer.Machine.Reopened
use toda.Replacer.Machine.Remapped
use toda.Replacer.Machine.Reopened.{reopen_all, run-reopen_all}
use toda.Replacer.Machine.Remapped.{remap_all, run-remap_all, case_at}

-- The `n`th of some words, and 0 behind them.
abbrev pub field : List ℕ → ℕ → ℕ
field [] n = 0
field (w ∷ ws) zero = w
field (w ∷ ws) (suc n) = field ws n

-- `.bytes cases`: the packed fields of the cases, each a word.
abbrev pub fd_words : List FdCase → List ℕ
fd_words [] = []
fd_words (c ∷ cs) = c.fd ∷ c.new_path_offset ∷ fd_words cs

abbrev pub mmap_words : List RawCase → List ℕ
mmap_words [] = []
mmap_words (c ∷ cs) =
    c.memory_addr ∷ c.length_of ∷ c.prot ∷ c.flags ∷ c.new_path_offset ∷ c.offset ∷ mmap_words cs

-- The labels for an address: the cases, the length of them in bytes (a word), and the paths. The
-- code reads words of the cases only.
abbrev pub placed : ℕ → List ℕ → ℕ → Data
placed addr words size = record {
  cases = addr;
  new_paths = addr + size + 8;
  cases_length = size;
  word = λ a. field words ((a - addr) / 8);
}

unfoldable pub fd_data : ℕ → Builder FdCase → Data
fd_data addr b = placed addr (fd_words b.cases) (length b.cases * 16)

unfoldable pub mmap_data : ℕ → Builder RawCase → Data
mmap_data addr b = placed addr (mmap_words b.cases) (length b.cases * 48)

-- The words from the `m`th on are those.
abbrev Tail : List ℕ → ℕ → List ℕ → Type 0
Tail words m ws = (j : ℕ) → field words (m + j) ≡ field ws j

word_at :
    (addr size m i : ℕ) (words ws : List ℕ)
    → Tail words m ws
    → (j : ℕ) → addr + m * 8 + j * 8 < two64
    → i ≡ addr + m * 8 + j * 8
    → field words ((i % two64 - addr) / 8) ≡ field ws j
word_at addr size m i words ws h j l e =
    let q : (i % two64 - addr) / 8 ≡ m + j = omega arith in ap (field words) q ∙ h j

from_start : (words : List ℕ) → Tail words 0 words
from_start words j = let z : 0 + j ≡ j = omega arith in ap (field words) z

skip_two :
    (words : List ℕ) (m : ℕ) (ws : List ℕ) (a b : ℕ)
    → Tail words m (a ∷ b ∷ ws)
    → Tail words (m + 2) ws
skip_two words m ws a b h j =
    let e : m + 2 + j ≡ m + suc (suc j) = omega arith in ap (field words) e ∙ h (suc (suc j))

module _ (k : Kernel) (addr : ℕ) where
  fd-Holds :
      (words : List ℕ) (size : ℕ) (cs : List FdCase) (m i : ℕ)
      → i ≡ m * 8
      → addr + i + length cs * 16 < two64
      → Tail words m (fd_words cs)
      → Reopened.Holds k (placed addr words size) i cs
  fd-Holds words size [] m i e l h = tt
  fd-Holds words size (c ∷ cs) m i e l h = (
    word_at addr size m (addr + i + 0) words (fd_words (c ∷ cs)) h 0 (omega arith) (omega arith),
    word_at addr size m (addr + i + 8) words (fd_words (c ∷ cs)) h 1 (omega arith) (omega arith),
    fd-Holds words size cs (m + 2) (i + 16) (omega arith) (omega arith)
        (skip_two words m (fd_words cs) c.fd c.new_path_offset h),
  )

  -- The code of the fd replacer, put at an address with the data of its builder in front, comes to
  -- its end when its loop may take one round more than there are cases, and has reopened every case
  -- in order: each descriptor with its flags, at its position, through the path that its offset leads
  -- to. The data is to lie below 2 ^ 64.
  pub run-fd_data :
      (b : Builder FdCase) (fuel : ℕ) (s : Cpu k.World)
      → addr + length b.cases * 16 < two64
      → length b.cases < fuel
      → Reopened.Done k
          (fd_data addr b)
          (reopen_all k (fd_data addr b) b.cases s.world)
          (run k (fd_data addr b) fuel fd_body s)
  unfolding fd_data
  run-fd_data b fuel s l f =
      run-reopen_all k (fd_data addr b) b.cases fuel s
        (fd-Holds (fd_words b.cases) (length b.cases * 16) b.cases 0 0 refl (omega arith)
          (from_start (fd_words b.cases)))
        refl (omega arith) f

  mmap-Holds :
      (words : List ℕ) (size : ℕ) (cs : List RawCase) (m i : ℕ)
      → i ≡ m * 8
      → addr + i + length cs * 48 < two64
      → Tail words m (mmap_words cs)
      → Remapped.Holds k (placed addr words size) i cs
  mmap-Holds words size [] m i e l h = tt
  mmap-Holds words size (c ∷ cs) m i e l h =
      let ws = mmap_words (c ∷ cs) in
      let e0 = word_at addr size m (addr + i + 0) words ws h 0 (omega arith) (omega arith) in
      let e1 = word_at addr size m (addr + i + 8) words ws h 1 (omega arith) (omega arith) in
      let e2 = word_at addr size m (addr + i + 16) words ws h 2 (omega arith) (omega arith) in
      let e3 = word_at addr size m (addr + i + 24) words ws h 3 (omega arith) (omega arith) in
      let e4 = word_at addr size m (addr + i + 32) words ws h 4 (omega arith) (omega arith) in
      let e5 = word_at addr size m (addr + i + 40) words ws h 5 (omega arith) (omega arith) in
      let h2 =
        skip_two words m (c.prot ∷ c.flags ∷ c.new_path_offset ∷ c.offset ∷ mmap_words cs)
          c.memory_addr c.length_of h in
      let h4 =
        skip_two words (m + 2) (c.new_path_offset ∷ c.offset ∷ mmap_words cs) c.prot c.flags h2 in
      let h6 = skip_two words (m + 2 + 2) (mmap_words cs) c.new_path_offset c.offset h4 in
      (
        rw (e0, e1, e2, e3, e4, e5) refl,
        mmap-Holds words size cs (m + 2 + 2 + 2) (i + 48) (omega arith) (omega arith) h6,
      )

  -- The same of the mmap replacer: every case is remapped in order. The new mapping is asked for at
  -- the address of the path, not at that of the old mapping.
  pub run-mmap_data :
      (b : Builder RawCase) (fuel : ℕ) (s : Cpu k.World)
      → addr + length b.cases * 48 < two64
      → length b.cases < fuel
      → Remapped.Done k
          (mmap_data addr b)
          (remap_all k (mmap_data addr b) b.cases s.world)
          (run k (mmap_data addr b) fuel mmap_body s)
  unfolding mmap_data
  run-mmap_data b fuel s l f =
      run-remap_all k (mmap_data addr b) b.cases fuel s
        (mmap-Holds (mmap_words b.cases) (length b.cases * 48) b.cases 0 0 refl (omega arith)
          (from_start (mmap_words b.cases)))
        refl (omega arith) f
