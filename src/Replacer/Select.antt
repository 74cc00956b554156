-- ===== src/Replacer/Select.antt =====
-- What `prepare` of the replacers selects, src/replacer: the processes, their open files, mappings and
-- working directories below the mounted directory.
pub mod Below
use toda.Base.{
  ℕ, ◌+◌, ◌-◌, ◌%◌, ◌==◌, Bool, true, false, not, ◌&&◌, ◌||◌, Option, none, some, List, [], ◌∷◌,
  if◌then◌else◌, nat_eq,
}
use Prim.Native.Nat.{bit_or}
use toda.FilePath.{FilePath, starts_with, strip_prefix, join}
use toda.Replacer.Layout.{MmapCase}

abbrev pub has_prefix : List ℕ → List ℕ → Bool
has_prefix [] s = true
has_prefix (c ∷ cs) [] = false
has_prefix (c ∷ cs) (d ∷ ds) = d == c && has_prefix cs ds

-- `str::contains` of a nonempty pattern
unfoldable pub contains : List ℕ → List ℕ → Bool
contains pattern [] = false
contains pattern (d ∷ ds) = has_prefix pattern (d ∷ ds) || contains pattern ds

abbrev pub toda_name : List ℕ
toda_name = b't' ∷ b'o' ∷ b'd' ∷ b'a' ∷ []

abbrev pub any_contains : List (List ℕ) → Bool
any_contains [] = false
any_contains (arg ∷ args) = contains toda_name arg || any_contains args

-- `all_processes`: whether a process with this command line, if it can be read, is kept.
unfoldable pub keeps_process : Option (List (List ℕ)) → Bool
keeps_process none = true
keeps_process (some cmdline) = not (any_contains cmdline)

-- `FDTarget` and `MMapPath` of procfs.
pub data Target : Type 0 where
  path : FilePath → Target
  other_target : Target

-- The path below `new_path` for one below `detect_path`. For `detect_path` itself the rest is empty, and
-- `join` puts a slash behind `new_path`; a path is its components here, and has no such slash.
unfoldable pub move_path : FilePath → FilePath → FilePath → Option FilePath
move_path detect_path new_path p =
    if starts_with p detect_path
    then elim (strip_prefix p detect_path) [ none ↦ none | some q ↦ some (join new_path q) ]
    else none

abbrev pub put_fd : ℕ → Option FilePath → List (ℕ × FilePath) → List (ℕ × FilePath)
put_fd fd none items = items
put_fd fd (some p) items = (fd, p) ∷ items

-- The descriptors of one process in `FdReplacer::prepare`.
unfoldable pub select_fds : FilePath → FilePath → List (ℕ × Target) → List (ℕ × FilePath)
select_fds detect_path new_path [] = []
select_fds detect_path new_path ((fd, path p) ∷ entries) =
    put_fd fd (move_path detect_path new_path p) (select_fds detect_path new_path entries)
select_fds detect_path new_path ((fd, other_target) ∷ entries) =
    select_fds detect_path new_path entries

-- An entry of /proc/pid/maps.
pub record MapEntry : Type 0 where
  pub start_address : ℕ
  pub end_address : ℕ
  pub perms : List ℕ
  pub offset : ℕ
  pub pathname : Target

abbrev pub flag_if : Bool → ℕ → ℕ → ℕ
flag_if b flag flags = if b then bit_or flags flag else flags

-- `none` is the panic on a text of less than four bytes.
unfoldable pub get_prot_and_flags_from_perms : List ℕ → Option (ℕ × ℕ)
get_prot_and_flags_from_perms (r ∷ w ∷ x ∷ s ∷ rest) = some (
  flag_if (x == b'x') 4 (flag_if (w == b'w') 2 (flag_if (r == b'r') 1 0)),
  if s == b's' then 1 else 2,
)
get_prot_and_flags_from_perms _ = none

abbrev pub case_of : MapEntry → FilePath → ℕ × ℕ → MmapCase
case_of e p (prot, flags) = record {
  memory_addr = e.start_address;
  length_of =
      (e.end_address + (18_446_744_073_709_551_616 - e.start_address)) % 18_446_744_073_709_551_616;
  prot = prot;
  flags = flags;
  path = p;
  offset = e.offset;
}

abbrev pub put_case : MapEntry → ℕ × ℕ → Option FilePath → List MmapCase → List MmapCase
put_case e perms none cases = cases
put_case e perms (some p) cases = case_of e p perms ∷ cases

abbrev pub after_perms :
    MapEntry → Option FilePath → Option (ℕ × ℕ) → Option (List MmapCase) → Option (List MmapCase)
after_perms e moved none rest = none
after_perms e moved (some perms) none = none
after_perms e moved (some perms) (some cases) = some (put_case e perms moved cases)

-- The mappings of one process in `MmapReplacer::prepare`; `none` is a panic.
unfoldable pub select_maps : FilePath → FilePath → List MapEntry → Option (List MmapCase)
select_maps detect_path new_path [] = some []
select_maps detect_path new_path (e ∷ entries) =
    let rest = select_maps detect_path new_path entries in
    elim e.pathname [
      | other_target ↦ rest
      | path p ↦
          after_perms e (move_path detect_path new_path p) (get_prot_and_flags_from_perms e.perms)
            rest
    ]

-- The processes of `CwdReplacer::prepare`, from those of which the working directory can be read.
unfoldable pub select_cwds : FilePath → List (ℕ × Option FilePath) → List ℕ
select_cwds detect_path [] = []
select_cwds detect_path ((pid, none) ∷ ps) = select_cwds detect_path ps
select_cwds detect_path ((pid, some cwd) ∷ ps) =
    if starts_with cwd detect_path
    then pid ∷ select_cwds detect_path ps
    else select_cwds detect_path ps
