-- ===== src/Replacer/Layout.antt =====
-- `ReplaceCase` and `ProcessAccessorBuilder` of src/replacer/fd_replacer.rs and mmap_replacer.rs: the
-- cases, and the new paths as C strings one after another, which the cases point into.
pub mod Strings
pub mod Cases
use toda.Base.{ℕ, ◌+◌, Option, none, some, List, [], ◌∷◌, ◌++◌, length, take, drop, if◌then◌else◌}
use toda.FilePath.{FilePath, as_bytes, utf8}

-- `std::io::Cursor<Vec<u8>>`
pub record Cursor : Type 0 where
  pub inner : List ℕ
  pub position : ℕ

abbrev pub new_cursor : Cursor
new_cursor = record { inner = []; position = 0 }

-- `write_all` overwrites what stands at the position, and moves behind it.
unfoldable pub write_all : List ℕ → Cursor → Cursor
write_all bytes c = record {
  inner = take c.position c.inner ++ bytes ++ drop (c.position + length bytes) c.inner;
  position = c.position + length bytes;
}

pub record FdCase : Type 0 where
  pub fd : ℕ
  pub new_path_offset : ℕ

-- `ReplaceCase` of the mmap replacer, before its path is placed, and `RawReplaceCase`.
pub record MmapCase : Type 0 where
  pub memory_addr : ℕ
  pub length_of : ℕ
  pub prot : ℕ
  pub flags : ℕ
  pub path : FilePath
  pub offset : ℕ

pub record RawCase : Type 0 where
  pub memory_addr : ℕ
  pub length_of : ℕ
  pub prot : ℕ
  pub flags : ℕ
  pub new_path_offset : ℕ
  pub offset : ℕ

pub record Builder (C : Type 0) : Type 0 where
  pub cases : List C
  pub new_paths : Cursor

abbrev pub new_builder : {C : Type 0} → Builder C
new_builder = record { cases = []; new_paths = new_cursor }

-- `PathBuf::to_str`
unfoldable pub to_str : FilePath → Option (List ℕ)
to_str path = if utf8 (as_bytes path) then some (as_bytes path) else none

-- What `push_case` does with the bytes of the path: `none` is its error.
abbrev pub push_bytes : {C : Type 0} → (ℕ → C) → Option (List ℕ) → Builder C → Option (Builder C)
push_bytes case none b = none
push_bytes case (some bytes) b = some (record {
  cases = b.cases ++ case b.new_paths.position ∷ [];
  new_paths = write_all (bytes ++ 0 ∷ []) b.new_paths;
})

unfoldable pub push_fd_case : ℕ → FilePath → Builder FdCase → Option (Builder FdCase)
push_fd_case fd new_path b =
    push_bytes (λ offset. record { fd = fd; new_path_offset = offset }) (to_str new_path) b

abbrev pub raw_case : MmapCase → ℕ → RawCase
raw_case c at = record {
  memory_addr = c.memory_addr;
  length_of = c.length_of;
  prot = c.prot;
  flags = c.flags;
  new_path_offset = at;
  offset = c.offset;
}

unfoldable pub push_mmap_case : MmapCase → Builder RawCase → Option (Builder RawCase)
push_mmap_case c b = push_bytes (raw_case c) (to_str c.path) b

-- A case that cannot be pushed is left out.
abbrev pub or_kept : {C : Type 0} → Builder C → Option (Builder C) → Builder C
or_kept b none = b
or_kept b (some b') = b'

-- `FromIterator for ProcessAccessorBuilder`
unfoldable pub fds_from_iter : List (ℕ × FilePath) → Builder FdCase → Builder FdCase
fds_from_iter [] b = b
fds_from_iter ((fd, path) ∷ items) b = fds_from_iter items (or_kept b (push_fd_case fd path b))

unfoldable pub maps_from_iter : List MmapCase → Builder RawCase → Builder RawCase
maps_from_iter [] b = b
maps_from_iter (c ∷ items) b = maps_from_iter items (or_kept b (push_mmap_case c b))
