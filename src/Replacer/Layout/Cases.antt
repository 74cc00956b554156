-- ===== src/Replacer/Layout/Cases.antt =====
-- What the two builders hold: their cases, each with the path that the code will find for it.
use toda.Base.{ℕ, ◌≡◌, refl, ap, ◌∙◌, Option, List, [], ◌∷◌, map, All, nat_eq}
use toda.FilePath.{FilePath}
use toda.Replacer.Layout.{
  Builder, new_builder, FdCase, MmapCase, RawCase, to_str, push_fd_case, or_kept, fds_from_iter,
  maps_from_iter, push_mmap_case,
}
use toda.Replacer.Layout.Strings.{fill, fill-wanted, viewed, wanted, ZeroFree}

-- The items of the fd replacer, with their paths in bytes.
abbrev pub fd_items : List (ℕ × FilePath) → List (ℕ × Option (List ℕ))
fd_items items = map (λ i. (i.0, to_str i.1)) items

abbrev fd_case : ℕ → ℕ → FdCase
fd_case fd offset = record { fd = fd; new_path_offset = offset }

-- The cases of a builder, each with the C string that its offset leads to.
abbrev pub fds_of : Builder FdCase → List (ℕ × List ℕ)
fds_of b = viewed fd_case (λ c. c.fd) (λ c. c.new_path_offset) b

fds-fill :
    (items : List (ℕ × FilePath)) (b : Builder FdCase)
    → fds_from_iter items b ≡ fill fd_case (λ c. c.fd) (λ c. c.new_path_offset) (fd_items items) b
unfolding fds_from_iter push_fd_case fill
fds-fill [] b = refl
fds-fill ((fd, path) ∷ items) b = fds-fill items (or_kept b (push_fd_case fd path b))

-- The cases that the fd replacer builds, each with the C string at its offset, are the descriptors
-- with UTF-8 paths, in order, each with its new path. The paths have no zero byte.
pub fds_from_iter-wanted :
    (items : List (ℕ × FilePath))
    → All (λ i. ZeroFree i.1) (fd_items items)
    → fds_of (fds_from_iter items new_builder) ≡ wanted (fd_items items)
fds_from_iter-wanted items h =
    ap fds_of (fds-fill items new_builder)
    ∙ fill-wanted fd_case (λ c. c.fd) (λ c. c.new_path_offset) (λ d o. refl) (λ d o. refl)
        (fd_items items) [] [] [] h (λ rest. refl)

-- The fields of a mapping: address, length, protection, flags and offset in the file.
abbrev pub Mapping : Type 0
Mapping = ℕ × ℕ × ℕ × ℕ × ℕ

abbrev pub mapping : MmapCase → Mapping
mapping c = (c.memory_addr, c.length_of, c.prot, c.flags, c.offset)

abbrev pub raw_mapping : RawCase → Mapping
raw_mapping c = (c.memory_addr, c.length_of, c.prot, c.flags, c.offset)

abbrev pub map_items : List MmapCase → List (Mapping × Option (List ℕ))
map_items items = map (λ c. (mapping c, to_str c.path)) items

abbrev placed : Mapping → ℕ → RawCase
placed d at = record {
  memory_addr = d.0;
  length_of = d.1;
  prot = d.2;
  flags = d.3;
  new_path_offset = at;
  offset = d.4;
}

abbrev pub maps_of : Builder RawCase → List (Mapping × List ℕ)
maps_of b = viewed placed raw_mapping (λ c. c.new_path_offset) b

maps-fill :
    (items : List MmapCase) (b : Builder RawCase)
    → maps_from_iter items b ≡ fill placed raw_mapping (λ c. c.new_path_offset) (map_items items) b
unfolding maps_from_iter push_mmap_case fill
maps-fill [] b = refl
maps-fill (c ∷ items) b = maps-fill items (or_kept b (push_mmap_case c b))

-- The same of the mmap replacer: its cases are the mappings of files with UTF-8 paths, in order, each
-- with its address, length, protection, flags and offset, and its new path.
pub maps_from_iter-wanted :
    (items : List MmapCase)
    → All (λ i. ZeroFree i.1) (map_items items)
    → maps_of (maps_from_iter items new_builder) ≡ wanted (map_items items)
maps_from_iter-wanted items h =
    ap maps_of (maps-fill items new_builder)
    ∙ fill-wanted placed raw_mapping (λ c. c.new_path_offset) (λ d o. refl) (λ d o. refl)
        (map_items items) [] [] [] h (λ rest. refl)
