-- ===== src/Hookfs/Dirs/Tests.antt =====
-- A directory of three entries, read into a buffer with room for two.
use toda.Base.{arith, [], ◌∷◌, drop}
use toda.Hookfs.Os.{DirBuffer}
use toda.Hookfs.Os.Sample.{sample_platform}
use toda.Hookfs.Utils.{DirType}
use toda.Hookfs.Dirs.{fill_page}
use toda.Hookfs.Dirs.Pages.{Known, outcomes, shown, BufferLaws, Page, fill_page-Page}

abbrev two_slots : DirBuffer
two_slots = sample_platform.replies

two_slots-BufferLaws : BufferLaws two_slots (λ buffer. buffer)
two_slots-BufferLaws = record {
  added = λ ino offset kind name buffer h. ground arith;
  unfit = λ ino offset kind name buffer h. ground arith;
}

abbrev three_entries : Known
three_entries =
    (5, (DirType.directory, b'.' ∷ []))
    ∷ (6, (DirType.file, b'a' ∷ []))
    ∷ (7, (DirType.symlink, b'b' ∷ []))
    ∷ []

fill_page-Page_example :
    Page two_slots
      (λ buffer. buffer)
      two_slots-BufferLaws
      []
      (drop 1 (shown 0 three_entries))
      (fill_page two_slots 1 (outcomes three_entries) [])
fill_page-Page_example =
    fill_page-Page two_slots (λ buffer. buffer) two_slots-BufferLaws 1 three_entries []
