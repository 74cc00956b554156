-- ===== src/Injector/Tests.antt =====
-- The injectors on concrete configurations, over the world of External/Sample.
use toda.Base.{ℕ, ◌^◌, ◌≡◌, ◌<◌, refl, false, ◌&&◌, Option, none, some, List, [], ◌∷◌, ◌++◌, arith}
use toda.Base.Int.{ℤ, pos}
use toda.Action.{ok, err, ◌>>◌}
use toda.Action.Post.{Returns}
use toda.FilePath.{FilePath, root_dir, normal}
use toda.External.Sample.{sample, sample-RngLaws, sample-FloatLaws}
use toda.Hookfs.Errors.{HookFsError}
use toda.Hookfs.Reply.{FileAttr, FileType, SystemTime}
use toda.Injector.Config.{FilterConfig, MistakeConfig, zero_fill}
use toda.Injector.Context.{Context}
use toda.Injector.Method
use toda.Injector.Filter.{build, build_path, match_path, match_method, matches, build_methods}
use toda.Injector.Filter.Mask.{selects, match_method-build_methods}
use toda.Injector.Filter.Certain.{matches-certain, matches-never}
use toda.Injector.Fault
use toda.Injector.Fault.Weights.{Weights, entries, total, weight_of, tally, is_errno, pick-weight}
use toda.Injector.Fault.Certain.{inject-fails, inject-passes, with_faults, weights_of}
use toda.Injector.Mistake.{handle}
use toda.Injector.Mistake.Damage.{Damage}
use toda.Injector.Mistake.Bounds.{handle-Damage}
use toda.Injector.AttrOverride.{Overrides, override_attr}
use toda.Injector.AttrOverride.Fields.{merge, nothing, all_of, with_unreached, override_attr-merge}
use toda.Injector.Multi
use toda.Injector.Multi.{MultiInjector}
use toda.Injector.Multi.Order.{inject-append}

abbrev two_errnos : Weights
two_errnos = (5, 1) ∷ (2, 3) ∷ (5, 2) ∷ []

pick-weight_example : tally 6 (λ k. is_errno 5 (Fault.pick (pos k) (entries two_errnos))) ≡ 3
unfolding total weight_of
pick-weight_example = pick-weight 5 two_errnos (omega arith)

abbrev read_write : Option (List (List ℕ))
read_write = some ((b'r' ∷ b'e' ∷ b'a' ∷ b'd' ∷ []) ∷ (b'w' ∷ b'r' ∷ b'i' ∷ b't' ∷ b'e' ∷ []) ∷ [])

match_method-build_methods_example :
    match_method (build_methods sample read_write) (2 ^ 14) ≡ selects sample read_write 14
match_method-build_methods_example = match_method-build_methods sample read_write 14 (omega arith)

abbrev mounted : List ℕ
mounted = b'/' ∷ b'm' ∷ []

abbrev always : FilterConfig
always = record { path = some mounted; methods = read_write; percent = pos 100 }

abbrev file_path : FilePath
file_path = root_dir ∷ normal (b'm' ∷ []) ∷ normal (b'f' ∷ []) ∷ []

matches-certain_example : (matches sample (build sample always) (2 ^ 14) file_path 12).0 ≡ (
    match_path sample (build_path sample always.path) file_path && selects sample always.methods 14)
matches-certain_example =
    matches-certain sample sample-RngLaws sample-FloatLaws always 14 file_path 12 (omega arith)
      (ground arith)

abbrev never : FilterConfig
never = record { path = none; methods = none; percent = pos 0 }

matches-never_example : (matches sample (build sample never) Method.read file_path 12).0 ≡ false
matches-never_example =
    matches-never sample sample-RngLaws sample-FloatLaws never Method.read file_path 12
      (ground arith)

abbrev anything : FilterConfig
anything = record { path = none; methods = none; percent = pos 100 }

abbrev start : Context sample
start = record { rng = 500; slept = 0 }

abbrev io_error : List (ℤ × ℕ)
io_error = (pos 5, 3) ∷ (pos 2, 1) ∷ []

inject-fails_example :
    (e : ℕ) × ((Fault.inject sample
        (Fault.build sample (with_faults sample anything io_error))
        Method.read
        file_path
        start).0
      ≡ err (HookFsError.sys e))
    × (0 < weight_of e (weights_of sample io_error))
unfolding total weight_of matches build build_path build_methods match_method match_path
inject-fails_example =
    inject-fails sample sample-RngLaws sample-FloatLaws anything io_error Method.read file_path
      start refl (omega arith) (omega arith)

inject-passes_example :
    (Fault.inject sample
      (Fault.build sample (with_faults sample anything ((pos 5, 0) ∷ [])))
      Method.read
      file_path
      start).0
    ≡ ok tt
unfolding total
inject-passes_example =
    inject-passes sample sample-RngLaws sample-FloatLaws anything ((pos 5, 0) ∷ []) Method.read
      file_path start refl

abbrev two_zeros : MistakeConfig
two_zeros = record { filling = zero_fill; max_length = 2; max_occurrences = 2 }

abbrev contents : List ℕ
contents = 1 ∷ 2 ∷ 3 ∷ 4 ∷ 5 ∷ 6 ∷ []

handle-Damage_example :
    Returns (Damage zero_fill 4 contents) (handle sample two_zeros contents start)
handle-Damage_example =
    handle-Damage sample sample-RngLaws two_zeros contents start (omega arith) (omega arith)

abbrev nothing_set : Overrides
nothing_set = record {
  ino = none;
  size = none;
  blocks = none;
  atime = none;
  mtime = none;
  ctime = none;
  kind = none;
  perm = none;
  nlink = none;
  uid = none;
  gid = none;
  rdev = none;
}

abbrev size_set : Overrides
size_set = record nothing_set { size = some 7; uid = some 1 }

abbrev mode_set : Overrides
mode_set = record nothing_set { perm = some 0; uid = some 2 }

abbrev epoch : SystemTime
epoch = record { sec = pos 0; nsec = 0 }

abbrev some_attr : FileAttr
some_attr = record {
  ino = 1;
  size = 2;
  blocks = 3;
  atime = epoch;
  mtime = epoch;
  ctime = epoch;
  crtime = epoch;
  kind = FileType.directory;
  perm = 4;
  nlink = 5;
  uid = 6;
  gid = 7;
  rdev = 8;
  blksize = 9;
  padding = 0;
  flags = 0;
}

abbrev other_attr : FileAttr
other_attr = record some_attr { ino = 7; perm = 0o700; crtime = record { sec = pos 1; nsec = 2 } }

override_attr-merge_example :
    (override_attr nothing some_attr ≡ some_attr)
    × (override_attr (all_of other_attr) some_attr ≡ record other_attr { crtime = epoch })
    × (override_attr mode_set (override_attr size_set some_attr)
        ≡ override_attr (merge mode_set size_set) some_attr)
unfolding with_unreached
override_attr-merge_example = override_attr-merge mode_set size_set some_attr other_attr

abbrev failing : MultiInjector sample
failing = Multi.fault (Fault.build sample (with_faults sample anything io_error)) ∷ []

inject-append_example :
    Multi.inject sample (failing ++ failing) Method.read file_path start
    ≡ (Multi.inject sample failing Method.read file_path
          >> Multi.inject sample failing Method.read file_path)
        start
inject-append_example = inject-append sample failing failing Method.read file_path start
