-- ===== src/Hookfs/Tests.antt =====
-- The file system on a concrete platform (Os/Sample): a tree below `/o` that is shown below `/m`.
use toda.Base.{
  ℕ, ◌==◌, ◌+◌, ◌*◌, ◌≡◌, ◌≢◌, ◌<◌, refl, Bool, true, false, not, ◌&&◌, ◌||◌, Option, none, some,
  List, [], ◌∷◌, ◌++◌, All, arith, leb, length, if◌then◌else◌, nat_eq,
}
use toda.Base.Int.{ℤ, pos, negsuc}
use toda.Action.{◌>>=◌, ◌>>◌, ok}
use toda.FilePath.{FilePath, Component, root_dir, normal, join, path_beq, component_eq, parse}
use toda.External.Sample.{sample, sample-RngLaws, sample-FloatLaws}
use toda.Injector.Context.{Context}
use toda.Injector.Config.{FilterConfig, InjectorConfig, MistakesConfig, zero_fill}
use toda.Injector.Multi
use toda.Injector.Multi.{MultiInjector}
use toda.Hookfs.Errors.{HookFsError, into_c_int}
use toda.Hookfs.Reply.{reply_ok, dropped}
use toda.Hookfs.InodeMap.{get_path, insert_path}
use toda.Hookfs.Os.{File, Dir}
use toda.Hookfs.Os.Sample.{get, sample_platform, sample_slab-SlabLaws}
use toda.Hookfs.State.{State, new, set_injection, rebuild_path, file_of}
use toda.Hookfs.Inject.{inject_write_data, inject_with_ino, inject, if_enabled, rebuilt}
use toda.Hookfs.Service.{Request, serve, serve_all, empty}
use toda.Hookfs.Service
use toda.Hookfs.Service.Request.{lookup, getattr, open_file, release, releasedir, mkdir, forget}
use toda.Hookfs.Rooted.{IsRooted}
use toda.Hookfs.Rooted.Stays.{IsRelativeRequest, serve_all-IsRooted}
use toda.Hookfs.Rooted.Shown.{rebuild_path-get_path}
use toda.Hookfs.Quiet.{IsQuiet, WritesNothing, serve_all-IsQuiet}
use toda.Hookfs.Refusals.{first_injection, served_error}
use toda.Hookfs.Refusals.Prevented.{serve-first_injection}
use toda.Hookfs.Handles.{serve-release_unknown, serve-releasedir_unknown, serve-release_known}
use toda.Hookfs.Handles.Opened.{serve-release_twice}
use toda.Hookfs.Switch.{switched, inject_write_data-altered}
use toda.Hookfs.Stable.Requests.{Allowed}

abbrev mount : FilePath
mount = root_dir ∷ normal (b'm' ∷ []) ∷ []

abbrev original : FilePath
original = root_dir ∷ normal (b'o' ∷ []) ∷ []

abbrev all_calls : FilterConfig
all_calls = record { path = none; methods = none; percent = pos 100 }

abbrev io_errors : InjectorConfig
io_errors =
    InjectorConfig.fault
      (record { filter = all_calls; faults = record { errno = pos 5; weight = pos 1 } ∷ [] })

abbrev injectors : MultiInjector sample
injectors = Multi.build sample (io_errors ∷ [])

abbrev context : Context sample
context = record { rng = 500; slept = 0 }

abbrev fresh : State sample_platform
fresh = record { fs = new sample_platform mount original injectors; world = 0; context = context }

abbrev child_name : List ℕ
child_name = b'a' ∷ []

abbrev requests : List (Request sample_platform)
requests =
    lookup 1 child_name ∷ open_file 3 0 ∷ mkdir 3 child_name 0 0 0 ∷ release 0 ∷ forget 3 1 ∷ []

serve_all-IsRooted_example :
    IsRooted sample_platform mount original (serve_all sample_platform requests fresh)
unfolding IsRelativeRequest Allowed toda.FilePath.is_absolute parse
serve_all-IsRooted_example =
    serve_all-IsRooted sample_platform mount original (sample_slab-SlabLaws File)
      (sample_slab-SlabLaws Dir) injectors 0 context requests (refl, (tt, (refl, (tt, (tt, tt)))))

rebuild_path-get_path_example :
    (q : FilePath) × (original ≡ original ++ q)
    × (rebuild_path sample_platform (serve_all sample_platform [] fresh).fs original
        ≡ ok (join mount q))
unfolding serve_all new insert_path get_path
rebuild_path-get_path_example =
    rebuild_path-get_path sample_platform mount original (serve_all sample_platform [] fresh)
      (serve_all-IsRooted sample_platform mount original (sample_slab-SlabLaws File)
        (sample_slab-SlabLaws Dir) injectors 0 context [] tt)
      1 original refl

serve_all-IsQuiet_example : IsQuiet sample_platform context (
    serve_all sample_platform requests
      (record fresh { fs = set_injection sample_platform false fresh.fs }))
unfolding WritesNothing Allowed
serve_all-IsQuiet_example =
    serve_all-IsQuiet sample_platform fresh requests (tt, (tt, (tt, (tt, (tt, tt)))))

abbrev injecting : State sample_platform
injecting = record fresh { fs = record fresh.fs { enable_injection = true } }

serve-first_injection_example :
    (served_error (serve sample_platform (getattr 1) injecting).0
      ≡ some (into_c_int (HookFsError.sys 5)))
    × ((serve sample_platform (getattr 1) injecting).1.fs ≡ injecting.fs)
    × ((serve sample_platform (getattr 1) injecting).1.world ≡ 0)
unfolding first_injection inject_with_ino get_path insert_path new inject if_enabled rebuilt
    rebuild_path ◌>>=◌ ◌>>◌ toda.FilePath.strip_prefix toda.Hookfs.State.injecting Multi.inject
    Multi.build toda.Injector.Fault.inject toda.Injector.Context.hits toda.Injector.Filter.matches
    toda.Injector.Fault.build toda.Injector.Filter.build toda.Injector.Fault.inject_fault
    toda.Injector.Fault.pick toda.Base.Int.wrap_i32 toda.Base.Int.◌-ℤ◌
    toda.Injector.Fault.sum_weights toda.Base.Int.◌+ℤ◌
serve-first_injection_example =
    serve-first_injection sample_platform (getattr 1) injecting (HookFsError.sys 5) refl

abbrev opened : State sample_platform
opened = record fresh {
  fs = record fresh.fs { opened_files = some (record { fd = 3; original_path = original }) ∷ [] };
}

serve-release_known_example :
    let (answer, t) = serve sample_platform (release 0) opened in
    (answer ≡ empty (reply_ok tt))
    × (sample_platform.files.get 0 t.fs.opened_files ≡ none)
    × ((k : ℕ)
        → k ≢ 0
        → sample_platform.files.get k t.fs.opened_files
          ≡ sample_platform.files.get k opened.fs.opened_files)
    × (t.world ≡ 1)
unfolding get new
serve-release_known_example =
    serve-release_known sample_platform (sample_slab-SlabLaws File) (sample_slab-SlabLaws Dir) 0
      opened (record { fd = 3; original_path = original }) refl refl

serve-release_unknown_example : serve sample_platform (release 9) opened ≡ (empty dropped, opened)
unfolding get new
serve-release_unknown_example =
    serve-release_unknown sample_platform (sample_slab-SlabLaws File) (sample_slab-SlabLaws Dir) 9
      opened refl

serve-releasedir_unknown_example :
    serve sample_platform (releasedir 0) opened ≡ (empty dropped, opened)
unfolding get new
serve-releasedir_unknown_example =
    serve-releasedir_unknown sample_platform (sample_slab-SlabLaws File) (sample_slab-SlabLaws Dir)
      0 opened refl

serve-release_twice_example :
    let (answer, t) = serve sample_platform (release 0) opened in
    let (second, u) = serve sample_platform (release 0) t in
    (answer ≡ empty (reply_ok tt)) × (second ≡ empty dropped) × (u ≡ t) × (t.world ≡ 1)
unfolding get
serve-release_twice_example =
    serve-release_twice sample_platform (sample_slab-SlabLaws File) 0 opened
      (record { fd = 3; original_path = original }) refl refl

-- The only injector fills in zeros where a file below `/m` is written.
abbrev zeroing : MistakesConfig
zeroing = record {
  mistake = record { filling = zero_fill; max_length = 1; max_occurrences = 1 };
  filter = record all_calls { path = some (b'/' ∷ b'm' ∷ []) };
}

abbrev zeroing_state : State sample_platform
zeroing_state = record opened {
  fs = record opened.fs { injector = Multi.build sample (InjectorConfig.mistake zeroing ∷ []) };
}

inject_write_data-altered_example :
    (ys : List ℕ) × ((inject_write_data sample_platform 0 (1 ∷ 2 ∷ []) zeroing_state).0 ≡ ok ys)
    × ((inject_write_data sample_platform 0
          (1 ∷ 2 ∷ [])
          (switched sample_platform true zeroing_state)).0
        ≡ ok ys)
    × (length ys ≡ 2)
    × (ys ≢ 1 ∷ 2 ∷ [])
unfolding join new get rebuild_path toda.FilePath.strip_prefix toda.Injector.Filter.match_path
    toda.Injector.Filter.build_path toda.FilePath.starts_with parse
    toda.Injector.Filter.Mask.selects
inject_write_data-altered_example =
    inject_write_data-altered sample_platform sample-RngLaws sample-FloatLaws zeroing mount
      (omega arith) refl refl refl (omega arith) (omega arith) (omega arith) (1 ∷ 2 ∷ [])
      (omega arith) (omega arith) 0 zeroing_state (record { fd = 3; original_path = original }) true
      refl refl refl refl
