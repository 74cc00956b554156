-- ===== src/Jsonrpc/Tests.antt =====
-- A session with the controller, over the platform of Hookfs/Os/Sample.
use toda.Base.{◌≡◌, refl, true, false, none, some, List, [], ◌∷◌}
use toda.Base.Int.{pos}
use toda.FilePath.{root_dir}
use toda.Injector.Config.{InjectorConfig}
use toda.Hookfs.Os.Sample.{sample_platform}
use toda.Hookfs.State.{HookFs, new}
use toda.Jsonrpc.{RpcImpl, RpcCall, get_status_call, update_call, answer_all, with_injector}
use toda.Jsonrpc.Updates.{last_update, answer_all-last_update, answer_all-bad_status}

abbrev slow : InjectorConfig
slow =
    InjectorConfig.latency
      (record { filter = record { path = none; methods = none; percent = pos 100 }; latency = 7 })

abbrev mounted : HookFs sample_platform
mounted = new sample_platform (root_dir ∷ []) (root_dir ∷ []) []

abbrev good : RpcImpl sample_platform
good = record {
  status = none;
  poisoned = false;
  receiving = true;
  shutdowns = 0;
  hookfs = some mounted;
}

abbrev bad : RpcImpl sample_platform
bad = record good { status = some (b'e' ∷ []) }

abbrev session : List RpcCall
session = get_status_call ∷ update_call (slow ∷ []) ∷ get_status_call ∷ []

answer_all-last_update_example :
    ((answer_all sample_platform session good).hookfs
      ≡ some (with_injector sample_platform (last_update sample_platform session []) mounted))
    × ((answer_all sample_platform session good).shutdowns ≡ 0)
unfolding new
answer_all-last_update_example =
    answer_all-last_update sample_platform session good mounted refl refl refl

answer_all-bad_status_example : (answer_all sample_platform session bad).hookfs ≡ some mounted
answer_all-bad_status_example = answer_all-bad_status sample_platform session bad (b'e' ∷ []) refl
