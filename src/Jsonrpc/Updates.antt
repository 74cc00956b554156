-- ===== src/Jsonrpc/Updates.antt =====
-- What a session with the controller leaves of the file system (src/jsonrpc.rs).
use toda.Base.{
  subst, ◌≡◌, refl, ap, ◌∙◌, sym, Bool, true, false, none, some, List, [], ◌∷◌, Bool-cases, arith,
  inl, inr,
}
use toda.Injector.Config.{InjectorConfig, Text}
use toda.Injector.Multi
use toda.Injector.Multi.{MultiInjector}
use toda.Hookfs.Os.{Platform}
use toda.Hookfs.State.{HookFs}
use toda.Jsonrpc.{
  unless_poisoned, status_of, set_injector, update_at, send_shutdown, RpcImpl, RpcCall,
  get_status_call, update_call, get_status, update, answer, answer_all, with_injector,
}

module _ (p : Platform) where
  -- The injectors of the last update of a session, if there was one.
  unfoldable pub last_update : List RpcCall → MultiInjector p.external → MultiInjector p.external
  last_update [] injector = injector
  last_update (get_status_call ∷ cs) injector = last_update cs injector
  last_update (update_call config ∷ cs) injector = last_update cs (Multi.build p.external config)

  asked :
      (rpc : RpcImpl p)
      → rpc.poisoned ≡ false
      → rpc.status ≡ none
      → (answer p get_status_call rpc).1 ≡ rpc
  unfolding answer get_status
  asked rpc clean good =
      ap (λ b. (unless_poisoned p b (status_of p rpc.status rpc) rpc).1) clean
      ∙ ap (λ o. (status_of p o rpc).1) good

  updated :
      (config : List InjectorConfig) (rpc : RpcImpl p) (fs : HookFs p)
      → rpc.poisoned ≡ false
      → rpc.status ≡ none
      → rpc.hookfs ≡ some fs
      → (answer p (update_call config) rpc).1
        ≡ record rpc { hookfs = some (with_injector p (Multi.build p.external config) fs) }
  unfolding answer update
  updated config rpc fs clean good here =
      ap (λ b. (unless_poisoned p b (update_at p rpc.status config rpc) rpc).1) clean
      ∙ ap (λ o. (update_at p o config rpc).1) good
      ∙ ap (λ h. (set_injector p (Multi.build p.external config) h rpc).1) here

  refused_at :
      (b : Bool) (config : List InjectorConfig) (rpc : RpcImpl p) (e : Text)
      → rpc.status ≡ some e
      → (unless_poisoned p b (update_at p rpc.status config rpc) rpc).1 ≡ rpc
  refused_at true config rpc e bad = refl
  refused_at false config rpc e bad = ap (λ o. (update_at p o config rpc).1) bad

  Kept : RpcImpl p → RpcImpl p → Type 0
  Kept rpc t = (t.hookfs ≡ rpc.hookfs) × (t.status ≡ rpc.status)

  sent : (e : Text) (rpc : RpcImpl p) → Kept rpc (send_shutdown p e rpc).1
  unfolding Kept
  sent e rpc = elim (Bool-cases rpc.receiving) [ inl h ↦ ground arith | inr h ↦ ground arith ]

  reported_at :
      (b : Bool) (rpc : RpcImpl p) (e : Text)
      → rpc.status ≡ some e
      → Kept rpc (unless_poisoned p b (status_of p rpc.status rpc) rpc).1
  unfolding Kept
  reported_at true rpc e bad = (refl, refl)
  reported_at false rpc e bad = subst (λ o. Kept rpc (status_of p o rpc).1) (sym bad) (sent e rpc)

  kept :
      (c : RpcCall) (rpc : RpcImpl p) (e : Text) → rpc.status ≡ some e → Kept rpc (answer p c rpc).1
  unfolding answer get_status update Kept
  kept get_status_call rpc e bad = reported_at rpc.poisoned rpc e bad
  kept (update_call config) rpc e bad =
      subst (Kept rpc) (sym (refused_at rpc.poisoned config rpc e bad)) (refl, refl)

  -- While the status is good and its lock is not poisoned, a session leaves the file system as it was but for the injectors, which
  -- are those of the last update, and never asks for a shutdown.
  pub answer_all-last_update :
      (cs : List RpcCall) (rpc : RpcImpl p) (fs : HookFs p)
      → rpc.poisoned ≡ false
      → rpc.status ≡ none
      → rpc.hookfs ≡ some fs
      → ((answer_all p cs rpc).hookfs ≡ some (with_injector p (last_update cs fs.injector) fs))
        × ((answer_all p cs rpc).shutdowns ≡ rpc.shutdowns)
  unfolding answer_all last_update
  answer_all-last_update [] rpc fs clean good here = (here, refl)
  answer_all-last_update (get_status_call ∷ cs) rpc fs clean good here =
      subst
        (λ t.
          ((answer_all p cs t).hookfs ≡ some (with_injector p (last_update cs fs.injector) fs))
          × ((answer_all p cs t).shutdowns ≡ rpc.shutdowns))
        (sym (asked rpc clean good)) (answer_all-last_update cs rpc fs clean good here)
  answer_all-last_update (update_call config ∷ cs) rpc fs clean good here =
      subst
        (λ t.
          ((answer_all p cs t).hookfs
            ≡ some (with_injector p (last_update cs (Multi.build p.external config)) fs))
          × ((answer_all p cs t).shutdowns ≡ rpc.shutdowns))
        (sym (updated config rpc fs clean good here))
        (answer_all-last_update cs _ (with_injector p (Multi.build p.external config) fs) clean good
          refl)

  -- Once the status is bad, no session changes the file system.
  pub answer_all-bad_status :
      (cs : List RpcCall) (rpc : RpcImpl p) (e : Text)
      → rpc.status ≡ some e
      → (answer_all p cs rpc).hookfs ≡ rpc.hookfs
  unfolding answer_all Kept
  answer_all-bad_status [] rpc e bad = refl
  answer_all-bad_status (c ∷ cs) rpc e bad =
      let (same, still) = kept c rpc e bad in
      answer_all-bad_status cs (answer p c rpc).1 e (still ∙ bad) ∙ same
