-- ===== src/Jsonrpc.antt =====
-- src/jsonrpc.rs: the two calls by which a controller asks for the status and replaces the injectors.
-- The transport is the library's.
pub mod Updates
mod Tests
use toda.Base.{ℕ, ◌+◌, Bool, true, false, Option, none, some, List, [], ◌∷◌, if◌then◌else◌}
use toda.Injector.Config.{InjectorConfig, Text}
use toda.Injector.Multi
use toda.Injector.Multi.{MultiInjector}
use toda.Hookfs.Os.{Platform}
use toda.Hookfs.State.{HookFs}

-- `RpcImpl` with the text of the error that its status holds, if any, and the channel: whether its
-- receiver lives, and how many times `Comm::Shutdown` was sent. A panic that holds the status's lock
-- poisons it, and every later call panics.
pub record RpcImpl (p : Platform) : Type 0 where
  pub status : Option Text
  pub poisoned : Bool
  pub receiving : Bool
  pub shutdowns : ℕ
  pub hookfs : Option (HookFs p)

-- A text, or a panic of the call.
pub data Response : Type 0 where
  text : Text → Response
  panicked : Response

abbrev pub ok_text : Text
ok_text = b'o' ∷ b'k' ∷ []

module _ (p : Platform) where
  abbrev pub send_shutdown : Text → RpcImpl p → Response × RpcImpl p
  send_shutdown e rpc =
      if rpc.receiving
      then (text e, record rpc { shutdowns = rpc.shutdowns + 1 })
      else (panicked, record rpc { poisoned = true })

  abbrev pub status_of : Option Text → RpcImpl p → Response × RpcImpl p
  status_of none rpc = (text ok_text, rpc)
  status_of (some e) rpc = send_shutdown e rpc

  abbrev pub unless_poisoned : Bool → Response × RpcImpl p → RpcImpl p → Response × RpcImpl p
  unless_poisoned true answered rpc = (panicked, rpc)
  unless_poisoned false answered rpc = answered

  -- `get_status`
  unfoldable pub get_status : RpcImpl p → Response × RpcImpl p
  get_status rpc = unless_poisoned rpc.poisoned (status_of rpc.status rpc) rpc

  abbrev pub with_injector : MultiInjector p.external → HookFs p → HookFs p
  with_injector injector fs = record fs { injector = injector }

  abbrev pub set_injector :
      MultiInjector p.external → Option (HookFs p) → RpcImpl p → Response × RpcImpl p
  set_injector injector none rpc = (panicked, rpc)
  set_injector injector (some fs) rpc =
      (text ok_text, record rpc { hookfs = some (with_injector injector fs) })

  abbrev pub update_at : Option Text → List InjectorConfig → RpcImpl p → Response × RpcImpl p
  update_at (some e) config rpc = (text e, rpc)
  update_at none config rpc = set_injector (Multi.build p.external config) rpc.hookfs rpc

  -- `update`; no configuration fails to build.
  unfoldable pub update : List InjectorConfig → RpcImpl p → Response × RpcImpl p
  update config rpc = unless_poisoned rpc.poisoned (update_at rpc.status config rpc) rpc

-- A call of the controller.
pub data RpcCall : Type 0 where
  get_status_call : RpcCall
  update_call : List InjectorConfig → RpcCall

unfoldable pub answer : (p : Platform) → RpcCall → RpcImpl p → Response × RpcImpl p
answer p get_status_call rpc = get_status p rpc
answer p (update_call config) rpc = update p config rpc

-- The calls of a session, one after another.
unfoldable pub answer_all : (p : Platform) → List RpcCall → RpcImpl p → RpcImpl p
answer_all p [] rpc = rpc
answer_all p (c ∷ cs) rpc = answer_all p cs (answer p c rpc).1
