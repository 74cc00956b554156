-- ===== src/Mount/Injector.antt =====
-- src/mount_injector.rs, and the calls of src/mount.rs that move and bind mounts. The thread that
-- serves the file system is run up to where it serves, and its exit kept for the join.
use toda.Base.{Option, none, some, List, if◌then◌else◌}
use toda.Task.{Task, Exit, returns, ⊤, ◌>>=◌, ◌>>◌, pure, throw, unwrapped}
use toda.FilePath.{FilePath, parent, file_name, utf8, join, parse}
use toda.Injector.Config.{InjectorConfig}
use toda.Injector.Multi
use toda.Hookfs.Os.{Platform}
use toda.Hookfs.State.{HookFs, new}
use toda.Mount.{MountsInfo, non_root}
use toda.Mount.Encode.{hidden_name}
use toda.Mount.System.{
  MountSystem, MountError, root_mount, path_is_root, no_file_name, not_utf8, handler_is_empty,
  called,
}

pub record MountInjector : Type 0 where
  pub original_path : FilePath
  pub new_path : FilePath
  pub injector_config : List InjectorConfig

pub data Created : Type 0 where
  created : MountInjector → Created
  refused : MountError → Created

unfoldable pub create_injection : FilePath → List InjectorConfig → Created
create_injection path config = elim (parent path) [
  | none ↦ refused path_is_root
  | some base ↦ (elim (file_name path) [
    | none ↦ refused no_file_name
    | some w ↦
        if utf8 w
        then created (record {
          original_path = path;
          new_path = join base (parse (hidden_name w));
          injector_config = config;
        })
        else refused not_utf8
  ])
]

module _ (x : MountSystem) where
  open x use {World, mountinfo, create_dir_all, mount_move, mount_bind, umount, fuse_mount, retry}

  -- `MountsInfo::parse_mounts`
  unfoldable pub parse_mounts : Task MountError World MountsInfo
  parse_mounts = called mountinfo >>= λ mounts. pure (record { mounts = mounts })

  unfoldable pub move_mount : FilePath → FilePath → Task MountError World ⊤
  move_mount original target = called (create_dir_all target) >> called (mount_move original target)

  unfoldable pub bind_mount : FilePath → FilePath → Task MountError World ⊤
  bind_mount original target =
      unwrapped (called (mount_bind original target)) >> called (retry 500 20 (umount original))

  -- A thread that is waited for: the exit of its body is what `join` gives.
  unfoldable pub spawn :
      {A : Type 0} → Task MountError World A → Task MountError World (Exit MountError A)
  spawn m w = let (r, w') = m w in (returns r, w')

  -- `handler.join().unwrap()?`
  abbrev pub joined : {A : Type 0} → Exit MountError A → Task MountError World A
  joined r w = (r, w)

  module _ (p : Platform) where
    pub record Guard : Type 0 where
      pub original_path : FilePath
      pub new_path : FilePath
      pub hookfs : HookFs p
      pub handler : Option (Exit MountError ⊤)

    abbrev pub guard_of : MountInjector → Exit MountError ⊤ → Guard
    guard_of m handler = record {
      original_path = m.original_path;
      new_path = m.new_path;
      hookfs = new p m.original_path m.new_path (Multi.build p.external m.injector_config);
      handler = some handler;
    }

    -- `MountInjector::mount`. After it has served, the thread takes the runtime out of `RUNTIME` and
    -- unwraps it, which panics only in a process that has done so before: the model has one session.
    unfoldable pub mount : MountInjector → Task MountError World Guard
    mount m = parse_mounts >>= λ mounts.
        if non_root mounts m.original_path
        then (move_mount m.original_path m.new_path
            >> spawn (called (create_dir_all m.new_path) >> called (fuse_mount m.original_path))
            >>= λ handler. pure (guard_of m handler))
        else throw root_mount

    abbrev pub join_handler : Option (Exit MountError ⊤) → Task MountError World ⊤
    join_handler none = throw handler_is_empty
    join_handler (some r) = joined r

    -- `MountInjectionGuard::recover_mount`
    unfoldable pub recover_mount : Guard → Task MountError World ⊤
    recover_mount g =
        called (retry 500 20 (umount g.original_path))
        >> join_handler g.handler
        >> parse_mounts
        >>= λ mounts.
            if non_root mounts g.original_path
            then bind_mount g.new_path g.original_path
            else throw root_mount
