-- ===== src/Mount/Recovered.antt =====
-- Mounting and recovering: what is mounted afterwards is what was mounted before.
use toda.Base.{
  ◌≡◌, refl, sym, ap, ◌∙◌, subst, Bool, true, false, Option, none, some, List, ◌∷◌, if◌then◌else◌,
}
use toda.Task.{Task, Exit, returns, fails, panics, runs_on, ⊤, ◌>>=◌, ◌>>◌, pure, throw}
use toda.Task.Steps.{Returns, Returns->>=, Returns->>}
use toda.FilePath.{FilePath, path_beq}
use toda.Hookfs.Os.{Platform}
use toda.Mount.{MountsInfo, non_root}
use toda.Mount.System.{
  MountSystem, MountError, root_mount, called, MountLaws, Table, Origin, shown, push, pop,
}
use toda.Mount.Tables.{injected, uncovered, recovered, recovered-eq}
use toda.Mount.Makes.{
  Makes, called-Makes, retry_table, Makes-then, move_mount-Makes, serve-Makes, bind_mount-Makes,
  parse_mounts-Makes,
}
use toda.Mount.Injector.{
  MountInjector, Guard, guard_of, mount, recover_mount, parse_mounts, move_mount, bind_mount, spawn,
  join_handler,
}

-- What holds if the thread's exit is a success.
abbrev pub Served : Option (Exit MountError ⊤) → Type 0 → Type 0
Served (some (returns t)) P = P
Served _ P = Unit

module _ (x : MountSystem) (laws : MountLaws x) where
  open x use {World, create_dir_all, umount, fuse_mount, retry}
  open laws use {table}

  spawned :
      (r : Exit MountError ⊤ × World) (t : Table)
      → Returns (λ _ w. table w ≡ t) r
      → Served (some r.0) (table r.1 ≡ t)
  spawned (returns u, w) t h = h
  spawned (fails e, w) t h = tt
  spawned (panics, w) t h = tt
  spawned (runs_on, w) t h = tt

  test-Returns :
      {A : Type 0} (Q : A → World → Type 0) (b : Bool) (m : Task MountError World A)
      (e : MountError) (w : World)
      → Returns Q (m w)
      → Returns Q ((if b then m else throw e) w)
  test-Returns Q true m e w h = h
  test-Returns Q false m e w h = tt

  module _ (p : Platform) where
    -- The guard is for these paths, and if the file system is served, the table is this one.
    abbrev pub Guards : MountInjector → Table → Guard x p → World → Type 0
    Guards m t g w =
        (g.original_path ≡ m.original_path)
        × (g.new_path ≡ m.new_path)
        × Served g.handler (table w ≡ t)

    abbrev serving : MountInjector → Task MountError World ⊤
    serving m = called (create_dir_all m.new_path) >> called (fuse_mount m.original_path)

    abbrev moving : MountInjector → Task MountError World (Guard x p)
    moving m = move_mount x m.original_path m.new_path >> spawn x (serving m) >>= λ handler.
        pure (guard_of x p m handler)

    abbrev mounting : MountInjector → MountsInfo → Task MountError World (Guard x p)
    mounting m mounts = if non_root mounts m.original_path then moving m else throw root_mount

    spawn-Served :
        (m : MountInjector) (t : Table) (w : World)
        → table w ≡ push m.new_path (shown m.original_path t) (pop m.original_path t)
        → Returns
            (λ r w'. Served (some r) (table w' ≡ injected m.original_path m.new_path t))
            (spawn x (serving m) w)
    unfolding spawn
    spawn-Served m t w e = spawned (serving m w) (injected m.original_path m.new_path t) (
        serve-Makes x laws m.original_path m.new_path
          (push m.new_path (shown m.original_path t) (pop m.original_path t)) w e)

    moving-Guards :
        (m : MountInjector) (t : Table) (w : World)
        → table w ≡ t
        → Returns (Guards m (injected m.original_path m.new_path t)) (moving m w)
    moving-Guards m t w e =
        Returns->>= (Guards m (injected m.original_path m.new_path t))
          (move_mount x m.original_path m.new_path >> spawn x (serving m))
          (λ r. pure (guard_of x p m r)) w
          (Returns->> (λ r w'. Served (some r) (table w' ≡ injected m.original_path m.new_path t))
            (move_mount x m.original_path m.new_path) (spawn x (serving m)) w
            (move_mount-Makes x laws m.original_path m.new_path t w e)
            λ u w' e'. spawn-Served m t w' e')
          λ r w' h. (refl, refl, h)

    mount-Guards :
        (m : MountInjector) (t : Table) (w : World)
        → table w ≡ t
        → Returns (Guards m (injected m.original_path m.new_path t)) (mount x p m w)
    unfolding mount
    mount-Guards m t w e =
        Returns->>= (Guards m (injected m.original_path m.new_path t)) (parse_mounts x) (mounting m)
          w (parse_mounts-Makes x laws w)
          λ mounts w' e'.
            test-Returns (Guards m (injected m.original_path m.new_path t))
              (non_root mounts m.original_path) (moving m) root_mount w'
              (moving-Guards m t w' (e' ∙ e))

    join-Makes :
        (handler : Option (Exit MountError ⊤)) (original : FilePath) (t : Table) (w w' : World)
        → Served handler (table w ≡ t)
        → table w' ≡ pop original (table w)
        → Makes x laws (pop original t) (join_handler x p handler) w'
    join-Makes none original t w w' h e = tt
    join-Makes (some (returns u)) original t w w' h e = e ∙ ap (pop original) h
    join-Makes (some (fails e')) original t w w' h e = tt
    join-Makes (some panics) original t w w' h e = tt
    join-Makes (some runs_on) original t w w' h e = tt

    recover-Makes :
        (t : Table) (g : Guard x p) (w : World)
        → Served g.handler (table w ≡ injected g.original_path g.new_path t)
        → Makes x laws (recovered g.original_path g.new_path t) (recover_mount x p g) w
    unfolding recover_mount
    recover-Makes t g w h =
        let o = g.original_path in
        let u = uncovered o g.new_path t in
        let end = recovered o g.new_path t in
        let unmount = called (retry 500 20 (umount o)) in
        let unmounted : Makes x laws (pop o (table w)) unmount w =
          called-Makes x laws (retry 500 20 (umount o)) (pop o (table w)) w
            (retry_table x laws 500 20 o w) in
        let left : Makes x laws u (unmount >> join_handler x p g.handler) w =
          Makes-then x laws (pop o (table w)) u unmount (join_handler x p g.handler) w unmounted
            λ w' e. join-Makes g.handler o (injected o g.new_path t) w w' h e in
        let parsed : Makes x laws u (unmount >> join_handler x p g.handler >> parse_mounts x) w =
          Makes-then x laws u u (unmount >> join_handler x p g.handler) (parse_mounts x) w left
            λ w' e.
              subst (λ v. Makes x laws v (parse_mounts x) w') e (parse_mounts-Makes x laws w') in
        Returns->>= (λ _ w'. table w' ≡ end)
          (unmount >> join_handler x p g.handler >> parse_mounts x)
          (λ mounts. if non_root mounts o then bind_mount x g.new_path o else throw root_mount) w
          parsed
          λ mounts w' e.
            test-Returns (λ _ w''. table w'' ≡ end) (non_root mounts o) (bind_mount x g.new_path o)
              root_mount w' (bind_mount-Makes x laws g.new_path o u w' e)

    -- When something is mounted at the original path, and the hidden path is another: if mounting
    -- and recovering both return, then at every path just that is mounted which was before.
    pub mount-recover_mount :
        (m : MountInjector) (o : Origin) (os : List Origin) (w : World)
        → table w m.original_path ≡ o ∷ os
        → path_beq m.new_path m.original_path ≡ false
        → path_beq m.original_path m.new_path ≡ false
        → Returns (λ _ w'. table w' ≡ table w) ((mount x p m >>= recover_mount x p) w)
    mount-recover_mount m o os w h n n' =
        Returns->>= (λ _ w'. table w' ≡ table w) (mount x p m) (recover_mount x p) w
          (mount-Guards m (table w) w refl)
          λ g w' (a, b, k).
            let i =
              subst (λ q. Served g.handler (table w' ≡ injected q m.new_path (table w))) (sym a)
                k in
            let j =
              subst (λ q. Served g.handler (table w' ≡ injected g.original_path q (table w)))
                (sym b) i in
            let same : recovered g.original_path g.new_path (table w) ≡ table w =
              ap (λ q. recovered q g.new_path (table w)) a
              ∙ ap (λ q. recovered m.original_path q (table w)) b
              ∙ recovered-eq m.original_path m.new_path (table w) o os h n n' in
            subst (λ t. Makes x laws t (recover_mount x p g) w') same
              (recover-Makes (table w) g w' j)
