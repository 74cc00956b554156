-- ===== src/Mount/Makes.antt =====
-- What the calls of src/mount.rs make of the table of mounts, when they return.
use toda.Base.{ℕ, zero, suc, ◌≡◌, refl, sym, ◌∙◌, subst, ◌⊎◌, inl, inr}
use toda.Task.{
  Task, Exit, returns, fails, panics, runs_on, ⊤, ◌>>◌, pure, unwrapped, unwrapped_exit,
}
use toda.Task.Steps.{Returns, Returns->>=, Returns->>}
use toda.FilePath.{FilePath}
use toda.Mount.System.{
  MountSystem, MountError, called, system_exit, MountLaws, Table, fuse, shown, push, pop, OnOk,
  OnError, again,
}
use toda.Mount.Injector.{parse_mounts, move_mount, bind_mount}

module _ (x : MountSystem) (laws : MountLaws x) where
  open x use {World, mountinfo, create_dir_all, mount_move, mount_bind, umount, fuse_mount, retry}
  open laws use {table}

  called_run :
      {A : Type 0} (Q : A → World → Type 0) (r : ℕ ⊎ A) (w : World)
      → ((a : A) → r ≡ inr a → Q a w)
      → Returns Q (system_exit r, w)
  called_run Q (inl e) w h = tt
  called_run Q (inr a) w h = h a refl

  on_ok : {A : Type 0} (r : ℕ ⊎ A) (P : Type 0) {a : A} → OnOk r P → r ≡ inr a → P
  on_ok (inl e) P h q = cc
  on_ok (inr b) P h q = h

  -- `retry` of `umount`, if it succeeds, has unmounted once.
  again_table :
      (p : FilePath) (next : World → (ℕ ⊎ ⊤) × World) (r : ℕ ⊎ ⊤) (w' w : World)
      → OnOk r (table w' ≡ pop p (table w))
      → OnError r (table w' ≡ table w)
      → ((v : World) → OnOk (next v).0 (table (next v).1 ≡ pop p (table v)))
      → OnOk (again next (r, w')).0 (table (again next (r, w')).1 ≡ pop p (table w))
  again_table p next (inl e) w' w h k n =
      subst (λ t. OnOk (next w').0 (table (next w').1 ≡ pop p t)) k (n w')
  again_table p next (inr t) w' w h k n = h

  pub retry_table :
      (delay times : ℕ) (p : FilePath) (w : World)
      → OnOk
          (retry delay times (umount p) w).0
          (table (retry delay times (umount p) w).1 ≡ pop p (table w))
  retry_table delay zero p w =
      subst (λ r. OnOk r.0 (table r.1 ≡ pop p (table w))) (sym (laws.retry_zero delay (umount p) w))
        (laws.umount_table p w)
  retry_table delay (suc n) p w =
      subst (λ r. OnOk r.0 (table r.1 ≡ pop p (table w)))
        (sym (laws.retry_suc delay n (umount p) w))
        (again_table p (retry delay n (umount p)) (umount p w).0 (umount p w).1 w
          (laws.umount_table p w) (laws.umount_failed p w) (retry_table delay n p))

  -- What a call that returns has made of the table.
  abbrev pub Makes : {A : Type 0} → Table → Task MountError World A → World → Type 0
  Makes {A} t m w = Returns (λ (_ : A) w'. table w' ≡ t) (m w)

  pub called-Makes :
      {A : Type 0} (call : World → (ℕ ⊎ A) × World) (t : Table) (w : World)
      → OnOk (call w).0 (table (call w).1 ≡ t)
      → Makes t (called call) w
  unfolding called
  called-Makes call t w h =
      called_run (λ _ w'. table w' ≡ t) (call w).0 (call w).1
        (λ a e. on_ok (call w).0 (table (call w).1 ≡ t) h e)

  always : {A : Type 0} (P : Type 0) (r : ℕ ⊎ A) → P → OnOk r P
  always P (inl e) h = tt
  always P (inr a) h = h

  pub parse_mounts-Makes : (w : World) → Makes (table w) (parse_mounts x) w
  unfolding parse_mounts
  parse_mounts-Makes w =
      Returns->>= (λ _ w'. table w' ≡ table w) (called mountinfo)
        (λ ps. pure (record { mounts = ps })) w
        (called-Makes mountinfo (table w) w
          (always (table (mountinfo w).1 ≡ table w) (mountinfo w).0 (laws.mountinfo_table w)))
        λ ps w' h. h

  pub Makes-then :
      {A B : Type 0} (t u : Table) (m : Task MountError World A) (n : Task MountError World B)
      (w : World)
      → Makes t m w
      → ((w' : World) → table w' ≡ t → Makes u n w')
      → Makes u (m >> n) w
  Makes-then t u m n w h k = Returns->> (λ _ w'. table w' ≡ u) m n w h (λ a w' e. k w' e)

  create-Makes :
      (p : FilePath) (t : Table) (w : World) → table w ≡ t → Makes t (called (create_dir_all p)) w
  create-Makes p t w e = called-Makes (create_dir_all p) t w (
      always (table (create_dir_all p w).1 ≡ t) (create_dir_all p w).0
        (laws.create_dir_all_table p w ∙ e))

  on_weaken : {A : Type 0} (r : ℕ ⊎ A) {P Q : Type 0} → (P → Q) → OnOk r P → OnOk r Q
  on_weaken (inl e) k h = tt
  on_weaken (inr a) k h = k h

  pub move_mount-Makes :
      (p q : FilePath) (t : Table) (w : World)
      → table w ≡ t
      → Makes (push q (shown p t) (pop p t)) (move_mount x p q) w
  unfolding move_mount
  move_mount-Makes p q t w e =
      Makes-then t (push q (shown p t) (pop p t)) (called (create_dir_all q))
        (called (mount_move p q)) w (create-Makes q t w e)
        λ w' e'. called-Makes (mount_move p q) (push q (shown p t) (pop p t)) w' (
          subst
            (λ u.
              OnOk (mount_move p q w').0
                (table (mount_move p q w').1 ≡ push q (shown p u) (pop p u)))
            e' (laws.move_table p q w'))

  pub serve-Makes :
      (p q : FilePath) (t : Table) (w : World)
      → table w ≡ t
      → Makes (push p fuse t) (called (create_dir_all q) >> called (fuse_mount p)) w
  serve-Makes p q t w e =
      Makes-then t (push p fuse t) (called (create_dir_all q)) (called (fuse_mount p)) w
        (create-Makes q t w e)
        λ w' e'. called-Makes (fuse_mount p) (push p fuse t) w' (
          subst (λ u. OnOk (fuse_mount p w').0 (table (fuse_mount p w').1 ≡ push p fuse u)) e'
            (laws.fuse_table p w'))

  unwrapped_run :
      {A : Type 0} (Q : A → World → Type 0) (r : Exit MountError A) (w : World)
      → Returns Q (r, w)
      → Returns Q (unwrapped_exit r, w)
  unwrapped_run Q (returns a) w h = h
  unwrapped_run Q (fails e) w h = tt
  unwrapped_run Q panics w h = tt
  unwrapped_run Q runs_on w h = tt

  pub bind_mount-Makes :
      (p q : FilePath) (t : Table) (w : World)
      → table w ≡ t
      → Makes (pop p (push q (shown p t) t)) (bind_mount x p q) w
  unfolding bind_mount unwrapped
  bind_mount-Makes p q t w e =
      Makes-then (push q (shown p t) t) (pop p (push q (shown p t) t))
        (unwrapped (called (mount_bind p q))) (called (retry 500 20 (umount p))) w
        (unwrapped_run (λ _ w'. table w' ≡ push q (shown p t) t) (called (mount_bind p q) w).0
          (called (mount_bind p q) w).1
          (called-Makes (mount_bind p q) (push q (shown p t) t) w (
            subst
              (λ u. OnOk (mount_bind p q w).0 (table (mount_bind p q w).1 ≡ push q (shown p u) u)) e
              (laws.bind_table p q w))))
        λ w' e'. called-Makes (retry 500 20 (umount p)) (pop p (push q (shown p t) t)) w' (
          subst
            (λ u.
              OnOk (retry 500 20 (umount p) w').0 (table (retry 500 20 (umount p) w').1 ≡ pop p u))
            e' (retry_table 500 20 p w'))
