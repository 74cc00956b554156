-- ===== src/Mount/System/Sample.antt =====
-- A machine whose state is its table of mounts, for the tests.
use toda.Base.{ℕ, zero, suc, ◌≡◌, refl, ◌⊎◌, inl, inr, List, [], ◌∷◌}
use toda.Task.{⊤}
use toda.FilePath.{FilePath, root_dir}
use toda.Mount.System.{
  MountSystem, MountLaws, Table, Origin, fuse, shown, push, pop, OnOk, OnError, again,
}

-- A call that fails with 22 where nothing is mounted.
abbrev pub on_mounted : List Origin → Table → Table → (ℕ ⊎ ⊤) × Table
on_mounted [] t t' = (inl 22, t)
on_mounted (o ∷ os) t t' = (inr tt, t')

abbrev pub moves : FilePath → FilePath → Table → (ℕ ⊎ ⊤) × Table
moves p q t = on_mounted (t p) t (push q (shown p t) (pop p t))

abbrev pub unmounts : FilePath → Table → (ℕ ⊎ ⊤) × Table
unmounts p t = on_mounted (t p) t (pop p t)

abbrev pub tries : ℕ → ℕ → (Table → (ℕ ⊎ ⊤) × Table) → Table → (ℕ ⊎ ⊤) × Table
tries delay zero f t = f t
tries delay (suc n) f t = again (tries delay n f) (f t)

abbrev pub sample : MountSystem
sample = record {
  World = Table;
  mountinfo = λ t. (inr ((root_dir ∷ []) ∷ []), t);
  create_dir_all = λ p t. (inr tt, t);
  mount_move = moves;
  mount_bind = λ p q t. (inr tt, push q (shown p t) t);
  umount = unmounts;
  fuse_mount = λ p t. (inr tt, push p fuse t);
  retry = tries;
}

pub mounted_ok :
    (os : List Origin) (t t' : Table) → OnOk (on_mounted os t t').0 ((on_mounted os t t').1 ≡ t')
mounted_ok [] t t' = tt
mounted_ok (o ∷ os) t t' = refl

pub mounted_error :
    (os : List Origin) (t t' : Table) → OnError (on_mounted os t t').0 ((on_mounted os t t').1 ≡ t)
mounted_error [] t t' = refl
mounted_error (o ∷ os) t t' = tt

abbrev pub sample_laws : MountLaws sample
sample_laws = record {
  table = λ t. t;
  mountinfo_table = λ t. refl;
  create_dir_all_table = λ p t. refl;
  move_table = λ p q t. mounted_ok (t p) t (push q (shown p t) (pop p t));
  bind_table = λ p q t. refl;
  umount_table = λ p t. mounted_ok (t p) t (pop p t);
  umount_failed = λ p t. mounted_error (t p) t (pop p t);
  fuse_table = λ p t. refl;
  retry_zero = λ delay f t. refl;
  retry_suc = λ delay n f t. refl;
}
