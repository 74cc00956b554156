-- ===== src/Hookfs/Stable/Rules.antt =====
-- A stable invariant under the calls that the handlers are made of.
use toda.Base.{ℕ, ◌≡◌, refl, Bool, Option, none, some, List, true, false, if◌then◌else◌}
use toda.Action.{Result, ok, err, panic, pure, throw, or_throw, ◌>>=◌}
use toda.Action.Ensures.{Ensures, Any, Post, Ensures-pure, Ensures-throw, Ensures-lift, Ensures->>=}
use toda.FilePath.{FilePath, Name}
use toda.Hookfs.Errors.{HookFsError, NixError}
use toda.Hookfs.InodeMap.{get_path}
use toda.Hookfs.Os.{Platform, Outcome, done, failed, File, Dir}
use toda.Hookfs.Reply.{Reply}
use toda.Injector.Method.{Method}
use toda.Hookfs.State.{
  State, modify_inodes, nix, libc, path_of, remember, file_of, dir_of, c_string,
}
use toda.Hookfs.Inject.{
  inject, inject_at, child_at, path_of_open, inject_with_ino, inject_with_parent_and_name,
  inject_with_fh, inject_with_dir_fh, get_file_attr, inject_reply,
}
use toda.Hookfs.Utils.{convert_libc_stat_to_fuse_stat}
use toda.Hookfs.Stable.{Stable}

module _ (p : Platform) (st : Stable p) where
  open st use {I, P, N}

  nix_run :
      {A : Type 0} (r : Outcome NixError A × p.os.World) (s : State p)
      → I s
      → Post I Any (nix p (λ w. r) s)
  unfolding nix
  nix_run (done a, w) s i = (st.world s w i, tt)
  nix_run (failed e, w) s i = st.world s w i

  pub keeps_nix :
      {A : Type 0} (call : p.os.World → Outcome NixError A × p.os.World)
      → Ensures I Any (nix p call)
  unfolding nix
  keeps_nix call = record { run = λ s i. nix_run (call s.world) s i }

  libc_run :
      {A : Type 0} (r : Outcome ℕ A × p.os.World) (s : State p)
      → I s
      → Post I Any (libc p (λ w. r) s)
  unfolding libc
  libc_run (done a, w) s i = (st.world s w i, tt)
  libc_run (failed e, w) s i = st.world s w i

  pub keeps_libc :
      {A : Type 0} (call : p.os.World → Outcome ℕ A × p.os.World) → Ensures I Any (libc p call)
  unfolding libc
  keeps_libc call = record { run = λ s i. libc_run (call s.world) s i }

  path_run :
      (s : State p) (r : Result FilePath)
      → ((path : FilePath) → r ≡ ok path → P path)
      → I s
      → Post I P (r, s)
  path_run s (ok path) h i = (i, h path refl)
  path_run s (err e) h i = i
  path_run s panic h i = i

  pub keeps_path_of : (ino : ℕ) → Ensures I P (path_of p ino)
  unfolding path_of
  keeps_path_of ino = record {
    run = λ s i. path_run s (get_path ino s.fs.inode_map) (λ path e. st.known s ino i e) i;
  }

  file_run :
      (s : State p) (fh : ℕ) (o : Option File)
      → ((f : File) → o ≡ some f → P f.original_path)
      → I s
      → Post I (λ f. P f.original_path) (or_throw o (HookFsError.fh_not_found fh) s)
  file_run s fh none h i = i
  file_run s fh (some f) h i = (i, h f refl)

  pub keeps_file_of : (fh : ℕ) → Ensures I (λ f. P f.original_path) (file_of p fh)
  unfolding file_of
  keeps_file_of fh = record {
    run = λ s i. file_run s fh (p.files.get fh s.fs.opened_files) (λ f e. st.known_file s fh i e) i;
  }

  dir_run :
      (s : State p) (fh : ℕ) (o : Option Dir)
      → ((d : Dir) → o ≡ some d → P d.original_path)
      → I s
      → Post I (λ d. P d.original_path) (or_throw o (HookFsError.fh_not_found fh) s)
  dir_run s fh none h i = i
  dir_run s fh (some d) h i = (i, h d refl)

  pub keeps_dir_of : (fh : ℕ) → Ensures I (λ d. P d.original_path) (dir_of p fh)
  unfolding dir_of
  keeps_dir_of fh = record {
    run = λ s i. dir_run s fh (p.dirs.get fh s.fs.opened_dirs) (λ d e. st.known_dir s fh i e) i;
  }

  pub keeps_remember : (ino : ℕ) (path : FilePath) → P path → Ensures I Any (remember p ino path)
  unfolding remember modify_inodes
  keeps_remember ino path h = record {
    run = λ s i. (st.increases ino).run _ ((st.inserts ino path h).run s i).0;
  }

  at_run :
      (method : Method) (s : State p) (r : Result FilePath)
      → ((path : FilePath) → r ≡ ok path → P path)
      → I s
      → Post I Any (inject_at p r method s)
  at_run method s (ok path) h i = (st.injects method path (h path refl)).run s i
  at_run method s (err e) h i = (i, tt)
  at_run method s panic h i = (i, tt)

  pub keeps_inject_with_ino :
      (method : Method) (ino : ℕ) → Ensures I Any (inject_with_ino p method ino)
  unfolding inject_with_ino
  keeps_inject_with_ino method ino = record {
    run = λ s i. at_run method s (get_path ino s.fs.inode_map) (λ path e. st.known s ino i e) i;
  }

  child_run :
      (method : Method) (name : Name) (s : State p) (r : Result FilePath)
      → N name
      → ((path : FilePath) → r ≡ ok path → P path)
      → I s
      → Post I Any (inject_at p (child_at p r name) method s)
  child_run method name s (ok path) n h i =
      (st.injects method _ (st.child_of path name (h path refl) n)).run s i
  child_run method name s (err e) n h i = (i, tt)
  child_run method name s panic n h i = (i, tt)

  pub keeps_inject_with_parent :
      (method : Method) (parent : ℕ) (name : Name)
      → N name
      → Ensures I Any (inject_with_parent_and_name p method parent name)
  unfolding inject_with_parent_and_name
  keeps_inject_with_parent method parent name n = record {
    run = λ s i.
        child_run method name s (get_path parent s.fs.inode_map) n (λ path e. st.known s parent i e)
          i;
  }

  fh_run :
      (method : Method) (s : State p) (o : Option File)
      → ((f : File) → o ≡ some f → P f.original_path)
      → I s
      → Post I Any (path_of_open p (λ f. f.original_path) o (pure tt) (inject p method) s)
  fh_run method s none h i = (i, tt)
  fh_run method s (some f) h i = (st.injects method f.original_path (h f refl)).run s i

  pub keeps_inject_with_fh : (method : Method) (fh : ℕ) → Ensures I Any (inject_with_fh p method fh)
  unfolding inject_with_fh
  keeps_inject_with_fh method fh = record {
    run =
        λ s i. fh_run method s (p.files.get fh s.fs.opened_files) (λ f e. st.known_file s fh i e) i;
  }

  dir_fh_run :
      (method : Method) (s : State p) (o : Option Dir)
      → ((d : Dir) → o ≡ some d → P d.original_path)
      → I s
      → Post I Any (path_of_open p (λ d. d.original_path) o (pure tt) (inject p method) s)
  dir_fh_run method s none h i = (i, tt)
  dir_fh_run method s (some d) h i = (st.injects method d.original_path (h d refl)).run s i

  pub keeps_inject_with_dir_fh :
      (method : Method) (fh : ℕ) → Ensures I Any (inject_with_dir_fh p method fh)
  unfolding inject_with_dir_fh
  keeps_inject_with_dir_fh method fh = record {
    run = λ s i.
        dir_fh_run method s (p.dirs.get fh s.fs.opened_dirs) (λ d e. st.known_dir s fh i e) i;
  }

  pub keeps_file_attr : (path : FilePath) → P path → Ensures I Any (get_file_attr p path)
  unfolding get_file_attr
  keeps_file_attr path h = Ensures->>= (keeps_nix (p.os.lstat path)) λ stat _.
      Ensures->>= (Ensures-lift (convert_libc_stat_to_fuse_stat stat))
        λ a _. st.injects_attr a path h

  if_run :
      (b : Bool) (e : HookFsError) (xs : List ℕ) → Ensures I Any (if b then throw e else pure xs)
  if_run true e xs = Ensures-throw e
  if_run false e xs = Ensures-pure xs tt

  pub keeps_c_string : (xs : List ℕ) → Ensures I Any (c_string p xs)
  unfolding c_string
  keeps_c_string xs = if_run _ HookFsError.invalid_str xs

  pub keeps_reply :
      {A : Type 0} (method : Method) (path : FilePath) (r : Reply) (f : Reply → A)
      → P path
      → Ensures I Any (inject_reply p method path r >>= λ r'. pure (f r'))
  keeps_reply method path r f h =
      Ensures->>= (st.injects_reply method path r h) λ r' _. Ensures-pure (f r') tt
