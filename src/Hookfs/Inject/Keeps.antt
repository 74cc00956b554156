-- ===== src/Hookfs/Inject/Keeps.antt =====
-- What injections keep: every invariant that does not speak of the injectors' context.
use toda.Base.{ℕ, Option, none, some, List}
use toda.Action.{Action, Result, ok, err, panic, ⊤, pure}
use toda.Action.Ensures.{Ensures, Any, Post, Ensures-when, Ensures-if, Ensures-pure, Ensures->>=}
use toda.FilePath.{FilePath, Name}
use toda.Injector.Context.{Context}
use toda.Injector.Method.{Method}
use toda.Hookfs.Os.{Platform, File}
use toda.Hookfs.Reply.{FileAttr, Reply}
use toda.Hookfs.InodeMap.{get_path}
use toda.Hookfs.State.{State, Call, injecting, rebuild_path}
use toda.Hookfs.Inject.{
  rebuilt, if_enabled, inject, inject_at, child_at, path_of_open, inject_with_ino,
  inject_with_parent_and_name, inject_with_fh, inject_with_dir_fh, alter_attr, inject_attr,
  inject_reply, write_data_of, inject_write_data,
}

module _ (p : Platform) (I : State p → Type 0)
    (free : (s : State p) (c : Context p.external) → I s → I (record s { context = c })) where
  any_run : {A : Type 0} (r : Result A) (s : State p) → I s → Post I Any (r, s)
  any_run (ok a) s i = (i, tt)
  any_run (err e) s i = i
  any_run panic s i = i

  keeps_injecting :
      {A : Type 0} (act : Action (Context p.external) A) → Ensures I Any (injecting p act)
  unfolding injecting
  keeps_injecting act = record {
    run = λ s i. let (r, c) = act s.context in any_run r _ (free s c i);
  }

  keeps_rebuilt : (path : FilePath) → Ensures I Any (rebuilt p path)
  unfolding rebuilt
  keeps_rebuilt path = record { run = λ s i. any_run (rebuild_path p s.fs path) s i }

  keeps_enabled : (m : Call p ⊤) → Ensures I Any m → Ensures I Any (if_enabled p m)
  unfolding if_enabled
  keeps_enabled m h = record { run = λ s i. (Ensures-when s.fs.enable_injection h).run s i }

  pub keeps_inject : (method : Method) (path : FilePath) → Ensures I Any (inject p method path)
  unfolding inject
  keeps_inject method path = keeps_enabled _ (
      Ensures->>= (keeps_rebuilt path)
        λ target _. record { run = λ s i. (keeps_injecting _).run s i })

  pub keeps_inject_reply :
      (method : Method) (path : FilePath) (r : Reply) → Ensures I Any (inject_reply p method path r)
  unfolding inject_reply
  keeps_inject_reply method path r = record {
    run = λ s i.
        (Ensures-if s.fs.enable_injection
            (Ensures->>= (keeps_rebuilt path)
              λ target _. record { run = λ t j. (keeps_injecting _).run t j })
            (Ensures-pure r tt)).run
          s i;
  }

  pub keeps_inject_attr : (a : FileAttr) (path : FilePath) → Ensures I Any (inject_attr p a path)
  unfolding inject_attr alter_attr
  keeps_inject_attr a path = record {
    run = λ s i.
        (Ensures-if s.fs.enable_injection
            (Ensures->>= (keeps_rebuilt path) λ target _. record { run = λ t j. (free t _ j, tt) })
            (Ensures-pure a tt)).run
          s i;
  }

  keeps_write_data_of : (o : Option File) (xs : List ℕ) → Ensures I Any (write_data_of p o xs)
  unfolding write_data_of
  keeps_write_data_of none xs = Ensures-pure xs tt
  keeps_write_data_of (some file) xs =
      Ensures->>= (keeps_rebuilt file.original_path)
        λ target _. record { run = λ s i. (keeps_injecting _).run s i }

  pub keeps_inject_write_data : (fh : ℕ) (xs : List ℕ) → Ensures I Any (inject_write_data p fh xs)
  unfolding inject_write_data
  keeps_inject_write_data fh xs = record {
    run = λ s i. (keeps_write_data_of (p.files.get fh s.fs.opened_files) xs).run s i;
  }

  keeps_inject_at : (r : Result FilePath) (method : Method) → Ensures I Any (inject_at p r method)
  keeps_inject_at (ok path) method = keeps_inject method path
  keeps_inject_at (err e) method = Ensures-pure tt tt
  keeps_inject_at panic method = Ensures-pure tt tt

  pub keeps_inject_with_ino :
      (method : Method) (ino : ℕ) → Ensures I Any (inject_with_ino p method ino)
  unfolding inject_with_ino
  keeps_inject_with_ino method ino = record {
    run = λ s i. (keeps_inject_at (get_path ino s.fs.inode_map) method).run s i;
  }

  pub keeps_inject_with_parent :
      (method : Method) (parent : ℕ) (name : Name)
      → Ensures I Any (inject_with_parent_and_name p method parent name)
  unfolding inject_with_parent_and_name
  keeps_inject_with_parent method parent name = record {
    run =
        λ s i. (keeps_inject_at (child_at p (get_path parent s.fs.inode_map) name) method).run s i;
  }

  keeps_inject_open :
      {A : Type 0} (path : A → FilePath) (o : Option A) (method : Method)
      → Ensures I Any (path_of_open p path o (pure tt) (inject p method))
  keeps_inject_open path none method = Ensures-pure tt tt
  keeps_inject_open path (some a) method = keeps_inject method (path a)

  pub keeps_inject_with_fh : (method : Method) (fh : ℕ) → Ensures I Any (inject_with_fh p method fh)
  unfolding inject_with_fh
  keeps_inject_with_fh method fh = record {
    run = λ s i.
        (keeps_inject_open (λ f. f.original_path) (p.files.get fh s.fs.opened_files) method).run s
          i;
  }

  pub keeps_inject_with_dir_fh :
      (method : Method) (fh : ℕ) → Ensures I Any (inject_with_dir_fh p method fh)
  unfolding inject_with_dir_fh
  keeps_inject_with_dir_fh method fh = record {
    run = λ s i.
        (keeps_inject_open (λ d. d.original_path) (p.dirs.get fh s.fs.opened_dirs) method).run s i;
  }
