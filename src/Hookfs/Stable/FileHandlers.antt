-- ===== src/Hookfs/Stable/FileHandlers.antt =====
-- The requests on open files and directories, and on extended attributes, keep a stable invariant.
use toda.Base.{ℕ, Option, none, some, List, [], ◌∷◌}
use toda.Base.Int.{ℤ}
use toda.Action.{⊤}
use toda.Action.Ensures.{Ensures, Any, Post, Ensures-pure, Ensures-throw, Ensures->>=, Ensures->>}
use toda.FilePath.{Name, as_bytes}
use toda.Hookfs.Os.{Platform, File, Outcome, done, failed}
use toda.Injector.Method
use toda.Hookfs.State.{State, child}
use toda.Hookfs.Files.{open_file, read, write_file, flush, release, fsync, create_file, close_file}
use toda.Hookfs.Dirs.{opendir, readdir, all_entries, fsyncdir, statfs, access, after_sync}
use toda.Hookfs.Xattrs.{async_setxattr, setxattr, getxattr, listxattr, removexattr}
use toda.Hookfs.Stable.{Stable}
use toda.Hookfs.Stable.Rules

module _ (p : Platform) (st : Stable p) where
  open st use {I, P, N, W}

  pub keeps_open_file : (ino flags : ℕ) → Ensures I Any (open_file p ino flags)
  unfolding open_file
  keeps_open_file ino flags = Ensures->> (Rules.keeps_inject_with_ino p st Method.open_file ino) (
      Ensures->>= (Rules.keeps_path_of p st ino) λ path h.
        Ensures->>= (Rules.keeps_nix p st _) λ fd _.
          Ensures->>= (st.opens _ h) λ fh _. Rules.keeps_reply p st Method.open_file path _ _ h)

  pub keeps_read : (fh : ℕ) (offset : ℤ) (size : ℕ) → Ensures I Any (read p fh offset size)
  unfolding read
  keeps_read fh offset size = Ensures->> (Rules.keeps_inject_with_fh p st Method.read fh) (
      Ensures->>= (Rules.keeps_file_of p st fh) λ file h.
        Ensures->>= (Rules.keeps_libc p st _)
          λ filled _. Rules.keeps_reply p st Method.read file.original_path _ _ h)

  pub keeps_write_file :
      (fh : ℕ) (offset : ℤ) (contents : List ℕ)
      → W
      → Ensures I Any (write_file p fh offset contents)
  unfolding write_file
  keeps_write_file fh offset contents w =
      Ensures->> (Rules.keeps_inject_with_fh p st Method.write fh) (
        Ensures->>= (st.injects_write_data fh contents w) λ altered _.
          Ensures->>= (Rules.keeps_file_of p st fh) λ file h.
            Ensures->>= (Rules.keeps_libc p st _)
              λ size _. Rules.keeps_reply p st Method.write file.original_path _ _ h)

  pub keeps_flush : (fh : ℕ) → Ensures I Any (flush p fh)
  unfolding flush
  keeps_flush fh =
      Ensures->> (Rules.keeps_inject_with_fh p st Method.flush fh)
        (Ensures->>= (Rules.keeps_file_of p st fh) λ file _. Rules.keeps_nix p st _)

  pub keeps_fsync : (fh : ℕ) → Ensures I Any (fsync p fh)
  unfolding fsync
  keeps_fsync fh =
      Ensures->> (Rules.keeps_inject_with_fh p st Method.fsync fh)
        (Ensures->>= (Rules.keeps_file_of p st fh) λ file _. Rules.keeps_nix p st _)

  keeps_close_file : (file : Option File) → Ensures I Any (close_file p file)
  unfolding close_file
  keeps_close_file none = Ensures-pure tt tt
  keeps_close_file (some file) = Rules.keeps_nix p st _

  pub keeps_release : (fh : ℕ) → Ensures I Any (release p fh)
  unfolding release
  keeps_release fh =
      Ensures->>
        (record { run = λ s i. (keeps_close_file (p.files.get fh s.fs.opened_files)).run s i })
        (st.closes fh)

  pub keeps_create_file :
      (parent : ℕ) (name : Name) (mode flags uid gid : ℕ)
      → N name
      → Ensures I Any (create_file p parent name mode flags uid gid)
  unfolding create_file
  keeps_create_file parent name mode flags uid gid n =
      Ensures->> (Rules.keeps_inject_with_parent p st Method.create parent name n) (
        Ensures->>= (Rules.keeps_path_of p st parent) λ dir d.
          let path = child p dir name in
          let h : P path = st.child_of dir name d n in
          Ensures->>= (Rules.keeps_nix p st _) λ fd _. Ensures->> (Rules.keeps_nix p st _) (
            Ensures->>= (Rules.keeps_file_attr p st path h) λ stat _.
              Ensures->>= (st.opens _ h) λ fh _.
                Ensures->> (Rules.keeps_remember p st stat.ino path h)
                  (Rules.keeps_reply p st Method.create path _ _ h)))

  pub keeps_opendir : (ino flags : ℕ) → Ensures I Any (opendir p ino flags)
  unfolding opendir
  keeps_opendir ino flags = Ensures->> (Rules.keeps_inject_with_ino p st Method.opendir ino) (
      Ensures->>= (Rules.keeps_path_of p st ino) λ path h.
        Ensures->>= (Rules.keeps_nix p st _) λ d _.
          Ensures->>= (st.opens_dir _ h) λ fh _. Rules.keeps_reply p st Method.opendir path _ _ h)

  pub keeps_readdir :
      (fh : ℕ) (offset : ℤ) (buffer : p.replies.Buffer) → Ensures I Any (readdir p fh offset buffer)
  unfolding readdir all_entries
  keeps_readdir fh offset buffer =
      Ensures->> (Rules.keeps_inject_with_dir_fh p st Method.readdir fh) (
        Ensures->>= (Rules.keeps_dir_of p st fh) λ d _.
          Ensures->>= {P = Any} (record { run = λ s i. (st.world s _ i, tt) })
            λ es _. Ensures-pure _ tt)

  sync_run : (r : Outcome ⊤ ⊤) (s : State p) → I s → Post I Any (after_sync p r, s)
  sync_run (done u) s i = (i, tt)
  sync_run (failed u) s i = i

  pub keeps_fsyncdir : (ino : ℕ) → Ensures I Any (fsyncdir p ino)
  unfolding fsyncdir
  keeps_fsyncdir ino =
      Ensures->>= (Rules.keeps_path_of p st ino)
        λ path _. record { run = λ s i. sync_run (p.os.sync_all path s.world).0 _ (st.world s _ i) }

  pub keeps_statfs : (ino : ℕ) → Ensures I Any (statfs p ino)
  unfolding statfs
  keeps_statfs ino = Ensures->> (Rules.keeps_inject_with_ino p st Method.statfs ino) (
      Ensures->>= (Rules.keeps_path_of p st ino) λ path h.
        Ensures->>= {P = Any} (record { run = λ s i. (Rules.keeps_nix p st _).run s i })
          λ stat _. Rules.keeps_reply p st Method.statfs path _ _ h)

  pub keeps_access : (ino mask : ℕ) → Ensures I Any (access p ino mask)
  unfolding access
  keeps_access ino mask =
      Ensures->> (Rules.keeps_inject_with_ino p st Method.access ino)
        (Ensures->>= (Rules.keeps_path_of p st ino) λ path _. Rules.keeps_nix p st _)

  keeps_async_setxattr :
      (path name value : List ℕ) (flags : ℕ)
      → Ensures I Any (async_setxattr p path name value flags)
  unfolding async_setxattr
  keeps_async_setxattr path name [] flags = Ensures-throw _
  keeps_async_setxattr path name (b ∷ value) flags = Rules.keeps_libc p st _

  pub keeps_setxattr :
      (ino : ℕ) (name : Name) (value : List ℕ) (flags : ℕ)
      → Ensures I Any (setxattr p ino name value flags)
  unfolding setxattr
  keeps_setxattr ino name value flags =
      Ensures->> (Rules.keeps_inject_with_ino p st Method.setxattr ino) (
        Ensures->>= (Rules.keeps_path_of p st ino) λ path _.
          Ensures->>= (Rules.keeps_c_string p st (as_bytes path)) λ cpath _.
            Ensures->>= (Rules.keeps_c_string p st name)
              λ cname _. keeps_async_setxattr cpath cname value flags)

  pub keeps_getxattr : (ino : ℕ) (name : Name) (size : ℕ) → Ensures I Any (getxattr p ino name size)
  unfolding getxattr
  keeps_getxattr ino name size = Ensures->> (Rules.keeps_inject_with_ino p st Method.getxattr ino) (
      Ensures->>= (Rules.keeps_path_of p st ino) λ path h.
        Ensures->>= (Rules.keeps_c_string p st (as_bytes path)) λ cpath _.
          Ensures->>= (Rules.keeps_c_string p st name) λ cname _.
            Ensures->>= (Rules.keeps_libc p st _)
              λ filled _. Rules.keeps_reply p st Method.getxattr path _ _ h)

  pub keeps_listxattr : (ino size : ℕ) → Ensures I Any (listxattr p ino size)
  unfolding listxattr
  keeps_listxattr ino size = Ensures->> (Rules.keeps_inject_with_ino p st Method.listxattr ino) (
      Ensures->>= (Rules.keeps_path_of p st ino) λ path h.
        Ensures->>= (Rules.keeps_c_string p st (as_bytes path)) λ cpath _.
          Ensures->>= (Rules.keeps_libc p st _)
            λ filled _. Rules.keeps_reply p st Method.listxattr path _ _ h)

  pub keeps_removexattr : (ino : ℕ) (name : Name) → Ensures I Any (removexattr p ino name)
  unfolding removexattr
  keeps_removexattr ino name =
      Ensures->> (Rules.keeps_inject_with_ino p st Method.removexattr ino) (
        Ensures->>= (Rules.keeps_path_of p st ino) λ path _.
          Ensures->>= (Rules.keeps_c_string p st (as_bytes path)) λ cpath _.
            Ensures->>= (Rules.keeps_c_string p st name) λ cname _. Rules.keeps_libc p st _)
