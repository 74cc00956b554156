-- ===== src/Hookfs/Stable/Handlers.antt =====
-- The requests on names and attributes keep a stable invariant.
use toda.Base.{ℕ, Option, none, some}
use toda.Action.Ensures.{Ensures, Any, Ensures-pure, Ensures-lift, Ensures->>=, Ensures->>}
use toda.FilePath.{FilePath, Name, as_bytes}
use toda.Hookfs.Os.{Platform}
use toda.Injector.Method
use toda.Injector.Method.{Method}
use toda.Hookfs.State.{child}
use toda.Hookfs.Inject.{entry_of, attr_of, data_of}
use toda.Hookfs.Utils.{TimeOrNow, convert_time}
use toda.Hookfs.Attrs.{lookup, forget, getattr, setattr, readlink, change_mode, change_size}
use toda.Hookfs.Nodes.{enter, mknod, mkdir, unlink, rmdir, symlink, rename, link}
use toda.Hookfs.Stable.{Stable}
use toda.Hookfs.Stable.Rules

module _ (p : Platform) (st : Stable p) where
  open st use {I, P, N}

  nix : {A : Type 0} (call : p.os.World → _) → Ensures I Any (toda.Hookfs.State.nix p {A = A} call)
  nix call = Rules.keeps_nix p st call

  libc :
      {A : Type 0} (call : p.os.World → _) → Ensures I Any (toda.Hookfs.State.libc p {A = A} call)
  libc call = Rules.keeps_libc p st call

  keeps_enter : (path : FilePath) → P path → Ensures I Any (enter p path)
  unfolding enter
  keeps_enter path h = Ensures->>= (Rules.keeps_file_attr p st path h) λ stat _.
      Ensures->> (Rules.keeps_remember p st stat.ino path h)
        (Rules.keeps_reply p st Method.lookup path _ (entry_of _) h)

  pub keeps_lookup : (parent : ℕ) (name : Name) → N name → Ensures I Any (lookup p parent name)
  unfolding lookup enter
  keeps_lookup parent name n =
      Ensures->> (Rules.keeps_inject_with_parent p st Method.lookup parent name n) (
        Ensures->>= (Rules.keeps_path_of p st parent)
          λ dir d. keeps_enter (child p dir name) (st.child_of dir name d n))

  pub keeps_forget : (ino n : ℕ) → Ensures I Any (forget p ino n)
  unfolding forget
  keeps_forget ino n = st.decreases ino n

  pub keeps_getattr : (ino : ℕ) → Ensures I Any (getattr p ino)
  unfolding getattr
  keeps_getattr ino = Ensures->> (Rules.keeps_inject_with_ino p st Method.getattr ino) (
      Ensures->>= (Rules.keeps_path_of p st ino) λ path h.
        Ensures->>= (Rules.keeps_file_attr p st path h)
          λ stat _. Rules.keeps_reply p st Method.getattr path _ (attr_of _) h)

  keeps_change_mode : (path : FilePath) (mode : Option ℕ) → Ensures I Any (change_mode p path mode)
  keeps_change_mode path none = Ensures-pure tt tt
  keeps_change_mode path (some mode) = nix _

  keeps_change_size : (path : FilePath) (size : Option ℕ) → Ensures I Any (change_size p path size)
  keeps_change_size path none = Ensures-pure tt tt
  keeps_change_size path (some size) = nix _

  pub keeps_setattr :
      (ino : ℕ) (mode uid gid size : Option ℕ) (atime mtime : Option TimeOrNow)
      → Ensures I Any (setattr p ino mode uid gid size atime mtime)
  unfolding setattr
  keeps_setattr ino mode uid gid size atime mtime =
      Ensures->> (Rules.keeps_inject_with_ino p st Method.setattr ino) (
        Ensures->>= (Rules.keeps_path_of p st ino) λ path h. Ensures->> (nix _) (
          Ensures->> (keeps_change_mode path mode) (
            Ensures->> (keeps_change_size path size) (
              Ensures->>= (Ensures-lift (convert_time atime)) λ a _.
                Ensures->>= (Ensures-lift (convert_time mtime)) λ m _.
                  Ensures->>= (Rules.keeps_c_string p st (as_bytes path)) λ cpath _.
                    Ensures->> (libc _) (
                      Ensures->>= (Rules.keeps_file_attr p st path h)
                        λ stat _. Rules.keeps_reply p st Method.getattr path _ (attr_of _) h)))))

  pub keeps_readlink : (ino : ℕ) → Ensures I Any (readlink p ino)
  unfolding readlink
  keeps_readlink ino = Ensures->> (Rules.keeps_inject_with_ino p st Method.readlink ino) (
      Ensures->>= (Rules.keeps_path_of p st ino) λ path h. Ensures->>= (nix _) λ target _.
        Ensures->>= (Rules.keeps_c_string p st target)
          λ target' _. Rules.keeps_reply p st Method.readlink path _ (data_of _) h)

  pub keeps_mknod :
      (parent : ℕ) (name : Name) (mode rdev uid gid : ℕ)
      → N name
      → Ensures I Any (mknod p parent name mode rdev uid gid)
  unfolding mknod
  keeps_mknod parent name mode rdev uid gid n =
      Ensures->> (Rules.keeps_inject_with_parent p st Method.mknod parent name n) (
        Ensures->>= (Rules.keeps_path_of p st parent) λ dir_parent d_parent.
          let path = child p dir_parent name in
          let h : P path = st.child_of dir_parent name d_parent n in
          Ensures->> (st.injects Method.mknod path h) (
            Ensures->>= (Rules.keeps_c_string p st (as_bytes path))
              λ cpath _. Ensures->> (libc _) (Ensures->> (nix _) (keeps_enter path h))))

  pub keeps_mkdir :
      (parent : ℕ) (name : Name) (mode uid gid : ℕ)
      → N name
      → Ensures I Any (mkdir p parent name mode uid gid)
  unfolding mkdir
  keeps_mkdir parent name mode uid gid n =
      Ensures->> (Rules.keeps_inject_with_parent p st Method.mkdir parent name n) (
        Ensures->>= (Rules.keeps_path_of p st parent) λ dir_parent d_parent.
          let path = child p dir_parent name in
          let h : P path = st.child_of dir_parent name d_parent n in
          Ensures->> (nix _) (Ensures->> (nix _) (keeps_enter path h)))

  pub keeps_unlink : (parent : ℕ) (name : Name) → N name → Ensures I Any (unlink p parent name)
  unfolding unlink
  keeps_unlink parent name n =
      Ensures->> (Rules.keeps_inject_with_parent p st Method.unlink parent name n) (
        Ensures->>= (Rules.keeps_path_of p st parent) λ dir_parent d_parent.
          let path = child p dir_parent name in
          let h : P path = st.child_of dir_parent name d_parent n in
          Ensures->>= (Rules.keeps_file_attr p st path h)
            λ stat _. Ensures->> (nix _) (st.removes stat.ino path))

  pub keeps_rmdir : (parent : ℕ) (name : Name) → N name → Ensures I Any (rmdir p parent name)
  unfolding rmdir
  keeps_rmdir parent name n =
      Ensures->> (Rules.keeps_inject_with_parent p st Method.rmdir parent name n) (
        Ensures->>= (Rules.keeps_path_of p st parent) λ dir_parent d_parent.
          let path = child p dir_parent name in
          let h : P path = st.child_of dir_parent name d_parent n in
          Ensures->>= (Rules.keeps_file_attr p st path h) λ stat _.
            Ensures->>= (Rules.keeps_c_string p st (as_bytes path))
              λ cpath _. Ensures->> (libc _) (st.removes stat.ino path))

  pub keeps_symlink :
      (parent : ℕ) (name : Name) (target : FilePath) (uid gid : ℕ)
      → N name
      → Ensures I Any (symlink p parent name target uid gid)
  unfolding symlink
  keeps_symlink parent name target uid gid n =
      Ensures->> (Rules.keeps_inject_with_parent p st Method.symlink parent name n) (
        Ensures->>= (Rules.keeps_path_of p st parent) λ dir_parent d_parent.
          let path = child p dir_parent name in
          let h : P path = st.child_of dir_parent name d_parent n in
          Ensures->> (nix _) (Ensures->> (nix _) (keeps_enter path h)))

  pub keeps_rename :
      (parent : ℕ) (name : Name) (newparent : ℕ) (newname : Name)
      → N name
      → N newname
      → Ensures I Any (rename p parent name newparent newname)
  unfolding rename
  keeps_rename parent name newparent newname n n' =
      Ensures->> (Rules.keeps_inject_with_parent p st Method.rename parent name n) (
        Ensures->>= (Rules.keeps_path_of p st parent) λ dir_parent d_parent.
          let old_path = child p dir_parent name in
          let h0 : P old_path = st.child_of dir_parent name d_parent n in
          Ensures->>= (Rules.keeps_path_of p st newparent) λ dir_newparent d_newparent.
            let new_path = child p dir_newparent newname in
            let h : P new_path = st.child_of dir_newparent newname d_newparent n' in
            Ensures->> (nix _) (
              Ensures->>= (Rules.keeps_file_attr p st new_path h) λ stat _.
                Ensures->> (st.removes stat.ino old_path) (st.inserts stat.ino new_path h)))

  pub keeps_link :
      (ino newparent : ℕ) (newname : Name)
      → N newname
      → Ensures I Any (link p ino newparent newname)
  unfolding link
  keeps_link ino newparent newname n =
      Ensures->> (Rules.keeps_inject_with_ino p st Method.link ino) (
        Ensures->>= (Rules.keeps_path_of p st ino) λ path _.
          Ensures->>= (Rules.keeps_path_of p st newparent) λ dir_newparent d_newparent.
            let new_path = child p dir_newparent newname in
            let h : P new_path = st.child_of dir_newparent newname d_newparent n in
            Ensures->> (nix _) (keeps_enter new_path h))
