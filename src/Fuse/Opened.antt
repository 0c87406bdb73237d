-- ===== src/Fuse/Opened.antt =====
-- What opening and renaming in src/fuse/rvaultfs.c change in the tree of names.
use rvault.Prelude.{
  ℕ, ◌≡◌, ◌≢◌, refl, ap, ◌∙◌, sym, subst, Bool, none, some, List, if◌then◌else◌, arith,
  Option-cases, inl, inr,
}
use rvault.Prelude.Bytes.{Bytes}
use rvault.Crypto.{Ops, Laws}
use rvault.Resolve.Walk.{rvault_resolve_path}
use rvault.Resolve.Plain.{plain_names}
use rvault.Resolve.Injective.{Tokens, AllShort}
use rvault.Resolve.Stable.{rvault_resolve_path_frame}
use rvault.FileObj.{State, Errno, ok, fail}
use rvault.FileObj.Branches.{Result-cases}
use rvault.Fuse.{Option, Posix, Mount, open_object, rvaultfs_open_raw}
use rvault.Fuse.Tree.{PosixLaws, tree, same_names}
use rvault.Fuse.Names.{Printed-print, Located, resolve-Located}
use rvault.Fuse.Changes.{one_changed, tree_unchanged}

module _ (o : Ops) (laws : Laws o) (p : Posix) (base : Bytes) (posix : PosixLaws p base) where
  tree_at :
      (m : Mount o p base) (path v : Bytes)
      → (at : Located o m.vault.crypto base path v)
      → tree o p base posix m (plain_names path) ≡ posix.view m.fs at.texts
  unfolding tree
  tree_at m path v at =
      let printed = Printed-print o laws m.vault.crypto (plain_names path) at.texts at.printed in
      ground arith

  open_done :
      (weak_sync : Bool) (m : Mount o p base) (path : Bytes) (flags mode : ℕ) (s : State)
      (ms : List Bytes)
      → m.vault.crypto.aad ≡ none
      → AllShort m.vault.crypto (plain_names path)
      → AllShort m.vault.crypto ms
      → ((n : posix.Node) → tree o p base posix m (plain_names path) ≡ some n → posix.IsFile n)
      → (rvaultfs_open_raw o p base weak_sync m path flags mode).1 ≡ ok s
      → tree o p base posix (rvaultfs_open_raw o p base weak_sync m path flags mode).0 ms ≡ (
          if same_names ms (plain_names path)
          then some (posix.regular s.fobj.file)
          else tree o p base posix m ms)
  unfolding rvaultfs_open_raw open_object
  open_done weak_sync m path flags mode s ms h sp sm file done =
      let c = m.vault.crypto in
      let d = (rvault_resolve_path o c base path).0 in
      elim (Option-cases (rvault_resolve_path o c base path).1) [
        | inl f ↦ absurd (ground arith)
        | inr (v, f) ↦
            let at = resolve-Located o c base path v h f in
            let ts = at.texts in
            let after : Mount o p base = record {
              vault = record (m.vault) { crypto = d };
              fs = (p.open_file v flags mode m.fs).0;
            } in
            let stands : tree o p base posix m (plain_names path) ≡ posix.view m.fs ts =
              tree_at m path v at in
            let run : (rvaultfs_open_raw o p base weak_sync m path flags mode).0 ≡ after =
              ground arith in
            let opened : (p.open_file v flags mode m.fs).1 ≡ some s.fobj.file = ground arith in
            let shown =
              subst
                (λ w.
                  (p.open_file w flags mode m.fs).1 ≡ some s.fobj.file
                  → posix.view (p.open_file w flags mode m.fs).0 ts
                    ≡ some (posix.regular s.fobj.file))
                (sym at.spelled)
                (posix.open_shows ts m.fs flags mode s.fobj.file at.tokens
                  (λ n e. file n (stands ∙ e)))
                opened in
            let kept : (ss : List Bytes)
                → Tokens ss
                → ss ≢ ts
                → posix.view (p.open_file v flags mode m.fs).0 ss ≡ posix.view m.fs ss =
              λ ss t ne.
                subst (λ w. posix.view (p.open_file w flags mode m.fs).0 ss ≡ posix.view m.fs ss)
                  (sym at.spelled) (posix.open_keeps ts ss m.fs flags mode at.tokens t ne) in
            ap (λ x. tree o p base posix x ms) run
            ∙ one_changed o laws p base posix m after d.tag path v
                (some (posix.regular s.fobj.file)) ms at (rvault_resolve_path_frame o c base path h)
                sp sm shown kept
      ]

  open_failed :
      (weak_sync : Bool) (m : Mount o p base) (path : Bytes) (flags mode : ℕ) (e : Errno)
      (ms : List Bytes)
      → m.vault.crypto.aad ≡ none
      → (rvaultfs_open_raw o p base weak_sync m path flags mode).1 ≡ fail e
      → tree o p base posix (rvaultfs_open_raw o p base weak_sync m path flags mode).0 ms
        ≡ tree o p base posix m ms
  unfolding rvaultfs_open_raw open_object
  open_failed weak_sync m path flags mode e ms h failed =
      let c = m.vault.crypto in
      let d = (rvault_resolve_path o c base path).0 in
      let frame = rvault_resolve_path_frame o c base path h in
      let with_fs : p.Fs → Mount o p base =
        λ fs. record { vault = record (m.vault) { crypto = d }; fs = fs } in
      elim (Option-cases (rvault_resolve_path o c base path).1) [
        | inl f ↦
            let run : (rvaultfs_open_raw o p base weak_sync m path flags mode).0 ≡ with_fs m.fs =
              ground arith in
            ap (λ x. tree o p base posix x ms) run
            ∙ tree_unchanged o laws p base posix m (with_fs m.fs) d.tag ms frame (λ ss t. refl)
        | inr (v, f) ↦
            let at = resolve-Located o c base path v h f in
            let after = with_fs (p.open_file v flags mode m.fs).0 in
            let run : (rvaultfs_open_raw o p base weak_sync m path flags mode).0 ≡ after =
              ground arith in
            let refused : (p.open_file v flags mode m.fs).1 ≡ none =
              elim (Option-cases (p.open_file v flags mode m.fs).1) [
                | inl g ↦ g
                | inr (file, g) ↦ absurd (ground arith)
              ] in
            ap (λ x. tree o p base posix x ms) run
            ∙ tree_unchanged o laws p base posix m after d.tag ms frame (λ ss t.
              subst
                (λ w.
                  (p.open_file w flags mode m.fs).1 ≡ none
                  → posix.view (p.open_file w flags mode m.fs).0 ss ≡ posix.view m.fs ss)
                (sym at.spelled) (posix.open_fails at.texts ss m.fs flags mode at.tokens t) refused)
      ]

  -- A path at which nothing or a regular file stands, when it is opened or created with success,
  -- stands in the tree for a regular file with the bytes of the file object's descriptor, and every
  -- other name is as it was; when that fails the whole tree is as it was. No AAD is set, and names
  -- are of at most 511 bytes with their padding.
  pub rvaultfs_open_raw-tree :
      (weak_sync : Bool) (m : Mount o p base) (path : Bytes) (flags mode : ℕ) (ms : List Bytes)
      → m.vault.crypto.aad ≡ none
      → AllShort m.vault.crypto (plain_names path)
      → AllShort m.vault.crypto ms
      → ((n : posix.Node) → tree o p base posix m (plain_names path) ≡ some n → posix.IsFile n)
      → tree o p base posix (rvaultfs_open_raw o p base weak_sync m path flags mode).0 ms
        ≡ (elim (rvaultfs_open_raw o p base weak_sync m path flags mode).1
            as (λ _. Option posix.Node) [
              | fail e ↦ tree o p base posix m ms
              | ok s ↦
                  if same_names ms (plain_names path)
                  then some (posix.regular s.fobj.file)
                  else tree o p base posix m ms
            ])
  rvaultfs_open_raw-tree weak_sync m path flags mode ms h sp sm file =
      elim (Result-cases (rvaultfs_open_raw o p base weak_sync m path flags mode).1) [
        | inl (e, f) ↦ let same = open_failed weak_sync m path flags mode e ms h f in ground arith
        | inr (s, f) ↦
            let opened = open_done weak_sync m path flags mode s ms h sp sm file f in ground arith
      ]
