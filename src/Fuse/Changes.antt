-- ===== src/Fuse/Changes.antt =====
-- What the operations of src/fuse/rvaultfs.c change in the tree of names: what they are asked to,
-- and nothing else.
use rvault.Prelude.{
  ℕ, ◌≡◌, ◌≢◌, ◌&&◌, refl, ap, ◌∙◌, sym, subst, Option, none, some, List, if◌then◌else◌, arith,
  Option-cases, Bool-cases, inl, inr,
}
use rvault.Prelude.Bytes.{Bytes}
use rvault.Crypto.{Ops, Laws}
use rvault.Resolve.Walk.{rvault_resolve_path}
use rvault.Resolve.Plain.{plain_names}
use rvault.Resolve.Injective.{Tokens, AllShort}
use rvault.Resolve.Stable.{rvault_resolve_path_frame}
use rvault.FileObj.{Errno, ok, fail}
use rvault.FileObj.Branches.{Result-cases}
use rvault.Fuse.{Posix, Mount, unlink, get_vault_path, path_call, rvaultfs_unlink}
use rvault.Fuse.Tree.{PosixLaws, object, tree, print_names, same_names, succeeded}
use rvault.Fuse.Names.{
  print_again, named_same, unprinted-other, named_apart, print-Tokens, Located, resolve-Located,
}

module _ (o : Ops) (laws : Laws o) (p : Posix) (base : Bytes) (posix : PosixLaws p base) where
  -- A mount whose crypto object differs in the tag alone has the tree of its file system.
  pub tree_again :
      (m n : Mount o p base) (u : Bytes) (ns : List Bytes)
      → n.vault.crypto ≡ record (m.vault.crypto) { tag = u }
      → tree o p base posix n ns
        ≡ (elim (print_names o m.vault.crypto ns) as (λ _. Option posix.Node) [
          | none ↦ none
          | some ts ↦ posix.view n.fs ts
        ])
  unfolding tree
  tree_again m n u ns e =
      ap (λ x. elim x as (λ _. Option posix.Node) [ none ↦ none | some ts ↦ posix.view n.fs ts ])
        (ap (λ x. print_names o x ns) e ∙ print_again o laws m.vault.crypto u ns)

  -- A change of one object changes the tree at its name.
  pub one_changed :
      (m n : Mount o p base) (u path v : Bytes) (x : Option posix.Node) (ms : List Bytes)
      → (at : Located o m.vault.crypto base path v)
      → n.vault.crypto ≡ record (m.vault.crypto) { tag = u }
      → AllShort m.vault.crypto (plain_names path)
      → AllShort m.vault.crypto ms
      → posix.view n.fs at.texts ≡ x
      → ((ss : List Bytes) → Tokens ss → ss ≢ at.texts → posix.view n.fs ss ≡ posix.view m.fs ss)
      → tree o p base posix n ms
        ≡ (if same_names ms (plain_names path) then x else tree o p base posix m ms)
  unfolding tree
  one_changed m n u path v x ms at e sp sm here others =
      let again = tree_again m n u ms e in
      elim (Option-cases (print_names o m.vault.crypto ms)) [
        | inl f ↦
            let other =
              unprinted-other o laws m.vault.crypto (plain_names path) ms at.texts at.printed f in
            ground arith
        | inr (ss, f) ↦ elim (Bool-cases (same_names ms (plain_names path))) [
          | inl same ↦
              let eq =
                named_same o laws m.vault.crypto (plain_names path) ms at.texts ss at.printed f
                  same in
              let shown = ap (posix.view n.fs) eq in ground arith
          | inr other ↦
              let ne =
                named_apart o laws m.vault.crypto (plain_names path) ms at.texts ss sp sm at.printed
                  f other in
              let kept = others ss (print-Tokens o m.vault.crypto ms ss f) ne in ground arith
        ]
      ]

  -- What get_vault_path gives: the object's path, with the crypto object changed in its tag alone.
  pub record Found (m n : Mount o p base) (path v : Bytes) : Type 0 where
    pub at : Located o m.vault.crypto base path v
    pub left : Bytes
    pub keys : n.vault.crypto ≡ record (m.vault.crypto) { tag = left }
    pub same_fs : n.fs ≡ m.fs

  pub get_vault_path-Found :
      (m n : Mount o p base) (path v : Bytes)
      → m.vault.crypto.aad ≡ none
      → get_vault_path o p base m path ≡ (n, ok v)
      → Found m n path v
  unfolding get_vault_path
  get_vault_path-Found m n path v h e =
      let c = m.vault.crypto in
      let frame = rvault_resolve_path_frame o c base path h in
      elim (Option-cases (rvault_resolve_path o c base path).1) [
        | inl f ↦ absurd (ground arith)
        | inr (w, f) ↦
            let same : w ≡ v = ground arith in
            record {
              at = resolve-Located o c base path v h (f ∙ ap some same);
              left = (rvault_resolve_path o c base path).0.tag;
              keys = ground arith;
              same_fs = ground arith;
            }
      ]

  -- The object's path, in a fact about it.
  pub spelled :
      (P : Bytes → Type 0) (m n : Mount o p base) (path v : Bytes)
      → (f : Found m n path v) → P (object base f.at.texts)
      → P v
  spelled P m n path v f = subst P (sym f.at.spelled)

  unlink_done :
      (m : Mount o p base) (path : Bytes) (r : ℕ × Bytes) (ms : List Bytes)
      → m.vault.crypto.aad ≡ none
      → AllShort m.vault.crypto (plain_names path)
      → AllShort m.vault.crypto ms
      → (rvaultfs_unlink o p base m path).1 ≡ ok r
      → tree o p base posix (rvaultfs_unlink o p base m path).0 ms
        ≡ (if same_names ms (plain_names path) then none else tree o p base posix m ms)
  unfolding rvaultfs_unlink path_call
  unlink_done m path r ms h sp sm done =
      let n = (get_vault_path o p base m path).0 in
      elim (Result-cases (get_vault_path o p base m path).1) [
        | inl (e, f) ↦ absurd (ground arith)
        | inr (v, f) ↦
            let found = get_vault_path-Found m n path v h (λ i. (n, f i)) in
            let ts = found.at.texts in
            let after : Mount o p base = record n { fs = (p.call unlink v n.fs).0 } in
            let run : (rvaultfs_unlink o p base m path).0 ≡ after = ground arith in
            let gone =
              spelled
                (λ w.
                  (p.call unlink w n.fs).1 ≡ some r → posix.view (p.call unlink w n.fs).0 ts ≡ none)
                m n path v found (posix.unlink_removes ts n.fs r found.at.tokens) (ground arith) in
            let kept : (ss : List Bytes)
                → Tokens ss
                → ss ≢ ts
                → posix.view (p.call unlink v n.fs).0 ss ≡ posix.view m.fs ss =
              λ ss t ne.
                spelled (λ w. posix.view (p.call unlink w n.fs).0 ss ≡ posix.view n.fs ss) m n path
                  v found (posix.unlink_keeps ts ss n.fs found.at.tokens t ne)
                ∙ ap (λ fs. posix.view fs ss) found.same_fs in
            ap (λ x. tree o p base posix x ms) run
            ∙ one_changed m after found.left path v none ms found.at found.keys sp sm gone kept
      ]

  pub tree_unchanged :
      (m n : Mount o p base) (u : Bytes) (ns : List Bytes)
      → n.vault.crypto ≡ record (m.vault.crypto) { tag = u }
      → ((ss : List Bytes) → Tokens ss → posix.view n.fs ss ≡ posix.view m.fs ss)
      → tree o p base posix n ns ≡ tree o p base posix m ns
  unfolding tree
  tree_unchanged m n u ns e kept =
      let again = tree_again m n u ns e in
      elim (Option-cases (print_names o m.vault.crypto ns)) [
        | inl f ↦ ground arith
        | inr (ss, f) ↦ let same = kept ss (print-Tokens o m.vault.crypto ns ss f) in ground arith
      ]

  unlink_failed :
      (m : Mount o p base) (path : Bytes) (e : Errno) (ms : List Bytes)
      → m.vault.crypto.aad ≡ none
      → (rvaultfs_unlink o p base m path).1 ≡ fail e
      → tree o p base posix (rvaultfs_unlink o p base m path).0 ms ≡ tree o p base posix m ms
  unfolding rvaultfs_unlink path_call get_vault_path
  unlink_failed m path e ms h failed =
      let n = (get_vault_path o p base m path).0 in
      let frame = rvault_resolve_path_frame o m.vault.crypto base path h in
      elim (Result-cases (get_vault_path o p base m path).1) [
        | inl (e', f) ↦
            let run : (rvaultfs_unlink o p base m path).0 ≡ n = ground arith in
            ap (λ x. tree o p base posix x ms) run
            ∙ tree_unchanged m n (rvault_resolve_path o m.vault.crypto base path).0.tag ms frame
                (λ ss t. refl)
        | inr (v, f) ↦
            let found = get_vault_path-Found m n path v h (λ i. (n, f i)) in
            let ts = found.at.texts in
            let after : Mount o p base = record n { fs = (p.call unlink v n.fs).0 } in
            let run : (rvaultfs_unlink o p base m path).0 ≡ after = ground arith in
            let refused : (p.call unlink v n.fs).1 ≡ none =
              elim (Option-cases (p.call unlink v n.fs).1) [
                | inl g ↦ g
                | inr (r, g) ↦ absurd (ground arith)
              ] in
            let kept : (ss : List Bytes)
                → Tokens ss
                → posix.view (p.call unlink v n.fs).0 ss ≡ posix.view m.fs ss =
              λ ss t.
                spelled
                  (λ w.
                    (p.call unlink w n.fs).1 ≡ none
                    → posix.view (p.call unlink w n.fs).0 ss ≡ posix.view n.fs ss)
                  m n path v found (posix.unlink_fails ts ss n.fs found.at.tokens t) refused
                ∙ ap (λ fs. posix.view fs ss) found.same_fs in
            ap (λ x. tree o p base posix x ms) run
            ∙ tree_unchanged m after found.left ms found.keys kept
      ]

  -- Unlinking a path that returns 0 takes its name out of the tree that the vault's users see, and
  -- leaves every other name as it was; one that fails leaves the whole tree. No AAD is set, and
  -- names are of at most 511 bytes with their padding.
  pub rvaultfs_unlink-tree :
      (m : Mount o p base) (path : Bytes) (ms : List Bytes)
      → m.vault.crypto.aad ≡ none
      → AllShort m.vault.crypto (plain_names path)
      → AllShort m.vault.crypto ms
      → tree o p base posix (rvaultfs_unlink o p base m path).0 ms ≡ (
          if succeeded (rvaultfs_unlink o p base m path).1 && same_names ms (plain_names path)
          then none
          else tree o p base posix m ms)
  rvaultfs_unlink-tree m path ms h sp sm = elim (Result-cases (rvaultfs_unlink o p base m path).1) [
    | inl (e, f) ↦ let same = unlink_failed m path e ms h f in ground arith
    | inr (r, f) ↦ let gone = unlink_done m path r ms h sp sm f in ground arith
  ]
