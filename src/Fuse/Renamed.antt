-- ===== src/Fuse/Renamed.antt =====
-- What renaming in src/fuse/rvaultfs.c changes in the tree of names.
use rvault.Prelude.{
  ap₂, ℕ, ◌≡◌, refl, ap, ◌∙◌, sym, true, false, Option, none, some, List, if◌then◌else◌, arith,
  Option-cases, Bool-cases, inl, inr,
}
use rvault.Prelude.Bytes.{Bytes}
use rvault.Crypto.{Crypto, Ops, Laws}
use rvault.Resolve.Plain.{plain_names}
use rvault.Resolve.Walk.{rvault_resolve_path}
use rvault.Resolve.Stable.{rvault_resolve_path_frame}
use rvault.Resolve.Injective.{AllShort}
use rvault.FileObj.{Errno, ok, fail}
use rvault.FileObj.Branches.{Result-cases}
use rvault.Fuse.{Posix, Mount, get_vault_path, rvaultfs_rename}
use rvault.Fuse.Tree.{PosixLaws, object, tree, print_names, same_names, succeeded}
use rvault.Fuse.Names.{
  Printed-print, retag-Located, named_same, unprinted-other, named_apart, print-Tokens, Located,
}
use rvault.Fuse.Changes.{tree_again, tree_unchanged, get_vault_path-Found}

module _ (o : Ops) (laws : Laws o) (p : Posix) (base : Bytes) (posix : PosixLaws p base)
    (m : Mount o p base) (from to : Bytes) where
  abbrev c : Crypto
  c = m.vault.crypto

  abbrev moved : posix.Node → List Bytes → Option posix.Node
  moved n ms =
      if same_names ms (plain_names to)
      then some n
      else if same_names ms (plain_names from)
      then none
      else tree o p base posix m ms

  module _ (sf : AllShort c (plain_names from)) (st : AllShort c (plain_names to))
      (apart : same_names (plain_names to) (plain_names from) ≡ false) (n : posix.Node)
      (stands : tree o p base posix m (plain_names from) ≡ some n) (file : posix.IsFile n) where
    -- Two objects, of which one takes the place of the other.
    two_changed :
        (after : Mount o p base) (u v w : Bytes)
        → (a : Located o c base from v) (b : Located o c base to w)
        → after.vault.crypto ≡ record c { tag = u }
        → after.fs ≡ (p.rename v w m.fs).0
        → (p.rename v w m.fs).1 ≡ true
        → (ms : List Bytes) → AllShort c ms
        → tree o p base posix after ms ≡ moved n ms
    unfolding tree
    two_changed after u v w a b keys fs done ms sm =
        let ts = a.texts in
        let us = b.texts in
        let again = tree_again o laws p base posix m after u ms keys in
        let here : posix.view m.fs ts ≡ some n =
          let at = Printed-print o laws c (plain_names from) ts a.printed in ground arith in
        let ne =
          named_apart o laws c (plain_names from) (plain_names to) ts us sf st a.printed
            (Printed-print o laws c (plain_names to) us b.printed) apart in
        let same_run : p.rename v w m.fs ≡ p.rename (object base ts) (object base us) m.fs =
          ap₂ (λ x y. p.rename x y m.fs) a.spelled b.spelled in
        let result = fs ∙ ap (λ x. x.0) same_run in
        let (there, gone) =
          posix.rename_moves ts us m.fs n a.tokens b.tokens ne here file
            (sym (ap (λ x. x.1) same_run) ∙ done) in
        elim (Option-cases (print_names o c ms)) [
          | inl f ↦
              let e1 = unprinted-other o laws c (plain_names from) ms ts a.printed f in
              let e2 = unprinted-other o laws c (plain_names to) ms us b.printed f in ground arith
          | inr (ss, f) ↦ elim (Bool-cases (same_names ms (plain_names to))) [
            | inl same ↦
                let eq = named_same o laws c (plain_names to) ms us ss b.printed f same in
                let shown : posix.view after.fs ss ≡ some n = ap₂ posix.view result eq ∙ there in
                ground arith
            | inr other ↦
                let ne_to =
                  named_apart o laws c (plain_names to) ms us ss st sm b.printed f other in
                elim (Bool-cases (same_names ms (plain_names from))) [
                  | inl same ↦
                      let eq = named_same o laws c (plain_names from) ms ts ss a.printed f same in
                      let shown : posix.view after.fs ss ≡ none = ap₂ posix.view result eq ∙ gone in
                      ground arith
                  | inr another ↦
                      let ne_from =
                        named_apart o laws c (plain_names from) ms ts ss sf sm a.printed f
                          another in
                      let kept : posix.view after.fs ss ≡ posix.view m.fs ss =
                        ap (λ x. posix.view x ss) result
                        ∙ posix.rename_keeps ts us ss m.fs n a.tokens b.tokens
                            (print-Tokens o c ms ss f) ne_from ne_to here file in
                      ground arith
                ]
          ]
        ]

    rename_done :
        (ms : List Bytes) (r : ℕ)
        → c.aad ≡ none
        → AllShort c ms
        → (rvaultfs_rename o p base m from to).1 ≡ ok r
        → tree o p base posix (rvaultfs_rename o p base m from to).0 ms ≡ moved n ms
    unfolding rvaultfs_rename
    rename_done ms r h sm done =
        let k = (get_vault_path o p base m from).0 in
        elim (Result-cases (get_vault_path o p base m from).1) [
          | inl (e, f) ↦ absurd (ground arith)
          | inr (v, f) ↦
              let a = get_vault_path-Found o laws p base posix m k from v h (λ i. (k, f i)) in
              let j = (get_vault_path o p base k to).0 in
              elim (Result-cases (get_vault_path o p base k to).1) [
                | inl (e, g) ↦ absurd (ground arith)
                | inr (w, g) ↦
                    let b =
                      get_vault_path-Found o laws p base posix k j to w (ap (λ x. x.aad) a.keys ∙ h)
                        (λ i. (j, g i)) in
                    let after : Mount o p base = record j { fs = (p.rename v w j.fs).0 } in
                    let run : (rvaultfs_rename o p base m from to).0 ≡ after = ground arith in
                    let same_fs = b.same_fs ∙ a.same_fs in
                    let renamed : (p.rename v w j.fs).1 ≡ true = ground arith in
                    ap (λ x. tree o p base posix x ms) run
                    ∙ two_changed after b.left v w a.at
                        (retag-Located o c k.vault.crypto a.left base to w a.keys b.at)
                        (b.keys ∙ ap (λ (x : Crypto). record x { tag = b.left }) a.keys)
                        (ap (λ x. (p.rename v w x).0) same_fs)
                        (sym (ap (λ x. (p.rename v w x).1) same_fs) ∙ renamed) ms sm
              ]
        ]

    rename_failed :
        (ms : List Bytes) (e : Errno)
        → c.aad ≡ none
        → (rvaultfs_rename o p base m from to).1 ≡ fail e
        → tree o p base posix (rvaultfs_rename o p base m from to).0 ms ≡ tree o p base posix m ms
    unfolding rvaultfs_rename get_vault_path
    rename_failed ms e h failed =
        let k = (get_vault_path o p base m from).0 in
        let left = (rvault_resolve_path o c base from).0.tag in
        let frame = rvault_resolve_path_frame o c base from h in
        elim (Result-cases (get_vault_path o p base m from).1) [
          | inl (e', f) ↦
              let run : (rvaultfs_rename o p base m from to).0 ≡ k = ground arith in
              ap (λ x. tree o p base posix x ms) run
              ∙ tree_unchanged o laws p base posix m k left ms frame (λ ss t. refl)
          | inr (v, f) ↦
              let a = get_vault_path-Found o laws p base posix m k from v h (λ i. (k, f i)) in
              let j = (get_vault_path o p base k to).0 in
              let clean = ap (λ x. x.aad) a.keys ∙ h in
              let last = (rvault_resolve_path o k.vault.crypto base to).0.tag in
              let keys : j.vault.crypto ≡ record c { tag = last } =
                rvault_resolve_path_frame o k.vault.crypto base to clean
                ∙ ap (λ (x : Crypto). record x { tag = last }) a.keys in
              elim (Result-cases (get_vault_path o p base k to).1) [
                | inl (e', g) ↦
                    let run : (rvaultfs_rename o p base m from to).0 ≡ j = ground arith in
                    ap (λ x. tree o p base posix x ms) run
                    ∙ tree_unchanged o laws p base posix m j last ms keys (λ ss t. refl)
                | inr (w, g) ↦
                    let b =
                      get_vault_path-Found o laws p base posix k j to w clean (λ i. (j, g i)) in
                    let at = retag-Located o c k.vault.crypto a.left base to w a.keys b.at in
                    let after : Mount o p base = record j { fs = (p.rename v w m.fs).0 } in
                    let run : (rvaultfs_rename o p base m from to).0 ≡ after = ground arith in
                    let refused : (p.rename v w m.fs).1 ≡ false =
                      elim (Bool-cases (p.rename v w m.fs).1) [
                        | inl done ↦ absurd (ground arith)
                        | inr no_move ↦ no_move
                      ] in
                    let same_run : p.rename v w m.fs
                        ≡ p.rename (object base a.at.texts) (object base at.texts) m.fs =
                      ap₂ (λ x y. p.rename x y m.fs) a.at.spelled at.spelled in
                    ap (λ x. tree o p base posix x ms) run
                    ∙ tree_unchanged o laws p base posix m after last ms keys (λ ss t.
                      ap (λ x. posix.view (x.0) ss) same_run
                      ∙ posix.rename_fails a.at.texts at.texts ss m.fs a.at.tokens at.tokens t
                          (sym (ap (λ x. x.1) same_run) ∙ refused))
              ]
        ]

    -- Renaming a regular file to another name, with success, moves it in the tree that the vault's
    -- users see: it stands at the new name, whatever stood there is gone, nothing stands at the old
    -- name, and every other name is as it was. Renaming that fails leaves the whole tree. No AAD is
    -- set, and names are of at most 511 bytes with their padding.
    pub rvaultfs_rename-tree :
        (ms : List Bytes)
        → c.aad ≡ none
        → AllShort c ms
        → tree o p base posix (rvaultfs_rename o p base m from to).0 ms ≡ (
            if succeeded (rvaultfs_rename o p base m from to).1
            then moved n ms
            else tree o p base posix m ms)
    rvaultfs_rename-tree ms h sm = elim (Result-cases (rvaultfs_rename o p base m from to).1) [
      | inl (e, f) ↦ let same = rename_failed ms e h f in ground arith
      | inr (r, f) ↦ let done = rename_done ms r h sm f in ground arith
    ]
