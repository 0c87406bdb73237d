-- ===== src/Vault/Listing.antt =====
-- The names that rvault_iter_dir of src/core/rvault.c lists.
use rvault.Prelude.{
  drop, length, Option-cases, inl, inr, ◌≡◌, refl, ap, ◌∙◌, subst, true, false, Bool, none, some,
  List, [], ◌∷◌, arith, take,
}
use rvault.Prelude.Bytes.{Bytes, equal}
use rvault.Crypto.{Crypto, Ops, Laws, crypto_encrypt, crypto_set_aetag}
use rvault.Resolve.{
  rvault_unhex_aedata, component_size, rvault_fobj_pref, get_path_component, rvault_resolve_vname,
  decrypt_name,
}
use rvault.Resolve.Sealed.{IsShort, printed, rvault_resolve_vname-get_path_component}
use rvault.Vault.Rekeyed.{aetag-same}
use rvault.Vault.Dirs.{shown, is_dot, visit, iter_entries, rvault_iter_dir}

-- A directory's entries, and what they stand for under the keys of a crypto object: "." and ".."
-- for themselves, litter for nothing, and what get_path_component printed for its component.
pub data Lists (o : Ops) (c : Crypto) : List Bytes → List Bytes → Type 0 where
  nothing : Lists o c [] []
  dot :
      (v : Bytes) (es ns : List Bytes)
      → is_dot v ≡ true
      → Lists o c es ns
      → Lists o c (v ∷ es) (v ∷ ns)
  litter :
      (v : Bytes) (es ns : List Bytes)
      → is_dot v ≡ false
      → equal (take 3 v) rvault_fobj_pref ≡ false
      → Lists o c es ns
      → Lists o c (v ∷ es) ns
  object :
      (v pc : Bytes) (es ns : List Bytes)
      → IsShort c pc
      → (get_path_component o c pc).1 ≡ some v
      → Lists o c es ns
      → Lists o c (v ∷ es) (pc ∷ ns)

resolve_frame :
    (o : Ops) (ok : Bool) (c : Crypto) (v : Bytes)
    → c.aad ≡ none
    → (rvault_resolve_vname o ok c v).0 ≡ record c { tag = (rvault_resolve_vname o ok c v).0.tag }
unfolding rvault_resolve_vname decrypt_name
resolve_frame o ok c v h = elim (Option-cases (rvault_unhex_aedata (drop 3 v))) [
  | inl e ↦ ground arith
  | inr ((enc, tag), e) ↦ elim (Option-cases (crypto_set_aetag c tag (length tag))) [
    | inl f ↦ ground arith
    | inr (d, f) ↦ ground (arith, aetag-same c d tag (length tag) f)
  ]
]

printed_prefix :
    (o : Ops) (c : Crypto) (pc v : Bytes)
    → (get_path_component o c pc).1 ≡ some v
    → (is_dot v ≡ false) × (equal (take 3 v) rvault_fobj_pref ≡ true)
unfolding get_path_component is_dot equal
printed_prefix o c pc v h = elim (Option-cases (crypto_encrypt o c pc component_size).1) [
  | inl e ↦ absurd (ground arith)
  | inr (ct, e) ↦
      subst (λ x. (is_dot x ≡ false) × (equal (take 3 x) rvault_fobj_pref ≡ true))
        (printed o c pc v ct e h) (refl, refl)
]

iter_entries_shown :
    (o : Ops) (ok : Bool) (c d : Crypto) (v n : Bytes) (es : List Bytes)
    → visit o ok c v ≡ (d, shown n)
    → ((iter_entries o ok c (v ∷ es)).1 ≡ n ∷ (iter_entries o ok d es).1)
      × ((iter_entries o ok c (v ∷ es)).2 ≡ (iter_entries o ok d es).2)
unfolding iter_entries
iter_entries_shown o ok c d v n es h = (ground arith, ground arith)

-- A directory of names that the vault printed is listed to its end: each object by the component
-- that it stands for, "." and ".." as they are, and nothing else, in the order of the entries,
-- whatever tag was left in the crypto object, if it holds no AAD and memory suffices.
pub rvault_iter_dir-Lists :
    (o : Ops) (laws : Laws o) (c : Crypto) (u : Bytes) (es ns : List Bytes)
    → c.aad ≡ none
    → Lists o c es ns
    → ((rvault_iter_dir o true (record c { tag = u }) (some es)).1 ≡ ns)
      × ((rvault_iter_dir o true (record c { tag = u }) (some es)).2 ≡ true)
unfolding rvault_iter_dir iter_entries visit
rvault_iter_dir-Lists o laws c u _ _ h nothing = (refl, refl)
rvault_iter_dir-Lists o laws c u _ _ h (dot v es ns d l) =
    let ih = rvault_iter_dir-Lists o laws c u es ns h l in (ground (arith, ih), ground (arith, ih))
rvault_iter_dir-Lists o laws c u _ _ h (litter v es ns d p l) =
    let ih = rvault_iter_dir-Lists o laws c u es ns h l in (ground (arith, ih), ground (arith, ih))
rvault_iter_dir-Lists o laws c u _ _ h (object v pc es ns short printed l) =
    let t = (rvault_resolve_vname o true (record c { tag = u }) v).0.tag in
    let ih = rvault_iter_dir-Lists o laws c t es ns h l in
    let name = rvault_resolve_vname-get_path_component o laws c pc v u short printed in
    let frame = resolve_frame o true (record c { tag = u }) v h in
    let prefix = printed_prefix o c pc v printed in
    let step : visit o true (record c { tag = u }) v ≡ (record c { tag = t }, shown pc) =
      ground (arith, name, frame, prefix) in
    let (names, done) =
      iter_entries_shown o true (record c { tag = u }) (record c { tag = t }) v pc es step in
    (names ∙ ap (◌∷◌ pc) ih.0, done ∙ ih.1)
