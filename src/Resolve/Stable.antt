-- ===== src/Resolve/Stable.antt =====
-- A path resolves to the same object each time: src/core/resolve.c prints a name alike whatever
-- tag an earlier encryption left.
use rvault.Prelude.{
  ◌≡◌, refl, ap, ◌∙◌, sym, subst, true, false, Bool, Option, none, some, List, [], ◌∷◌, ◌++◌, arith,
  Option-cases, inl, inr, if◌then◌else◌,
}
use rvault.Prelude.Bytes.{Bytes}
use rvault.Crypto.{Crypto, Ops, Laws, crypto_encrypt}
use rvault.Crypto.Again.{crypto_encrypt_again}
use rvault.Resolve.{get_path_component, component_size}
use rvault.Resolve.Walk.{components, without_slash, rvault_resolve_path, is_skipped, is_parent}
use rvault.Resolve.Stack.{Place, joined, parent}
use rvault.Resolve.Paths.{place, place_component, named, rvault_resolve_path-named}
use rvault.Resolve.Plain.{get_path_component_frame}

module _ (o : Ops) (laws : Laws o) where
  pub get_path_component_again :
      (c : Crypto) (pc u : Bytes)
      → (get_path_component o (record c { tag = u }) pc).1 ≡ (get_path_component o c pc).1
  unfolding get_path_component
  get_path_component_again c pc u =
      let (out, tag) = crypto_encrypt_again o laws c pc u component_size in
      elim (Option-cases (crypto_encrypt o c pc component_size).1) [
        | inl e ↦ ground arith
        | inr (ct, e) ↦ let same = tag ct e in ground arith
      ]

-- Two outcomes that differ in the tag left at most.
pub record Alike {A : Type 0} (r r' : Crypto × A) : Type 0 where
  pub left : Bytes
  pub keys : r.0 ≡ record (r'.0) { tag = left }
  pub clear : r'.0.aad ≡ none
  pub out : r.1 ≡ r'.1

if-Alike :
    {A : Type 0} (b : Bool) (r r' q q' : Crypto × A)
    → Alike r r'
    → Alike q q'
    → Alike (if b then r else q) (if b then r' else q')
if-Alike true r r' q q' h g = h
if-Alike false r r' q q' h g = g

module _ (o : Ops) (laws : Laws o) where
  printed-Alike :
      (c : Crypto) (u pc : Bytes)
      → c.aad ≡ none
      → Alike (get_path_component o (record c { tag = u }) pc) (get_path_component o c pc)
  printed-Alike c u pc h =
      let frame = get_path_component_frame o c pc h in
      let t = (get_path_component o (record c { tag = u }) pc).0.tag in
      record {
        left = t;
        keys =
            get_path_component_frame o (record c { tag = u }) pc h
            ∙ ap (λ (x : Crypto). record x { tag = t }) (sym frame);
        clear = ap (λ x. x.aad) frame ∙ h;
        out = get_path_component_again o laws c pc u;
      }

  component-Alike :
      (c : Crypto) (u : Bytes) (q : Place) (pc : Bytes)
      → c.aad ≡ none
      → Alike (place_component o (record c { tag = u }) q pc) (place_component o c q pc)
  unfolding place_component
  component-Alike c u q pc h =
      let stays : (p : Place)
          → Alike {A = Option Place} (record c { tag = u }, some p) (c, some p) =
        λ p. record { left = u; keys = refl; clear = h; out = refl } in
      if-Alike (is_skipped pc) _ _ _ _ (stays q) (
        if-Alike (is_parent pc) _ _ _ _ (stays (parent q.names q.trimmed)) (
          let a = printed-Alike c u pc h in
          record {
            left = a.left;
            keys = a.keys;
            clear = a.clear;
            out =
                ap
                  (λ out. elim out as (λ _. Option Place) [
                    | none ↦ none
                    | some t ↦ some (record { names = t ∷ q.names; trimmed = false })
                  ])
                  a.out;
          }))

  place_again :
      (pcs : List Bytes) (c d : Crypto) (u : Bytes) (q : Place)
      → c.aad ≡ none
      → d ≡ record c { tag = u }
      → (place o d q pcs).1 ≡ (place o c q pcs).1
  unfolding place
  place_again [] c d u q h e = refl
  place_again (pc ∷ pcs) c d u q h e =
      let a =
        subst (λ x. Alike (place_component o x q pc) (place_component o c q pc)) (sym e)
          (component-Alike c u q pc h) in
      elim (Option-cases (place_component o c q pc).1) [
        | inl fails ↦ let same = a.out in ground arith
        | inr (q1, goes) ↦
            let same = a.out in
            let ih =
              place_again pcs (place_component o c q pc).0 (place_component o d q pc).0 a.left q1
                a.clear a.keys in
            ground arith
      ]

  -- A path resolves to the same object, or fails, whatever tag was left in the crypto object.
  pub rvault_resolve_path_again :
      (c : Crypto) (u base path : Bytes)
      → c.aad ≡ none
      → (rvault_resolve_path o (record c { tag = u }) base path).1
        ≡ (rvault_resolve_path o c base path).1
  unfolding named
  rvault_resolve_path_again c u base path h =
      let start : Place = record { names = []; trimmed = false } in
      let same = place_again (components path) c (record c { tag = u }) u start h refl in
      ap (λ x. x.1) (rvault_resolve_path-named o (record c { tag = u }) base path)
      ∙ ap
          (λ end. elim end as (λ _. Option Bytes) [
            | none ↦ none
            | some p ↦ some (base ++ (b'/' ∷ without_slash (joined p.names)))
          ])
          same
      ∙ sym (ap (λ x. x.1) (rvault_resolve_path-named o c base path))

module _ (o : Ops) where
  component_frame :
      (c : Crypto) (q : Place) (pc : Bytes)
      → c.aad ≡ none
      → (place_component o c q pc).0 ≡ record c { tag = (place_component o c q pc).0.tag }
  unfolding place_component
  component_frame c q pc h = ground (arith, get_path_component_frame o c pc h)

  place_frame :
      (pcs : List Bytes) (c : Crypto) (q : Place)
      → c.aad ≡ none
      → (place o c q pcs).0 ≡ record c { tag = (place o c q pcs).0.tag }
  unfolding place
  place_frame [] c q h = refl
  place_frame (pc ∷ pcs) c q h =
      let first = component_frame c q pc h in
      elim (Option-cases (place_component o c q pc).1) [
        | inl fails ↦ ground arith
        | inr (q1, goes) ↦
            let ih = place_frame pcs (place_component o c q pc).0 q1 (ap (λ x. x.aad) first ∙ h) in
            ground arith
      ]

  -- Resolving a path leaves all but the tag.
  pub rvault_resolve_path_frame :
      (c : Crypto) (base path : Bytes)
      → c.aad ≡ none
      → (rvault_resolve_path o c base path).0
        ≡ record c { tag = (rvault_resolve_path o c base path).0.tag }
  unfolding named
  rvault_resolve_path_frame c base path h =
      let same = rvault_resolve_path-named o c base path in
      ap (λ x. x.0) same
      ∙ place_frame (components path) c (record { names = []; trimmed = false }) h
      ∙ ap (λ (x : Crypto × Option Bytes). record c { tag = x.0.tag }) (sym same)
