-- ===== src/Fuse/Names.antt =====
-- The printed names of a tree of names: which they are, and that they do not depend on the tag.
use rvault.Prelude.{
  ◌≡◌, ◌≢◌, refl, ap, ◌∙◌, sym, subst, true, false, none, some, List, [], ◌∷◌, arith, Option-cases,
  Bool-cases, inl, inr,
}
use rvault.Prelude.Bytes.{Bytes}
use rvault.Crypto.{Crypto, Ops, Laws}
use rvault.Crypto.Inverse.{equal_refl, equal_sound}
use rvault.Resolve.{get_path_component}
use rvault.Resolve.Walk.{rvault_resolve_path}
use rvault.Resolve.Plain.{plain_names, Printed}
use rvault.Resolve.Injective.{Tokens, Printed-Tokens, AllShort, one_text, resolve-Resolved}
use rvault.Resolve.Stable.{get_path_component_again}
use rvault.Fuse.Tree.{object, print_names, same_names}

same_names_refl : (ns : List Bytes) → same_names ns ns ≡ true
unfolding same_names
same_names_refl [] = refl
same_names_refl (n ∷ ns) = ground (arith, equal_refl n, same_names_refl ns)

same_names_sound : (ns ms : List Bytes) → same_names ns ms ≡ true → ns ≡ ms
unfolding same_names
same_names_sound [] [] h = refl
same_names_sound (n ∷ ns) (m ∷ ms) h = ground (arith, equal_sound n m, same_names_sound ns ms)
same_names_sound [] (m ∷ ms) h = cc
same_names_sound (n ∷ ns) [] h = cc

print-Printed :
    (o : Ops) (c : Crypto) (ns ts : List Bytes) → print_names o c ns ≡ some ts → Printed o c ns ts
unfolding print_names
print-Printed o c [] ts h = subst (Printed o c []) {x = []} {y = ts} (ground arith) tt
print-Printed o c (n ∷ ns) ts h = elim (Option-cases (get_path_component o c n).1) [
  | inl e ↦ absurd (ground arith)
  | inr (t, e) ↦ elim (Option-cases (print_names o c ns)) [
    | inl f ↦ absurd (ground arith)
    | inr (us, f) ↦
        subst (Printed o c (n ∷ ns)) {x = t ∷ us} {y = ts} (ground arith)
          (record { tag = c.tag; text = e }, print-Printed o c ns us f)
  ]
]

module _ (o : Ops) (laws : Laws o) where
  pub Printed-print :
      (c : Crypto) (ns ts : List Bytes) → Printed o c ns ts → print_names o c ns ≡ some ts
  unfolding print_names
  Printed-print c [] [] h = refl
  Printed-print c [] (t ∷ ts) h = absurd h
  Printed-print c (n ∷ ns) [] h = absurd h
  Printed-print c (n ∷ ns) (t ∷ ts) h =
      let text = h.0.text in
      let again = get_path_component_again o laws c n h.0.tag in
      let rest = Printed-print c ns ts h.1 in ground arith

  pub print_again :
      (c : Crypto) (u : Bytes) (ns : List Bytes)
      → print_names o (record c { tag = u }) ns ≡ print_names o c ns
  unfolding print_names
  print_again c u [] = refl
  print_again c u (n ∷ ns) =
      let name = get_path_component_again o laws c n u in
      let rest = print_again c u ns in ground arith

  -- Names are the same exactly when what is printed for them is.
  pub named_same :
      (c : Crypto) (ns ms ts ss : List Bytes)
      → Printed o c ns ts
      → print_names o c ms ≡ some ss
      → same_names ms ns ≡ true
      → ss ≡ ts
  named_same c ns ms ts ss h e same =
      let there = subst (λ x. print_names o c x ≡ some ss) (same_names_sound ms ns same) e in
      let here = Printed-print c ns ts h in ground (arith, sym there ∙ here)

  pub named_apart :
      (c : Crypto) (ns ms ts ss : List Bytes)
      → AllShort c ns
      → AllShort c ms
      → Printed o c ns ts
      → print_names o c ms ≡ some ss
      → same_names ms ns ≡ false
      → ss ≢ ts
  named_apart c ns ms ts ss sn sm h e other same =
      let names =
        one_text o laws c ms ns ts sm sn (subst (Printed o c ms) same (print-Printed o c ms ss e))
          h in
      let clash : same_names ms ns ≡ true = ap (same_names ms) (sym names) ∙ same_names_refl ms in
      ground (arith, sym other ∙ clash)

  pub unprinted-other :
      (c : Crypto) (ns ms ts : List Bytes)
      → Printed o c ns ts
      → print_names o c ms ≡ none
      → same_names ms ns ≡ false
  unprinted-other c ns ms ts h e = elim (Bool-cases (same_names ms ns)) [
    | inl same ↦
        let here =
          subst (λ x. print_names o c x ≡ some ts) (sym (same_names_sound ms ns same))
            (Printed-print c ns ts h) in
        absurd (ground arith)
    | inr other ↦ other
  ]

pub print-Tokens :
    (o : Ops) (c : Crypto) (ns ts : List Bytes) → print_names o c ns ≡ some ts → Tokens ts
print-Tokens o c ns ts h = Printed-Tokens o c ns ts (print-Printed o c ns ts h)

-- The printed names behind a path that resolves.
pub record Located (o : Ops) (c : Crypto) (base path v : Bytes) : Type 0 where
  pub texts : List Bytes
  pub printed : Printed o c (plain_names path) texts
  pub tokens : Tokens texts
  pub spelled : v ≡ object base texts

pub resolve-Located :
    (o : Ops) (c : Crypto) (base path v : Bytes)
    → c.aad ≡ none
    → (rvault_resolve_path o c base path).1 ≡ some v
    → Located o c base path v
unfolding object
resolve-Located o c base path v h e =
    let r = resolve-Resolved o c c.tag base path v h e in
    record {
      texts = r.texts;
      printed = r.mirror;
      tokens = Printed-Tokens o c (plain_names path) r.texts r.mirror;
      spelled = r.spelled;
    }

retag-Printed :
    (o : Ops) (c : Crypto) (u : Bytes) (ns ts : List Bytes)
    → Printed o (record c { tag = u }) ns ts
    → Printed o c ns ts
retag-Printed o c u [] [] h = h
retag-Printed o c u [] (t ∷ ts) h = h
retag-Printed o c u (n ∷ ns) [] h = h
retag-Printed o c u (n ∷ ns) (t ∷ ts) h =
    (record { tag = h.0.tag; text = h.0.text }, retag-Printed o c u ns ts h.1)

-- The tag left does not matter to where a path is.
pub retag-Located :
    (o : Ops) (c d : Crypto) (u base path v : Bytes)
    → d ≡ record c { tag = u }
    → Located o d base path v
    → Located o c base path v
retag-Located o c d u base path v e l = record {
  texts = l.texts;
  printed =
      retag-Printed o c u (plain_names path) l.texts
        (subst (λ x. Printed o x (plain_names path) l.texts) e l.printed);
  tokens = l.tokens;
  spelled = l.spelled;
}
