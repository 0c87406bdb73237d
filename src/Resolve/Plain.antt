-- ===== src/Resolve/Plain.antt =====
-- What the objects' paths of src/core/resolve.c stand for: the names that a path walks through,
-- unencrypted, against the printed names of the stack.
use rvault.Prelude.{
  ◌∙◌, ap, sym, Option, subst, ◌≡◌, refl, true, false, Bool, none, some, List, [], ◌∷◌,
  if◌then◌else◌, arith, Option-cases, inl, inr,
}
use rvault.Prelude.Bytes.{Bytes}
use rvault.Crypto.{Crypto, Ops, crypto_encrypt}
use rvault.Crypto.Inverse.{crypto_encrypt_frame}
use rvault.Resolve.{get_path_component, component_size}
use rvault.Resolve.Walk.{components, is_skipped, is_parent}
use rvault.Resolve.Paths.{place_component, place}
use rvault.Resolve.Stack.{Place, parent}

-- The walk over the components, with the names as they are.
unfoldable pub plain_component : Place → Bytes → Place
unfolding parent
plain_component p pc =
    if is_skipped pc
    then p
    else if is_parent pc
    then parent p.names p.trimmed
    else record { names = pc ∷ p.names; trimmed = false }

unfoldable pub plain : Place → List Bytes → Place
unfolding plain_component
plain p [] = p
plain p (pc ∷ pcs) = plain (plain_component p pc) pcs

abbrev pub root : Place
root = record { names = []; trimmed = false }

-- The names that a path leads through, the last one first.
unfoldable pub plain_names : Bytes → List Bytes
unfolding plain components
plain_names path = (plain root (components path)).names

-- A text that get_path_component prints for a name under the keys of a crypto object, whatever
-- tag is left in it.
pub record Prints (o : Ops) (c : Crypto) (n t : Bytes) : Type 0 where
  pub tag : Bytes
  pub text : (get_path_component o (record c { tag = tag }) n).1 ≡ some t

abbrev pub Printed : Ops → Crypto → List Bytes → List Bytes → Type 0
Printed o c [] [] = Unit
Printed o c (n ∷ ns) (t ∷ ts) = Prints o c n t × Printed o c ns ts
Printed o c [] (t ∷ ts) = ⊥
Printed o c (n ∷ ns) [] = ⊥

pub record Mirrors (o : Ops) (c : Crypto) (p q : Place) : Type 0 where
  pub names : Printed o c p.names q.names
  pub same : p.trimmed ≡ q.trimmed

parent-Mirrors :
    (o : Ops) (c : Crypto) (ns ts : List Bytes) (b d : Bool)
    → b ≡ d
    → Printed o c ns ts
    → Mirrors o c (parent ns b) (parent ts d)
unfolding parent
parent-Mirrors o c [] [] b d e h = record { names = h; same = e }
parent-Mirrors o c [] (t ∷ ts) b d e h = absurd h
parent-Mirrors o c (n ∷ ns) [] b d e h = absurd h
parent-Mirrors o c (n ∷ ns) (t ∷ ts) true true e h = record { names = h; same = refl }
parent-Mirrors o c (n ∷ ns) (t ∷ ts) false false e h = record { names = h.1; same = refl }
parent-Mirrors o c (n ∷ ns) (t ∷ ts) true false e h = cc
parent-Mirrors o c (n ∷ ns) (t ∷ ts) false true e h = cc

-- get_path_component leaves all but the tag.
pub get_path_component_frame :
    (o : Ops) (c : Crypto) (pc : Bytes)
    → c.aad ≡ none
    → (get_path_component o c pc).0 ≡ record c { tag = (get_path_component o c pc).0.tag }
unfolding get_path_component
get_path_component_frame o c pc h = elim (Option-cases (crypto_encrypt o c pc component_size).1) [
  | inl e ↦ ground (arith, crypto_encrypt_frame o c pc component_size)
  | inr (ct, e) ↦ ground (arith, crypto_encrypt_frame o c pc component_size)
]

-- What comes of a component: the keys stay, and a place mirrors the one without encryption.
record Next (o : Ops) (k : Crypto) (r : Crypto × Option Place) (p : Place) : Type 0 where
  left : Bytes
  keys : r.0 ≡ record k { tag = left }
  mirrors : (q : Place) → r.1 ≡ some q → Mirrors o k p q

if-Next :
    (o : Ops) (k : Crypto) (b : Bool) (r r' : Crypto × Option Place) (p p' : Place)
    → Next o k r p
    → Next o k r' p'
    → Next o k (if b then r else r') (if b then p else p')
if-Next o k true r r' p p' h g = h
if-Next o k false r r' p p' h g = g

stays-Next :
    (o : Ops) (k : Crypto) (u : Bytes) (p q : Place)
    → Mirrors o k p q
    → Next o k (record k { tag = u }, some q) p
stays-Next o k u p q m = record {
  left = u;
  keys = refl;
  mirrors = λ q' h. subst (Mirrors o k p) (ground arith) m;
}

name-Next :
    (o : Ops) (k : Crypto) (u : Bytes) (p q : Place) (pc : Bytes) (r : Crypto × Option Bytes)
    → get_path_component o (record k { tag = u }) pc ≡ r
    → k.aad ≡ none
    → Mirrors o k p q
    → Next o k
        (
          r.0,
          elim r.1 as (λ _. Option Place) [
            | none ↦ none
            | some t ↦ some (record { names = t ∷ q.names; trimmed = false })
          ],
        )
        (record { names = pc ∷ p.names; trimmed = false })
name-Next o k u p q pc (d, none) e h m = record {
  left = d.tag;
  keys =
      sym (ap (λ x. x.0) e)
      ∙ get_path_component_frame o (record k { tag = u }) pc h
      ∙ ap (λ x. record k { tag = x.0.tag }) e;
  mirrors = λ q' x. absurd (ground arith);
}
name-Next o k u p q pc (d, some t) e h m = record {
  left = d.tag;
  keys =
      sym (ap (λ x. x.0) e)
      ∙ get_path_component_frame o (record k { tag = u }) pc h
      ∙ ap (λ x. record k { tag = x.0.tag }) e;
  mirrors = λ q' x.
      subst (Mirrors o k (record { names = pc ∷ p.names; trimmed = false }))
        {x = record { names = t ∷ q.names; trimmed = false }} {y = q'} (ground arith)
        (record { names = (record { tag = u; text = ap (λ y. y.1) e }, m.names); same = refl });
}

component-Next :
    (o : Ops) (k : Crypto) (u : Bytes) (p q : Place) (pc : Bytes)
    → k.aad ≡ none
    → Mirrors o k p q
    → Next o k (place_component o (record k { tag = u }) q pc) (plain_component p pc)
unfolding place_component plain_component
component-Next o k u p q pc h m = if-Next o k (is_skipped pc) _ _ _ _ (stays-Next o k u p q m) (
    if-Next o k (is_parent pc) _ _ _ _
      (stays-Next o k u _ _ (parent-Mirrors o k p.names q.names p.trimmed q.trimmed m.same m.names))
      (name-Next o k u p q pc _ refl h m))

-- The place that a walk ends at mirrors the one without encryption.
pub place-Mirrors :
    (o : Ops) (k : Crypto) (pcs : List Bytes) (c : Crypto) (p q q' : Place)
    → k.aad ≡ none
    → c ≡ record k { tag = c.tag }
    → Mirrors o k p q
    → (place o c q pcs).1 ≡ some q'
    → Mirrors o k (plain p pcs) q'
unfolding place plain
place-Mirrors o k [] c p q q' h e m r = subst (Mirrors o k p) (ground arith) m
place-Mirrors o k (pc ∷ pcs) c p q q' h e m r =
    let step =
      subst (λ x. Next o k (place_component o x q pc) (plain_component p pc)) (sym e)
        (component-Next o k c.tag p q pc h m) in
    elim (Option-cases (place_component o c q pc).1) [
      | inl fails ↦ absurd (ground arith)
      | inr (q1, goes) ↦
          let d = (place_component o c q pc).0 in
          place-Mirrors o k pcs d (plain_component p pc) q1 q' h
            (step.keys ∙ ap (λ x. record k { tag = x.tag }) (sym step.keys)) (step.mirrors q1 goes)
            (ground arith)
    ]
