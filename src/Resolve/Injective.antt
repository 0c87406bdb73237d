-- ===== src/Resolve/Injective.antt =====
-- Distinct names in a vault have distinct objects: the path that src/core/resolve.c prints
-- determines the names.
use rvault.Prelude.{
  ◌+◌, ◌≢◌, ◌≡◌, refl, ap, ap₂, ◌∙◌, sym, subst, none, some, List, [], ◌∷◌, ◌++◌, ◌<◌, arith,
  length, length-append, get_or, Option-cases, inl, inr,
}
use rvault.Prelude.Bytes.{Bytes}
use rvault.Crypto.{Crypto, Ops, Laws, crypto_encrypt}
use rvault.Resolve.{get_path_component, component_size}
use rvault.Resolve.Sealed.{printed, IsShort, rvault_resolve_vname-get_path_component}
use rvault.Resolve.Walk.{components, without_slash, rvault_resolve_path}
use rvault.Resolve.Stack.{joined, NoSlash, get_or-append}
use rvault.Resolve.Paths.{place, named, printed-NoSlash, rvault_resolve_path-named}
use rvault.Resolve.Plain.{root, plain_names, Prints, Printed, place-Mirrors}

-- Two texts are cut alike at their last slash.
NoSlash-cut : (t b s : Bytes) → NoSlash t → t ≢ b ++ (b'/' ∷ s)
NoSlash-cut t b s h e =
    let here = h (length b + 0) in
    let there : get_or t (length b + 0) 0 ≡ b'/' =
      ap (λ x. get_or x (length b + 0) 0) e ∙ get_or-append b (b'/' ∷ s) 0 in
    ground arith

last_cut :
    (a b t s : Bytes)
    → NoSlash t
    → NoSlash s
    → a ++ (b'/' ∷ t) ≡ b ++ (b'/' ∷ s)
    → (a ≡ b) × (t ≡ s)
last_cut [] [] t s ht hs e = (refl, cc)
last_cut [] (y ∷ b) t s ht hs e = absurd (NoSlash-cut t b s ht (cc))
last_cut (x ∷ a) [] t s ht hs e = absurd (NoSlash-cut s a t hs (cc))
last_cut (x ∷ a) (y ∷ b) t s ht hs e =
    let (same, rest) = last_cut a b t s ht hs (cc) in (ap₂ ◌∷◌ {x = x} {y = y} (cc) same, rest)

-- What get_path_component prints: no slash, and some text.
abbrev pub Tokens : List Bytes → Type 0
Tokens [] = Unit
Tokens (t ∷ ts) = NoSlash t × (0 < length t) × Tokens ts

joined_same : (ts ss : List Bytes) → Tokens ts → Tokens ss → joined ts ≡ joined ss → ts ≡ ss
unfolding joined
joined_same [] [] h g e = refl
joined_same [] (s ∷ ss) h g e =
    absurd (omega (arith, ap length e, length-append (joined ss) (b'/' ∷ s)))
joined_same (t ∷ ts) [] h g e =
    absurd (omega (arith, ap length e, length-append (joined ts) (b'/' ∷ t)))
joined_same (t ∷ ts) (s ∷ ss) h g e =
    let (rest, last) = last_cut (joined ts) (joined ss) t s h.0 g.0 e in
    ap₂ ◌∷◌ last (joined_same ts ss h.2 g.2 rest)

slash_append : (a b : Bytes) → b'/' ∷ without_slash a ≡ a → b'/' ∷ without_slash (a ++ b) ≡ a ++ b
unfolding without_slash
slash_append [] b h = cc
slash_append (c ∷ a) b h = ground arith

-- The first slash, which is left out, comes back.
first_slash :
    (t : Bytes) (ts : List Bytes) → b'/' ∷ without_slash (joined (t ∷ ts)) ≡ joined (t ∷ ts)
unfolding joined without_slash
first_slash t [] = refl
first_slash t (s ∷ ts) = let ih = first_slash s ts in slash_append (joined (s ∷ ts)) (b'/' ∷ t) ih

length-without_slash :
    (t : Bytes) (ts : List Bytes) → 0 < length t → 0 < length (without_slash (joined (t ∷ ts)))
unfolding joined
length-without_slash t ts h =
    omega (arith, ap length (first_slash t ts), length-append (joined ts) (b'/' ∷ t))

pub relative_same :
    (ts ss : List Bytes)
    → Tokens ts
    → Tokens ss
    → without_slash (joined ts) ≡ without_slash (joined ss)
    → ts ≡ ss
unfolding joined without_slash
relative_same [] [] h g e = refl
relative_same [] (s ∷ ss) h g e = absurd (omega (arith, ap length e, length-without_slash s ss g.1))
relative_same (t ∷ ts) [] h g e = absurd (omega (arith, ap length e, length-without_slash t ts h.1))
relative_same (t ∷ ts) (s ∷ ss) h g e =
    joined_same (t ∷ ts) (s ∷ ss) h g (sym (first_slash t ts) ∙ ap (◌∷◌ b'/') e ∙ first_slash s ss)

pub append_cancel : (b x y : Bytes) → b ++ x ≡ b ++ y → x ≡ y
append_cancel [] x y e = e
append_cancel (c ∷ b) x y e = append_cancel b x y (cc)

Prints-Tokens : (o : Ops) (c : Crypto) (n t : Bytes) → Prints o c n t → NoSlash t × (0 < length t)
unfolding get_path_component
Prints-Tokens o c n t p = (
  printed-NoSlash o (record c { tag = p.tag }) n t p.text,
  elim (Option-cases (crypto_encrypt o (record c { tag = p.tag }) n component_size).1) [
    | inl e ↦ absurd (ground (arith, p.text))
    | inr (ct, e) ↦
        subst (λ x. 0 < length x) (printed o (record c { tag = p.tag }) n t ct e p.text)
          (omega arith)
  ],
)

pub Printed-Tokens : (o : Ops) (c : Crypto) (ns ts : List Bytes) → Printed o c ns ts → Tokens ts
Printed-Tokens o c [] [] h = tt
Printed-Tokens o c (n ∷ ns) (t ∷ ts) h =
    let (clear, some_text) = Prints-Tokens o c n t h.0 in
    (clear, some_text, Printed-Tokens o c ns ts h.1)
Printed-Tokens o c [] (t ∷ ts) h = absurd h
Printed-Tokens o c (n ∷ ns) [] h = absurd h

-- Each name is short enough to be read back.
abbrev pub AllShort : Crypto → List Bytes → Type 0
AllShort c [] = Unit
AllShort c (n ∷ ns) = IsShort c n × AllShort c ns

retag-IsShort : (c : Crypto) (u n : Bytes) → IsShort c n → IsShort (record c { tag = u }) n
retag-IsShort c u n s = record {
  block_pos = s.block_pos;
  tag_small = s.tag_small;
  text_small = s.text_small;
  plain = s.plain;
}

one_print :
    (o : Ops) (laws : Laws o) (c : Crypto) (n m t : Bytes)
    → IsShort c n
    → IsShort c m
    → Prints o c n t
    → Prints o c m t
    → n ≡ m
one_print o laws c n m t sn sm p q =
    let as_n =
      rvault_resolve_vname-get_path_component o laws (record c { tag = p.tag }) n t []
        (retag-IsShort c p.tag n sn) p.text in
    let as_m =
      rvault_resolve_vname-get_path_component o laws (record c { tag = q.tag }) m t []
        (retag-IsShort c q.tag m sm) q.text in
    ground (arith, sym as_n ∙ as_m)

pub one_text :
    (o : Ops) (laws : Laws o) (c : Crypto) (ns ms ts : List Bytes)
    → AllShort c ns
    → AllShort c ms
    → Printed o c ns ts
    → Printed o c ms ts
    → ns ≡ ms
one_text o laws c [] [] [] hn hm p q = refl
one_text o laws c [] (m ∷ ms) [] hn hm p q = absurd q
one_text o laws c (n ∷ ns) ms [] hn hm p q = absurd p
one_text o laws c [] ms (t ∷ ts) hn hm p q = absurd p
one_text o laws c (n ∷ ns) [] (t ∷ ts) hn hm p q = absurd q
one_text o laws c (n ∷ ns) (m ∷ ms) (t ∷ ts) hn hm p q =
    ap₂ ◌∷◌ (one_print o laws c n m t hn.0 hm.0 p.0 q.0)
      (one_text o laws c ns ms ts hn.1 hm.1 p.1 q.1)

-- The stack of printed names behind a path that resolves.
pub record Resolved (o : Ops) (c : Crypto) (base path v : Bytes) : Type 0 where
  pub texts : List Bytes
  pub mirror : Printed o c (plain_names path) texts
  pub spelled : v ≡ base ++ (b'/' ∷ without_slash (joined texts))

pub resolve-Resolved :
    (o : Ops) (c : Crypto) (u base path v : Bytes)
    → c.aad ≡ none
    → (rvault_resolve_path o (record c { tag = u }) base path).1 ≡ some v
    → Resolved o c base path v
unfolding named plain_names
resolve-Resolved o c u base path v h r =
    let by_stack =
      sym (ap (λ x. x.1) (rvault_resolve_path-named o (record c { tag = u }) base path)) ∙ r in
    elim (Option-cases (place o (record c { tag = u }) root (components path)).1) [
      | inl fails ↦ absurd (ground arith)
      | inr (q, goes) ↦ record {
        texts = q.names;
        mirror =
            (place-Mirrors o c (components path) (record c { tag = u }) root root q h refl
              (record { names = tt; same = refl }) goes).names;
        spelled = ground arith;
      }
    ]

-- Two paths that resolve to the same object lead through the same names, if each name with its
-- padding has at most 511 bytes and no AAD is set, whatever tags were left in the crypto object: the
-- encrypted names of a vault do not collide.
pub rvault_resolve_path_injective :
    (o : Ops) (laws : Laws o) (c : Crypto) (u w base path other v : Bytes)
    → c.aad ≡ none
    → AllShort c (plain_names path)
    → AllShort c (plain_names other)
    → (rvault_resolve_path o (record c { tag = u }) base path).1 ≡ some v
    → (rvault_resolve_path o (record c { tag = w }) base other).1 ≡ some v
    → plain_names path ≡ plain_names other
rvault_resolve_path_injective o laws c u w base path other v h sp so r q =
    let a = resolve-Resolved o c u base path v h r in
    let b = resolve-Resolved o c w base other v h q in
    let tail = append_cancel base _ _ (sym a.spelled ∙ b.spelled) in
    let texts =
      relative_same a.texts b.texts (Printed-Tokens o c _ a.texts a.mirror)
        (Printed-Tokens o c _ b.texts b.mirror) (cc) in
    one_text o laws c _ _ a.texts sp so a.mirror
      (subst (Printed o c (plain_names other)) (sym texts) b.mirror)
