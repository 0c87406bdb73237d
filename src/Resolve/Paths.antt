-- ===== src/Resolve/Paths.antt =====
-- rvault_resolve_path of src/core/resolve.c names what a stack of components names.
use rvault.Prelude.{
  ◌≡◌, refl, ap, ◌∙◌, true, false, Bool, Option, none, some, List, [], ◌∷◌, ◌++◌, if◌then◌else◌,
  arith, length, take, take-append, Option-cases, inl, inr, ◌/◌, ◌%◌, subst,
}
use rvault.Prelude.Bytes.{Bytes}
use rvault.Hex.{hex_write, hex_digit}
use rvault.Crypto.{Crypto, Ops, crypto_encrypt}
use rvault.Resolve.{get_path_component, component_size}
use rvault.Resolve.Sealed.{printed}
use rvault.Resolve.Walk.{
  Stream, put, trim, components, is_skipped, is_parent, without_slash, walk_component, walk,
  rvault_resolve_path,
}
use rvault.Resolve.Stack.{
  Place, joined, parent, NoSlash, NoSlash-nil, NoSlash-cons, NoSlash-append, Holds, put-Holds,
  trim-Holds, clean,
}

hex_write-NoSlash : (bs : Bytes) → NoSlash (hex_write bs)
unfolding hex_write
hex_write-NoSlash [] = NoSlash-nil
hex_write-NoSlash (b ∷ bs) =
    NoSlash-cons (hex_digit (b / 16)) (hex_digit (b % 16) ∷ hex_write bs) (ground arith)
      (NoSlash-cons (hex_digit (b % 16)) (hex_write bs) (ground arith) (hex_write-NoSlash bs))

pub printed-NoSlash :
    (o : Ops) (c : Crypto) (pc t : Bytes) → (get_path_component o c pc).1 ≡ some t → NoSlash t
unfolding get_path_component
printed-NoSlash o c pc t h = elim (Option-cases (crypto_encrypt o c pc component_size).1) [
  | inl e ↦ absurd (ground arith)
  | inr (ct, e) ↦
      let tag = (crypto_encrypt o c pc component_size).0.tag in
      let sealed_text = hex_write ct ++ (b':' ∷ hex_write tag) in
      subst NoSlash (printed o c pc t ct e h) (
        NoSlash-cons b'R' (b'V' ∷ (b':' ∷ sealed_text)) refl (
          NoSlash-cons b'V' (b':' ∷ sealed_text) refl (
            NoSlash-cons b':' sealed_text refl (
              NoSlash-append (hex_write ct) (b':' ∷ hex_write tag) (hex_write-NoSlash ct)
                (NoSlash-cons b':' (hex_write tag) refl (hex_write-NoSlash tag))))))
]

module _ (o : Ops) where
  -- A component: "" and "." stay, ".." goes to the parent, and a name is encrypted and added.
  unfoldable pub place_component : Crypto → Place → Bytes → Crypto × Option Place
  unfolding parent
  place_component c p pc =
      if is_skipped pc
      then (c, some p)
      else if is_parent pc
      then (c, some (parent p.names p.trimmed))
      else let (d, out) = get_path_component o c pc in
        (
          d,
          elim out [
            | none ↦ none
            | some t ↦ some (record { names = t ∷ p.names; trimmed = false })
          ],
        )

  unfoldable pub place : Crypto → Place → List Bytes → Crypto × Option Place
  unfolding place_component
  place c p [] = (c, some p)
  place c p (pc ∷ pcs) =
      let (d, next) = place_component c p pc in
      elim next [ none ↦ (d, none) | some q ↦ place d q pcs ]

  -- The object that a path names: the names joined behind the vault's directory.
  unfoldable pub named : Crypto → (base path : Bytes) → Crypto × Option Bytes
  unfolding place components joined without_slash
  named c base path =
      let (d, end) = place c (record { names = []; trimmed = false }) (components path) in
      (
        d,
        elim end [ none ↦ none | some p ↦ some (base ++ (b'/' ∷ without_slash (joined p.names))) ],
      )

-- The two walks end alike.
data Agree : Crypto × Option Stream → Crypto × Option Place → Type 0 where
  fails : (c : Crypto) → Agree (c, none) (c, none)
  ends : (c : Crypto) (s : Stream) (p : Place) → Holds s p → Agree (c, some s) (c, some p)

if-Agree :
    (t : Bool) (r r' : Crypto × Option Stream) (q q' : Crypto × Option Place)
    → Agree r q
    → (t ≡ false → Agree r' q')
    → Agree (if t then r else r') (if t then q else q')
if-Agree true r r' q q' h g = h
if-Agree false r r' q q' h g = g refl

put-Agree :
    (c : Crypto) (s : Stream) (p : Place) (out : Option Bytes)
    → Holds s p
    → ((t : Bytes) → out ≡ some t → NoSlash t)
    → Agree
        (
          c,
          elim out as (λ _. Option Stream) [
            | none ↦ none
            | some t ↦ some (put (put s (b'/' ∷ [])) t)
          ],
        )
        (
          c,
          elim out as (λ _. Option Place) [
            | none ↦ none
            | some t ↦ some (record { names = t ∷ p.names; trimmed = false })
          ],
        )
put-Agree c s p none h g = fails c
put-Agree c s p (some t) h g = ends c _ _ (put-Holds s p t h (g t refl))

component-Agree :
    (o : Ops) (c : Crypto) (s : Stream) (p : Place) (pc : Bytes)
    → Holds s p
    → Agree (walk_component o c s pc) (place_component o c p pc)
unfolding walk_component place_component
component-Agree o c s p pc h = if-Agree (is_skipped pc) _ _ _ _ (ends c s p h) (λ _.
    if-Agree (is_parent pc) _ _ _ _
      (ends c (trim s) (parent p.names p.trimmed) (trim-Holds s p.names p.trimmed h))
      (λ _.
        put-Agree (get_path_component o c pc).0 s p (get_path_component o c pc).1 h
          (printed-NoSlash o c pc)))

-- What is done with either walk's place.
next-Agree :
    (o : Ops) (pcs : List Bytes) (r : Crypto × Option Stream) (q : Crypto × Option Place)
    → Agree r q
    → ((d : Crypto) (s : Stream) (p : Place) → Holds s p → Agree (walk o d s pcs) (place o d p pcs))
    → Agree
        (elim r.1 as (λ _. Crypto × Option Stream) [
          | none ↦ (r.0, none)
          | some t ↦ walk o r.0 t pcs
        ])
        (elim q.1 as (λ _. Crypto × Option Place) [
          | none ↦ (q.0, none)
          | some t ↦ place o q.0 t pcs
        ])
next-Agree o pcs _ _ (fails c) g = fails c
next-Agree o pcs _ _ (ends c s p h) g = g c s p h

walk-Agree :
    (o : Ops) (c : Crypto) (s : Stream) (p : Place) (pcs : List Bytes)
    → Holds s p
    → Agree (walk o c s pcs) (place o c p pcs)
unfolding walk place
walk-Agree o c s p [] h = ends c s p h
walk-Agree o c s p (pc ∷ pcs) h =
    next-Agree o pcs (walk_component o c s pc) (place_component o c p pc)
      (component-Agree o c s p pc h) (λ d t q k. walk-Agree o d t q pcs k)

abbrev stream_path : Bytes → Crypto × Option Stream → Crypto × Option Bytes
stream_path base r = (
  r.0,
  elim r.1 [ none ↦ none | some s ↦ some (base ++ (b'/' ∷ without_slash (take s.pos s.buf))) ],
)

abbrev place_path : Bytes → Crypto × Option Place → Crypto × Option Bytes
place_path base q = (
  q.0,
  elim q.1 [ none ↦ none | some p ↦ some (base ++ (b'/' ∷ without_slash (joined p.names))) ],
)

text-Agree :
    (base : Bytes) (r : Crypto × Option Stream) (q : Crypto × Option Place)
    → Agree r q
    → stream_path base r ≡ place_path base q
text-Agree base _ _ (fails c) = refl
text-Agree base _ _ (ends c s p h) =
    let text : take s.pos s.buf ≡ joined p.names =
      ap (λ x. take x.pos x.buf) h.stream
      ∙ take-append (length (joined p.names)) (joined p.names) h.b refl in
    λ i. (c, some (base ++ (b'/' ∷ without_slash (text i))))

-- rvault_resolve_path names the object that the stack of names gives: "" and "." are skipped, a
-- name is added as get_path_component prints it, and ".." drops the last name, but not a second
-- time before another name has been added. A name that cannot be printed fails in both, and both
-- leave the same crypto object.
pub rvault_resolve_path-named :
    (o : Ops) (c : Crypto) (base path : Bytes)
    → rvault_resolve_path o c base path ≡ named o c base path
unfolding rvault_resolve_path named
rvault_resolve_path-named o c base path =
    text-Agree base (walk o c (record { buf = []; pos = 0 }) (components path)) _ (
      walk-Agree o c (record { buf = []; pos = 0 }) (record { names = []; trimmed = false })
        (components path)
        (record { b = []; stream = refl; behind = clean [] NoSlash-nil; slashless = tt }))
