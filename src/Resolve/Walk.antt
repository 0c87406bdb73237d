-- ===== src/Resolve/Walk.antt =====
-- rvault_resolve_path of src/core/resolve.c: the walk over the components of a path, printed into
-- a memory stream that is rewound for "..". The stream does not fail.
use rvault.Prelude.{
  ℕ, zero, suc, ◌+◌, Bool, ◌||◌, Option, none, some, List, [], ◌∷◌, ◌++◌, ◌==◌, if◌then◌else◌,
  length, take, drop, get_or,
}
use rvault.Prelude.Bytes.{Bytes, codes, equal}
use rvault.Crypto.{Crypto, Ops}
use rvault.Resolve.{get_path_component}

-- The stream of open_memstream: what has been written, and the position.
pub record Stream : Type 0 where
  pub buf : Bytes
  pub pos : ℕ

-- fputs, and what get_path_component prints.
abbrev pub put : Stream → Bytes → Stream
put s bs = record {
  buf = take s.pos s.buf ++ (bs ++ drop (s.pos + length bs) s.buf);
  pos = s.pos + length bs;
}

-- The loop back to a slash, from the offset that ftell gives; behind the data the buffer is 0.
unfoldable pub last_slash : Bytes → ℕ → ℕ
last_slash buf zero = zero
last_slash buf (suc off) =
    let rest = last_slash buf off in if get_or buf (suc off) 0 == b'/' then suc off else rest

-- fseek to the last component.
abbrev pub trim : Stream → Stream
trim s = record s { pos = last_slash s.buf s.pos }

-- What strchrnul finds between slashes, the empty components too.
abbrev pub cons_component : ℕ → List Bytes → List Bytes
cons_component c [] = (c ∷ []) ∷ []
cons_component c (pc ∷ pcs) = (c ∷ pc) ∷ pcs

unfoldable pub components : Bytes → List Bytes
components [] = [] ∷ []
components (c ∷ path) =
    let rest = components path in if c == b'/' then [] ∷ rest else cons_component c rest

unfoldable pub is_skipped : Bytes → Bool
unfolding equal
is_skipped pc = equal pc [] || equal pc (codes ".")

unfoldable pub is_parent : Bytes → Bool
unfolding equal
is_parent pc = equal pc (codes "..")

-- `*buf == '/'`: the text without its first slash.
unfoldable pub without_slash : Bytes → Bytes
without_slash [] = []
without_slash (c ∷ text) = if c == b'/' then text else c ∷ text

module _ (o : Ops) where
  -- A component.
  unfoldable pub walk_component : Crypto → Stream → Bytes → Crypto × Option Stream
  walk_component c s pc =
      if is_skipped pc
      then (c, some s)
      else if is_parent pc
      then (c, some (trim s))
      else let (d, out) = get_path_component o c pc in
        (d, elim out [ none ↦ none | some text ↦ some (put (put s (b'/' ∷ [])) text) ])

  -- The loop.
  unfoldable pub walk : Crypto → Stream → List Bytes → Crypto × Option Stream
  unfolding walk_component
  walk c s [] = (c, some s)
  walk c s (pc ∷ pcs) =
      let (d, next) = walk_component c s pc in
      elim next [ none ↦ (d, none) | some t ↦ walk d t pcs ]

  -- rvault_resolve_path: the path of the object, or NULL. The text ends at the position.
  unfoldable pub rvault_resolve_path : Crypto → (base path : Bytes) → Crypto × Option Bytes
  unfolding walk components without_slash
  rvault_resolve_path c base path =
      let (d, end) = walk c (record { buf = []; pos = 0 }) (components path) in
      (
        d,
        elim end [
          | none ↦ none
          | some s ↦ some (base ++ (b'/' ∷ without_slash (take s.pos s.buf)))
        ],
      )
