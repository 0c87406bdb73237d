-- ===== src/Buffer.antt =====
-- The "secure" buffers of src/core/buffer.c, on the mappings of src/sys/mmap.c: fresh memory is
-- zero. Whether a mapping succeeds is an argument.
pub mod Copy
pub mod Move
use rvault.Prelude.{
  zero, ◌∷◌, suc, ℕ, ◌-◌, ◌*◌, ◌%◌, ◌^◌, Bool, true, false, ◌&&◌, Option, none, some, [], ◌++◌,
  ◌==◌, ltb, if◌then◌else◌, length, take, replicate,
}
use rvault.Prelude.Bytes.{Bytes}

-- sbuffer_t: `buf` is NULL or points at the contents.
pub record Sbuffer : Type 0 where
  pub buf : Option Bytes
  pub buf_size : ℕ

abbrev pub empty_sbuffer : Sbuffer
empty_sbuffer = record { buf = none; buf_size = 0 }

abbrev pub contents : Option Bytes → Bytes
contents none = []
contents (some bs) = bs

-- safe_mmap of anonymous, writeable memory.
abbrev pub safe_mmap : Bool → ℕ → Option Bytes
safe_mmap ok len = if ok then some (replicate len 0) else none

abbrev pub size_mod : ℕ
size_mod = 2 ^ 64

-- The length that sbuffer_move maps: twice the request if it grows, unless that overflows.
unfoldable pub grown : Bool → ℕ → ℕ → ℕ
grown growexp buf_size newlen =
    if growexp && ltb buf_size newlen && ltb newlen (newlen * 2 % size_mod)
    then newlen * 2 % size_mod
    else newlen

-- memcpy of the smaller of the two sizes into fresh memory.
abbrev pub copied : Bytes → ℕ → Bytes
copied old len = take len old ++ replicate (len - length old) 0

abbrev pub is_some : Option Bytes → Bool
is_some none = false
is_some (some bs) = true

-- sbuffer_move: the buffer afterwards, and whether the returned pointer is not NULL.
unfoldable pub sbuffer_move : Bool → Sbuffer → ℕ → Bool → Sbuffer × Bool
unfolding grown
sbuffer_move mmap_ok s newlen growexp =
    if s.buf_size == newlen
    then (s, is_some s.buf)
    else if newlen == 0
    then (empty_sbuffer, false)
    else let len = grown growexp s.buf_size newlen in
      if mmap_ok
      then (record { buf = some (copied (contents s.buf) len); buf_size = len }, true)
      else (s, false)

-- sbuffer_free.
abbrev pub sbuffer_free : Sbuffer → Sbuffer
sbuffer_free s = empty_sbuffer

-- memcpy of bytes to an offset of a buffer; what does not fit is dropped.
abbrev pub put_bytes : Bytes → Bytes → Bytes
put_bytes [] bs = []
put_bytes (x ∷ m) [] = x ∷ m
put_bytes (x ∷ m) (b ∷ bs) = b ∷ put_bytes m bs

abbrev pub memcpy_at : Bytes → ℕ → Bytes → Bytes
memcpy_at m zero bs = put_bytes m bs
memcpy_at [] (suc offset) bs = []
memcpy_at (x ∷ m) (suc offset) bs = x ∷ memcpy_at m offset bs
