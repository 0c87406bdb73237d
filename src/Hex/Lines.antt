-- ===== src/Hex/Lines.antt =====
-- One line of wrapped hexadecimal text: what it holds, and what `hex_read_arbitrary` makes of it.
use mathlib.Core.List.{reverse, reverse_aux, reverse_aux-append, reverse-reverse}
use rvault.Prelude.{
  ◌/◌, ℕ, ◌+◌, ◌*◌, ◌%◌, ◌≤◌, ◌<◌, ◌≡◌, refl, sym, ap, ap₂, ◌∙◌, true, false, List, [], ◌∷◌, ◌++◌,
  append_assoc, arith, ◌==◌, length, length-append, take_all, drop_all,
}
use rvault.Prelude.Bytes.{Bytes, AreBytes}
use rvault.Hex.{
  hex_digit, hex_byte, hex_write_wrapped, read_block, read_blocks, buf_size, hex_read_arbitrary,
}
use rvault.Hex.Decode.{read_block-hex_byte}
use rvault.Hex.RoundTrip.{read_blocks_nil, read_blocks_step}

abbrev pub Pairs : Type 0
Pairs = List (ℕ × ℕ)

abbrev pub flat : Pairs → Bytes
flat [] = []
flat ((a, b) ∷ ps) = a ∷ b ∷ flat ps

-- Full blocks of a row, each with the space behind it.
abbrev pub groups : Pairs → Bytes
groups [] = []
groups ((a, b) ∷ ps) = hex_byte a ++ (b' ' ∷ (hex_byte b ++ (b' ' ∷ groups ps)))

-- Neither a newline nor the mark of a section.
abbrev pub IsPlainChar : ℕ → Type 0
IsPlainChar c = ((c == b'\n') ≡ false) × ((c == b'#') ≡ false)

abbrev pub IsPlain : Bytes → Type 0
IsPlain [] = Unit
IsPlain (c ∷ cs) = IsPlainChar c × IsPlain cs

pub groups-concat :
    (ps : Pairs) (a b : ℕ) → groups (ps ++ (a, b) ∷ []) ≡ groups ps ++ groups ((a, b) ∷ [])
groups-concat [] a b = refl
groups-concat ((c, d) ∷ ps) a b = rw (groups-concat ps a b)

pub flat-concat : (ps : Pairs) (a b : ℕ) → flat (ps ++ (a, b) ∷ []) ≡ flat ps ++ (a ∷ b ∷ [])
flat-concat [] a b = refl
flat-concat ((c, d) ∷ ps) a b = rw (flat-concat ps a b)

pub length-groups : (ps : Pairs) → length (groups ps) ≡ 6 * length ps
length-groups [] = refl
length-groups ((a, b) ∷ ps) = omega (arith, length-groups ps)

read_block_space : (cs buf : Bytes) → read_block (b' ' ∷ cs) false buf ≡ read_block cs false buf
unfolding read_block
read_block_space cs buf = refl

read_block_newline : (buf : Bytes) → read_block (b'\n' ∷ []) false buf ≡ buf
unfolding read_block
read_block_newline buf = refl

pub read_block-groups :
    (ps : Pairs) (cs buf : Bytes)
    → AreBytes (flat ps)
    → read_block (groups ps ++ cs) false buf ≡ read_block cs false (reverse_aux (flat ps) buf)
read_block-groups [] cs buf h = refl
read_block-groups ((a, b) ∷ ps) cs buf h =
    read_block-hex_byte a _ buf h.0
    ∙ read_block_space _ (a ∷ buf)
    ∙ read_block-hex_byte b _ (a ∷ buf) h.1.0
    ∙ read_block_space _ (b ∷ a ∷ buf)
    ∙ read_block-groups ps cs (b ∷ a ∷ buf) h.1.1

-- A stream of one block at most.
pub hex_read_arbitrary_short :
    (line : Bytes)
    → length line ≤ 1024
    → hex_read_arbitrary line ≡ reverse (read_block line false [])
unfolding hex_read_arbitrary
hex_read_arbitrary_short [] h = refl
hex_read_arbitrary_short (c ∷ cs) h = ap reverse (
    read_blocks_step (length cs) (c ∷ cs) []
    ∙ ap₂ (λ rest block. read_blocks (length cs) rest (read_block block false []))
        (drop_all buf_size (c ∷ cs) h) (take_all buf_size (c ∷ cs) h)
    ∙ read_blocks_nil (length cs) (read_block (c ∷ cs) false []))

-- What a row may end with: nothing, one byte, or its last block without the space.
pub data Tail : Bytes → Bytes → Type 0 where
  no_tail : Tail [] []
  one : (a : ℕ) → Tail (hex_byte a) (a ∷ [])
  two : (a b : ℕ) → Tail (hex_byte a ++ (b' ' ∷ hex_byte b)) (a ∷ b ∷ [])

pub read_block-Tail :
    {t d : Bytes} (buf : Bytes)
    → Tail t d
    → AreBytes d
    → read_block (t ++ b'\n' ∷ []) false buf ≡ reverse_aux d buf
read_block-Tail buf no_tail h = read_block_newline buf
read_block-Tail buf (one a) h =
    read_block-hex_byte a (b'\n' ∷ []) buf h.0 ∙ read_block_newline (a ∷ buf)
read_block-Tail buf (two a b) h =
    read_block-hex_byte a (b' ' ∷ (hex_byte b ++ b'\n' ∷ [])) buf h.0
    ∙ read_block_space (hex_byte b ++ b'\n' ∷ []) (a ∷ buf)
    ∙ read_block-hex_byte b (b'\n' ∷ []) (a ∷ buf) h.1.0
    ∙ read_block_newline (b ∷ a ∷ buf)

length-Tail : {t d : Bytes} → Tail t d → length t ≤ 5
length-Tail no_tail = omega arith
length-Tail (one a) = omega arith
length-Tail (two a b) = omega arith

-- A row of at most twelve blocks is read back whole.
pub hex_read_arbitrary_row :
    {t d : Bytes} (ps : Pairs)
    → Tail t d
    → AreBytes (flat ps)
    → AreBytes d
    → length ps ≤ 12
    → hex_read_arbitrary (groups ps ++ (t ++ b'\n' ∷ [])) ≡ flat ps ++ d
hex_read_arbitrary_row {t} {d} ps r h k short =
    hex_read_arbitrary_short (groups ps ++ (t ++ b'\n' ∷ [])) (
      omega (
        arith,
        length-append (groups ps) (t ++ b'\n' ∷ []),
        length-append t (b'\n' ∷ []),
        length-groups ps,
        length-Tail r,
      ))
    ∙ ap reverse (read_block-groups ps (t ++ b'\n' ∷ []) [] h ∙ read_block-Tail _ r k)
    ∙ ap reverse (sym (reverse_aux-append (flat ps) d []))
    ∙ reverse-reverse (flat ps ++ d)

hex_digit-IsPlainChar : (d : ℕ) → d < 16 → IsPlainChar (hex_digit d)
hex_digit-IsPlainChar d h = ground arith

hex_byte-IsPlain : (b : ℕ) (cs : Bytes) → b < 256 → IsPlain cs → IsPlain (hex_byte b ++ cs)
hex_byte-IsPlain b cs h p = (
  hex_digit-IsPlainChar (b / 16) (omega arith),
  (hex_digit-IsPlainChar (b % 16) (omega arith), p),
)

IsPlain-space : (cs : Bytes) → IsPlain cs → IsPlain (b' ' ∷ cs)
IsPlain-space cs p = ((refl, refl), p)

pub IsPlain-groups :
    (ps : Pairs) (cs : Bytes) → AreBytes (flat ps) → IsPlain cs → IsPlain (groups ps ++ cs)
IsPlain-groups [] cs h p = p
IsPlain-groups ((a, b) ∷ ps) cs h p =
    hex_byte-IsPlain a (b' ' ∷ (hex_byte b ++ (b' ' ∷ (groups ps ++ cs)))) h.0 (
      IsPlain-space (hex_byte b ++ (b' ' ∷ (groups ps ++ cs))) (
        hex_byte-IsPlain b (b' ' ∷ (groups ps ++ cs)) h.1.0
          (IsPlain-space (groups ps ++ cs) (IsPlain-groups ps cs h.1.1 p))))

pub IsPlain-Tail : {t d : Bytes} → Tail t d → AreBytes d → IsPlain t
IsPlain-Tail no_tail h = tt
IsPlain-Tail (one a) h = hex_byte-IsPlain a [] h.0 tt
IsPlain-Tail (two a b) h =
    hex_byte-IsPlain a (b' ' ∷ hex_byte b) h.0
      (IsPlain-space (hex_byte b) (hex_byte-IsPlain b [] h.1.0 tt))

-- A block that does not end a row, and one that does.
pub hex_write_wrapped_inner :
    (n : ℕ) (ps : Pairs) (a b : ℕ) (bs cs : Bytes)
    → ((n + 1) % 12 == 0) ≡ false
    → groups ps ++ (hex_write_wrapped n (a ∷ b ∷ bs) ++ cs)
      ≡ groups (ps ++ (a, b) ∷ []) ++ (hex_write_wrapped (n + 1) bs ++ cs)
unfolding hex_write_wrapped
hex_write_wrapped_inner n ps a b bs cs h =
    rw (h, groups-concat ps a b) (sym (append_assoc (groups ps) (groups ((a, b) ∷ [])) _))

pub hex_write_wrapped_end :
    (n : ℕ) (a b : ℕ) (bs cs : Bytes)
    → ((n + 1) % 12 == 0) ≡ true
    → hex_write_wrapped n (a ∷ b ∷ bs) ++ cs
      ≡ (hex_byte a ++ (b' ' ∷ hex_byte b)) ++ (b'\n' ∷ (hex_write_wrapped (n + 1) bs ++ cs))
unfolding hex_write_wrapped
hex_write_wrapped_end n a b bs cs h = rw h
