-- ===== src/Hex.antt =====
-- Hexadecimal text, of src/misc/utils.c: `hex_write`, `hex_write_wrapped` and
-- `hex_read_arbitrary`. A stdio stream is the list of the characters written to it or still to
-- be read from it; memory streams do not fail.
pub mod Decode
pub mod Lines
pub mod RoundTrip
use rvault.Prelude.{
  ℕ, zero, suc, ◌+◌, ◌-◌, ◌*◌, ◌/◌, ◌%◌, bit_or, Bool, true, false, not, ◌&&◌, ◌||◌, [], ◌∷◌, ◌++◌,
  ◌==◌, ltb, leb, if◌then◌else◌, length, take, drop,
}
use rvault.Prelude.Bytes.{Bytes}
use mathlib.Core.List.{reverse}

-- One digit of the `x` conversion of fprintf.
abbrev pub hex_digit : ℕ → ℕ
hex_digit d = if ltb d 10 then 48 + d else 87 + d

-- `fprintf(stream, "%02x", b)` for a byte.
abbrev pub hex_byte : ℕ → Bytes
hex_byte b = hex_digit (b / 16) ∷ hex_digit (b % 16) ∷ []

-- hex_write and hex_write_str: the characters printed; the returned count is their number.
unfoldable pub hex_write : Bytes → Bytes
hex_write [] = []
hex_write (b ∷ bs) = hex_digit (b / 16) ∷ hex_digit (b % 16) ∷ hex_write bs

-- hex_write_wrapped: `n` is the number of blocks printed before.
unfoldable pub hex_write_wrapped : ℕ → Bytes → Bytes
hex_write_wrapped n (b0 ∷ b1 ∷ bs) =
    let endb = if (n + 1) % 12 == 0 then b'\n' else b' ' in
    hex_byte b0 ++ (b' ' ∷ (hex_byte b1 ++ (endb ∷ hex_write_wrapped (n + 1) bs)))
hex_write_wrapped n (b0 ∷ []) = hex_byte b0
hex_write_wrapped n [] = []

-- tolower(3) in the C locale.
abbrev pub tolower : ℕ → ℕ
tolower c = if leb b'A' c && leb c b'Z' then c + 32 else c

-- isxdigit(3), of a lower-case character.
abbrev pub is_xdigit : ℕ → Bool
is_xdigit c = leb b'0' c && leb c b'9' || leb b'a' c && leb c b'f'

-- The value of a digit: `halfb -= (halfb >= 'a') ? ('a' - 10) : '0'`.
abbrev pub halfb : ℕ → ℕ
halfb c = if leb b'a' c then c - 87 else c - 48

-- Where a digit goes: with `hf` it completes the last byte of the buffer, otherwise it starts a
-- byte. The buffer is held with its last byte first.
pub push_half : Bool → ℕ → Bytes → Bytes
push_half true h (b ∷ buf) = (bit_or (b * 16) h % 256) ∷ buf
push_half true h [] = []
push_half false h buf = h ∷ buf

-- The loop over one block that fread filled.
unfoldable pub read_block : Bytes → Bool → Bytes → Bytes
read_block [] hf buf = buf
read_block (c ∷ cs) hf buf =
    let x = is_xdigit (tolower c) in
    read_block cs (if x then not hf else hf)
      (if x then push_half hf (halfb (tolower c)) buf else buf)

abbrev pub buf_size : ℕ
buf_size = 1024

-- The loop over the blocks of the stream; `hf` starts afresh in each. Fuel: each round consumes
-- a character at least.
pub read_blocks : ℕ → Bytes → Bytes → Bytes
read_blocks zero stream buf = buf
read_blocks (suc fuel) [] buf = buf
read_blocks (suc fuel) (c ∷ cs) buf =
    read_blocks fuel (drop buf_size (c ∷ cs)) (read_block (take buf_size (c ∷ cs)) false buf)

-- hex_read_arbitrary and hex_read_arbitrary_buf: the bytes read.
unfoldable pub hex_read_arbitrary : Bytes → Bytes
unfolding read_blocks read_block push_half
hex_read_arbitrary stream = reverse (read_blocks (length stream) stream [])
