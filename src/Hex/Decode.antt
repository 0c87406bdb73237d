-- ===== src/Hex/Decode.antt =====
-- What the scanner of `hex_read_arbitrary` does with the text that the printers produce.
use mathlib.Core.List.{reverse_aux}
use rvault.Prelude.{
  ℕ, ◌*◌, ◌%◌, ◌/◌, ◌<◌, bit_or, ◌≡◌, refl, ◌∙◌, Bool, true, false, ◌&&◌, [], ◌∷◌, ◌++◌, arith,
  ◌==◌, ==_iff,
}
use rvault.Prelude.Bytes.{Bytes, AreBytes, passes, passes_byte}
use rvault.Hex.{hex_digit, hex_byte, hex_write, tolower, is_xdigit, halfb, push_half, read_block}

-- Both digits of a byte are read as digits, and together give the byte.
abbrev digits_of : ℕ → Bool
digits_of b =
    is_xdigit (tolower (hex_digit (b / 16)))
    && (is_xdigit (tolower (hex_digit (b % 16)))
        && (bit_or (halfb (tolower (hex_digit (b / 16))) * 16)
                (halfb (tolower (hex_digit (b % 16))))
              % 256
            == b))

digits_table : passes digits_of 256 0 ≡ true
unfolding passes
digits_table = refl

record Digits (b : ℕ) : Type 0 where
  high : is_xdigit (tolower (hex_digit (b / 16))) ≡ true
  low : is_xdigit (tolower (hex_digit (b % 16))) ≡ true
  joined :
      bit_or (halfb (tolower (hex_digit (b / 16))) * 16) (halfb (tolower (hex_digit (b % 16))))
        % 256
      ≡ b

and_left : (a b : Bool) → (a && b) ≡ true → a ≡ true
and_left a b h = ground arith

and_right : (a b : Bool) → (a && b) ≡ true → b ≡ true
and_right a b h = ground arith

Digits-byte : (b : ℕ) → b < 256 → Digits b
Digits-byte b h =
    let t = passes_byte digits_of digits_table b h in
    let high = is_xdigit (tolower (hex_digit (b / 16))) in
    let low = is_xdigit (tolower (hex_digit (b % 16))) in
    let rest = and_right high _ t in
    record {
      high = and_left high _ t;
      low = and_left low _ rest;
      joined = (==_iff _ _).0 (and_right low _ rest);
    }

pub read_block-hex_byte :
    (b : ℕ) (cs buf : Bytes)
    → b < 256
    → read_block (hex_byte b ++ cs) false buf ≡ read_block cs false (b ∷ buf)
unfolding read_block push_half
read_block-hex_byte b cs buf h = let d = Digits-byte b h in rw (d.high, d.low, d.joined)

-- The text of `hex_write`, with any text behind it.
pub read_block-hex_write :
    (bs cs buf : Bytes)
    → AreBytes bs
    → read_block (hex_write bs ++ cs) false buf ≡ read_block cs false (reverse_aux bs buf)
unfolding hex_write
read_block-hex_write [] cs buf h = refl
read_block-hex_write (b ∷ bs) cs buf h =
    read_block-hex_byte b (hex_write bs ++ cs) buf h.0 ∙ read_block-hex_write bs cs (b ∷ buf) h.1
