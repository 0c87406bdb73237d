-- ===== src/Hex/RoundTrip.antt =====
-- Reading back what `hex_write` printed, over any number of blocks.
use mathlib.Core.List.{reverse_aux, reverse-reverse}
use rvault.Prelude.{
  ℕ, zero, suc, ◌*◌, ◌≤◌, ◌≡◌, refl, sym, ◌∙◌, false, [], ◌∷◌, append-nil, arith, length, take,
  drop, length-drop,
}
use rvault.Prelude.Bytes.{Bytes, AreBytes}
use rvault.Hex.{hex_write, read_block, read_blocks, hex_read_arbitrary, buf_size}
use rvault.Hex.Decode.{read_block-hex_write}

-- Printing doubles the length.
abbrev double : ℕ → ℕ
double zero = zero
double (suc n) = suc (suc (double n))

take-hex_write : (n : ℕ) (bs : Bytes) → take (double n) (hex_write bs) ≡ hex_write (take n bs)
unfolding hex_write
take-hex_write zero bs = refl
take-hex_write (suc n) [] = refl
take-hex_write (suc n) (b ∷ bs) = rw (take-hex_write n bs)

drop-hex_write : (n : ℕ) (bs : Bytes) → drop (double n) (hex_write bs) ≡ hex_write (drop n bs)
unfolding hex_write
drop-hex_write zero bs = refl
drop-hex_write (suc n) [] = refl
drop-hex_write (suc n) (b ∷ bs) = drop-hex_write n bs

AreBytes-take : (n : ℕ) (bs : Bytes) → AreBytes bs → AreBytes (take n bs)
AreBytes-take zero bs h = tt
AreBytes-take (suc n) [] h = tt
AreBytes-take (suc n) (b ∷ bs) h = (h.0, AreBytes-take n bs h.1)

AreBytes-drop : (n : ℕ) (bs : Bytes) → AreBytes bs → AreBytes (drop n bs)
AreBytes-drop zero bs h = h
AreBytes-drop (suc n) [] h = tt
AreBytes-drop (suc n) (b ∷ bs) h = AreBytes-drop n bs h.1

reverse_aux-take-drop :
    (n : ℕ) (bs buf : Bytes)
    → reverse_aux (drop n bs) (reverse_aux (take n bs) buf) ≡ reverse_aux bs buf
reverse_aux-take-drop zero bs buf = refl
reverse_aux-take-drop (suc n) [] buf = refl
reverse_aux-take-drop (suc n) (b ∷ bs) buf = reverse_aux-take-drop n bs (b ∷ buf)

-- One block of a printed text holds 512 whole bytes.
read_block_first :
    (bs buf : Bytes)
    → AreBytes bs
    → read_block (take buf_size (hex_write bs)) false buf ≡ reverse_aux (take 512 bs) buf
unfolding read_block
read_block_first bs buf h = rw (take-hex_write 512 bs) (
    rw (← append-nil (hex_write (take 512 bs)))
      (read_block-hex_write (take 512 bs) [] buf (AreBytes-take 512 bs h)))

pub length-hex_write : (bs : Bytes) → length (hex_write bs) ≡ 2 * length bs
unfolding hex_write
length-hex_write [] = refl
length-hex_write (b ∷ bs) = omega (arith, length-hex_write bs)

pub read_blocks_nil : (fuel : ℕ) (buf : Bytes) → read_blocks fuel [] buf ≡ buf
unfolding read_blocks
read_blocks_nil zero buf = refl
read_blocks_nil (suc fuel) buf = refl

pub read_blocks_step :
    (fuel : ℕ) (stream buf : Bytes)
    → read_blocks (suc fuel) stream buf
      ≡ read_blocks fuel (drop buf_size stream) (read_block (take buf_size stream) false buf)
unfolding read_blocks read_block
read_blocks_step fuel [] buf = sym (read_blocks_nil fuel buf)
read_blocks_step fuel (c ∷ cs) buf = refl

read_blocks-hex_write :
    (fuel : ℕ) (bs buf : Bytes)
    → AreBytes bs
    → length bs ≤ fuel
    → read_blocks fuel (hex_write bs) buf ≡ reverse_aux bs buf
read_blocks-hex_write zero [] buf h f = unfold read_blocks in refl
read_blocks-hex_write zero (b ∷ bs) buf h f = absurd (omega arith)
read_blocks-hex_write (suc fuel) bs buf h f = rw (read_blocks_step fuel (hex_write bs) buf) (
    rw (read_block_first bs buf h) (
      rw (drop-hex_write 512 bs) (
        read_blocks-hex_write fuel (drop 512 bs) _ (AreBytes-drop 512 bs h)
          (omega (arith, length-drop 512 bs))
        ∙ reverse_aux-take-drop 512 bs buf)))

-- Reading the text that `hex_write` printed gives the bytes that were printed, whatever their
-- number.
pub hex_read_arbitrary-hex_write :
    (bs : Bytes) → AreBytes bs → hex_read_arbitrary (hex_write bs) ≡ bs
unfolding hex_read_arbitrary
hex_read_arbitrary-hex_write bs h =
    rw (read_blocks-hex_write (length (hex_write bs)) bs [] h (omega (arith, length-hex_write bs)))
      (reverse-reverse bs)
