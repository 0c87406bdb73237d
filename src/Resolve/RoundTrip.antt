-- ===== src/Resolve/RoundTrip.antt =====
-- The text that get_path_component prints is taken apart again.
use rvault.Prelude.{
  ◌≤◌, ◌≡◌, refl, sym, ap, ap₂, ◌∙◌, false, some, [], ◌∷◌, ◌++◌, append-nil, arith, length,
  take_all, drop_all, length-append,
}
use mathlib.Core.List.{reverse, reverse-reverse}
use rvault.Prelude.Bytes.{Bytes, AreBytes}
use rvault.Hex.{hex_write, read_block, read_blocks, hex_read_arbitrary, buf_size}
use rvault.Hex.Decode.{read_block-hex_write}
use rvault.Hex.RoundTrip.{read_blocks_nil, read_blocks_step, length-hex_write}
use rvault.Resolve.{split_colon, rvault_unhex_aedata}

-- A text that fits into one block.
read-one_block :
    (s : Bytes) → length s ≤ 1024 → hex_read_arbitrary s ≡ reverse (read_block s false [])
unfolding hex_read_arbitrary
read-one_block [] h = refl
read-one_block (c ∷ cs) h = ap reverse (
    read_blocks_step (length cs) (c ∷ cs) []
    ∙ ap₂ (λ rest block. read_blocks (length cs) rest (read_block block false []))
        (drop_all buf_size (c ∷ cs) h) (take_all buf_size (c ∷ cs) h)
    ∙ read_blocks_nil (length cs) (read_block (c ∷ cs) false []))

read-data :
    (bs : Bytes)
    → AreBytes bs
    → length bs ≤ 511
    → hex_read_arbitrary (hex_write bs ++ (b':' ∷ [])) ≡ bs
unfolding read_block
read-data bs h short =
    read-one_block (hex_write bs ++ (b':' ∷ []))
      (omega (arith, length-append (hex_write bs) (b':' ∷ []), length-hex_write bs))
    ∙ ap reverse (read_block-hex_write bs (b':' ∷ []) [] h)
    ∙ reverse-reverse bs

read-tag :
    (bs : Bytes) → AreBytes bs → length bs ≤ 511 → hex_read_arbitrary (b':' ∷ hex_write bs) ≡ bs
unfolding read_block
read-tag bs h short =
    read-one_block (b':' ∷ hex_write bs) (omega (arith, length-hex_write bs))
    ∙ ap (λ t. reverse (read_block t false [])) (sym (append-nil (hex_write bs)))
    ∙ ap reverse (read_block-hex_write bs [] [] h)
    ∙ reverse-reverse bs

split_colon-hex_write :
    (bs t : Bytes)
    → AreBytes bs
    → split_colon (hex_write bs ++ (b':' ∷ t)) ≡ some (hex_write bs ++ (b':' ∷ []), b':' ∷ t)
unfolding split_colon hex_write
split_colon-hex_write [] t h = refl
split_colon-hex_write (b ∷ bs) t h = let ih = split_colon-hex_write bs t h.1 in ground (arith, ih)

-- The data and the tag that are printed with a colon between are read back, if they are bytes
-- and neither has more than 511 of them.
pub rvault_unhex_aedata-hex_write :
    (enc tag : Bytes)
    → AreBytes enc
    → AreBytes tag
    → length enc ≤ 511
    → length tag ≤ 511
    → rvault_unhex_aedata (hex_write enc ++ (b':' ∷ hex_write tag)) ≡ some (enc, tag)
unfolding rvault_unhex_aedata
rvault_unhex_aedata-hex_write enc tag he ht se st =
    rw (split_colon-hex_write enc (hex_write tag) he, rvault_unhex_aedata)
      (λ i. some (read-data enc he se i, read-tag tag ht st i))
