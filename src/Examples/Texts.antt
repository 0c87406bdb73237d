-- ===== src/Examples/Texts.antt =====
-- Hexadecimal text and a recovery file read back.
use rvault.Prelude.{none, List, refl, ◌++◌, replicate, drop, ◌≡◌, some, [], ◌∷◌, arith}
use rvault.Prelude.Bytes.{Bytes, AreBytes}
use rvault.Hex.{hex_write, hex_read_arbitrary}
use rvault.Hex.RoundTrip.{hex_read_arbitrary-hex_write}
use rvault.Files.{fs_read, Outcome, moved, retry, fs_write, fs_write_complete}
use rvault.Recovery.{Recovered, rvault_recovery_import, rvault_recovery_export}
use rvault.Recovery.RoundTrip.{rvault_recovery_import-rvault_recovery_export}

abbrev key : Bytes
key = 0 ∷ 255 ∷ 16 ∷ []

key-AreBytes : AreBytes key
key-AreBytes = (omega arith, (omega arith, (omega arith, tt)))

hex_read_arbitrary-hex_write_example : hex_read_arbitrary (hex_write key) ≡ key
hex_read_arbitrary-hex_write_example = hex_read_arbitrary-hex_write key key-AreBytes

abbrev vault_keys : Recovered
vault_keys = record { metadata_bytes = key; ekey_bytes = key; akey_bytes = key }

rvault_recovery_import-rvault_recovery_export_example :
    rvault_recovery_import (rvault_recovery_export vault_keys) ≡ some vault_keys
rvault_recovery_import-rvault_recovery_export_example =
    rvault_recovery_import-rvault_recovery_export vault_keys key-AreBytes key-AreBytes key-AreBytes
      (omega arith) (omega arith) (omega arith)

-- A digit of the second block completes nothing: 1023 characters hold 511 pairs and a digit, so
-- the next block's first digit starts a byte instead of ending one.
abbrev long_text : Bytes
long_text = replicate 1023 b'1' ++ (b' ' ∷ (b'2' ∷ (b'3' ∷ (b'4' ∷ []))))

read-long_text : drop 511 (hex_read_arbitrary long_text) ≡ (1 ∷ 35 ∷ 4 ∷ [])
unfolding hex_read_arbitrary
read-long_text = refl

-- Two of the bytes, an interruption and the last one.
abbrev calls : List Outcome
calls = moved 2 ∷ retry ∷ moved 1 ∷ []

fs_write_complete_example : ((fs_write calls key).0 ≡ key) × ((fs_write calls key).1 ≡ some 3)
fs_write_complete_example =
    fs_write_complete calls key (omega arith, (omega arith, tt)) (omega arith)

ret-calls : (fs_write calls key).1 ≡ some 3
unfolding fs_write
ret-calls = refl

read-calls : fs_read calls 5 (key ++ key) ≡ none
unfolding fs_read
read-calls = refl

read-all : fs_read calls 3 (key ++ key) ≡ some key
unfolding fs_read
read-all = refl
