-- ===== src/Storage/Keys.antt =====
-- A write keeps the keys, whatever AAD it finds.
use rvault.Prelude.{length, ℕ, ◌≡◌, refl, Option, none, some, arith}
use rvault.Prelude.Bytes.{Bytes}
use rvault.Crypto.{Ops, Crypto}
use rvault.Storage.Header.{fileobj_hdr}
use rvault.Storage.Object.{
  Lz4, WriteEnv, Vault, new_header, write_object, write_compressed, compressed, storage_write_data,
}
use rvault.Storage.Integrity.{storage_encrypt_frame}
use rvault.Storage.RoundTrip.{with_tag_aad}

-- The crypto object is the same but for the tag and the AAD.
abbrev pub SameKeys : Crypto → Crypto → Type 0
SameKeys c d = d ≡ with_tag_aad c d.tag d.aad

write_object-SameKeys :
    (o : Ops) (e : WriteEnv) (v : Vault) (file : Bytes) (n m : ℕ) (cbuf : Bytes)
    → SameKeys v.crypto (write_object o e v file n m cbuf).crypto
unfolding write_object
write_object-SameKeys o e v file n m cbuf =
    ground (arith, storage_encrypt_frame o v.crypto (fileobj_hdr (new_header e v n m)) cbuf)

write_compressed-SameKeys :
    (o : Ops) (e : WriteEnv) (v : Vault) (file : Bytes) (n : ℕ) (r : Option (Bytes × ℕ))
    → SameKeys v.crypto (write_compressed o e v file n r).crypto
unfolding write_compressed
write_compressed-SameKeys o e v file n none = refl
write_compressed-SameKeys o e v file n (some (cbuf, m)) = write_object-SameKeys o e v file n m cbuf

pub storage_write_data-SameKeys :
    (o : Ops) (z : Lz4) (e : WriteEnv) (v : Vault) (file buf : Bytes)
    → SameKeys v.crypto (storage_write_data o z e v file buf).crypto
unfolding storage_write_data
storage_write_data-SameKeys o z e v file buf =
    write_compressed-SameKeys o e v file (length buf) (compressed z e v.compress buf)
