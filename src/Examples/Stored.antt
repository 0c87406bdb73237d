-- ===== src/Examples/Stored.antt =====
-- A vault's file written and read back.
use rvault.Prelude.{◌+◌, ◌≤◌, ◌<◌, ◌≡◌, refl, false, some, none, [], ◌∷◌, ◌++◌, arith, length, take}
use rvault.Prelude.Bytes.{AreBytes, equal, Bytes}
use rvault.Crypto.{
  crypto_set_aetag, Crypto, crypto_encrypt, crypto_decrypt, decrypted_data, crypto_setup_done_p,
  int_max,
}
use rvault.Crypto.Inverse.{crypto_decrypt-crypto_encrypt}
use rvault.Storage.Header.{
  fileobj_edata_pad, fileobj_hdr, fileobj_file_len, fileobj_getmeta_len, fileobj_etarget_len,
  fileobj_data_len, fileobj_edata_len, storage_align, fileobj_aetag_len,
}
use rvault.Storage.Object.{
  WriteResult, WriteEnv, storage_write_data, storage_read_data, at_data, at_aetag, adjusted_header,
}
use rvault.Storage.WriteRead.{Holds, storage_read_data-storage_write_data}
use rvault.Storage.Integrity.{
  IsObject, Unfinished, file_crypto, storage_read_data_lengths, storage_read_data_authentic,
  storage_write_data_fails,
}
use rvault.Examples.Engine.{
  engine, engine-Laws, packer, packer-Laws, crypto, crypto-IsUsable, vault, writes, reads,
  reads-CanRead, hello,
}

abbrev stored : WriteResult
stored = storage_write_data engine packer writes vault [] hello

ret-stored : stored.ret ≡ some 46
unfolding storage_write_data crypto_encrypt fileobj_hdr
ret-stored = refl

storage_read_data-storage_write_data_example :
    (46 ≡ length stored.file)
    × Holds (storage_read_data engine packer reads vault stored.file).ret hello
storage_read_data-storage_write_data_example =
    storage_read_data-storage_write_data engine engine-Laws packer packer-Laws writes reads
      reads-CanRead vault vault crypto-IsUsable [] none refl [] hello (omega arith) (omega arith) 46
      ret-stored

abbrev opened : Bytes
opened = hello ++ (0 ∷ 0 ∷ [])

ret-read :
    (storage_read_data engine packer reads vault stored.file).ret
    ≡ some (record { buf = some hello; buf_size = 5 }, 5)
unfolding storage_read_data storage_write_data crypto_encrypt fileobj_hdr fileobj_file_len
    fileobj_getmeta_len fileobj_edata_len fileobj_etarget_len crypto_set_aetag decrypted_data equal
ret-read = refl

stored-AreBytes : AreBytes stored.file
unfolding storage_write_data crypto_encrypt fileobj_hdr
stored-AreBytes = ground arith

storage_read_data_lengths_example :
    (length stored.file ≡ 32 + storage_align 2 + fileobj_edata_len stored.file)
    × (0 < fileobj_edata_len stored.file)
    × (fileobj_edata_len stored.file ≤ int_max)
    × (fileobj_edata_len stored.file
        ≡ fileobj_etarget_len stored.file + fileobj_edata_pad stored.file)
    × (5 ≡ fileobj_data_len stored.file)
storage_read_data_lengths_example =
    storage_read_data_lengths engine packer reads vault stored.file ret-read engine-Laws
      stored-AreBytes (omega arith)

storage_read_data_authentic_example :
    engine.hmac
      (file_crypto crypto stored.file)
      (take (fileobj_edata_len stored.file) (at_data stored.file))
      (some (adjusted_header stored.file))
    ≡ some (take (fileobj_aetag_len stored.file) (at_aetag stored.file))
storage_read_data_authentic_example =
    storage_read_data_authentic engine packer reads vault stored.file ret-read refl

-- A disk that takes three bytes.
abbrev full_disk : WriteEnv
full_disk = record writes { written = 3 }

abbrev cut : WriteResult
cut = storage_write_data engine packer full_disk vault [] hello

ret-cut : cut.ret ≡ none
unfolding storage_write_data crypto_encrypt fileobj_hdr
ret-cut = refl

storage_write_data_fails_example :
    Unfinished (IsObject engine packer full_disk vault hello) full_disk [] cut.file
storage_write_data_fails_example =
    storage_write_data_fails engine packer full_disk vault [] hello ret-cut

encrypted_hello : (crypto_encrypt engine crypto hello 16).1 ≡ some hello
unfolding crypto_encrypt
encrypted_hello = refl

crypto_decrypt-crypto_encrypt_example :
    crypto_decrypt engine
      (record crypto { tag = (crypto_encrypt engine crypto hello 16).0.tag })
      hello
      (length hello)
      (length hello + 16)
    ≡ (
      record crypto { tag = (crypto_encrypt engine crypto hello 16).0.tag; aad = none },
      some hello,
    )
crypto_decrypt-crypto_encrypt_example =
    crypto_decrypt-crypto_encrypt engine engine-Laws crypto hello hello 16 encrypted_hello
      (omega arith) (omega arith)

-- The crypto object with the tag of its five bytes.
abbrev tagged : Crypto
tagged = record crypto { tag = 5 ∷ 5 ∷ [] }

decrypted_hello : decrypted_data engine tagged hello 5 21 ≡ some hello
unfolding decrypted_data equal
decrypted_hello = refl

abbrev keyless : Crypto
keyless = record crypto { enc_key_set = false }

setup-keyless : crypto_setup_done_p keyless ≡ false
unfolding crypto_setup_done_p
setup-keyless = refl
