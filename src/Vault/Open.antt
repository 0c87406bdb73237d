-- ===== src/Vault/Open.antt =====
-- rvault_open and rvault_open_ekey of src/core/rvault.c.
use rvault.Prelude.{
  ℕ, Bool, not, ◌||◌, Option, none, some, ◌==◌, if◌then◌else◌, length, take, guard, ◌>>=◌, ◌>>◌,
}
use Prim.Native.Nat.{bit_and}
use rvault.Prelude.Bytes.{Bytes}
use rvault.Crypto.{
  Crypto, Ops, hmac_none, crypto_create, crypto_set_iv, crypto_set_key, crypto_set_authkey,
  crypto_set_passphrasekey,
}
use rvault.Kdf.{Scrypt, kdf_passphrase_genkey}
use rvault.KeyAuth.{Memory, Http, rvault_pull_key}
use rvault.Recovery.{rvault_recovery_import}
use rvault.Vault.Metadata.{
  rvault_flag_noauth, Location, get_vault_path, open_metadata_mmap, rvault_hmac_verify, hdr_ver,
  hdr_flags, hdr_cipher0, hdr_hmac_id, hdr_iv0_len, hdr_kp_len, hdr_uid, rvault_hdr_to_iv0,
  rvault_hdr_to_kp, rvault_file_len,
}
use rvault.Storage.Header.{rvault_abi_ver}

-- rvault_t, without the options and the list of open files that the callers set.
pub record Rvault : Type 0 where
  pub base_path : Option Bytes
  pub server_url : Option Bytes
  pub cipher : ℕ
  pub hmac_id : ℕ
  pub crypto : Crypto
  pub uid : Bytes

-- What the system and the server do: mapping the file, allocating the vault, scrypt, the requests,
-- the code that is typed, and the directory.
pub record OpenEnv : Type 0 where
  pub map_ok : Bool
  pub calloc_ok : Bool
  pub scrypt : Scrypt
  pub memory : Memory
  pub http : Http
  pub typed : Option Bytes
  pub location : Location

module _ (o : Ops) where
  -- rvault_open_hdr, of the metadata in `hdr`.
  unfoldable pub rvault_open_hdr : OpenEnv → Bytes → Option Bytes → Option Rvault
  rvault_open_hdr e hdr server = do
    guard (hdr_ver hdr == rvault_abi_ver)
    guard (not (not (rvault_file_len hdr == length hdr) || hdr_hmac_id hdr == hmac_none))
    guard e.calloc_ok
    c ← crypto_create o (hdr_cipher0 hdr) (hdr_hmac_id hdr)
    d ← crypto_set_iv c (take (hdr_iv0_len hdr) (rvault_hdr_to_iv0 hdr))
    some (record {
      base_path = none;
      server_url = server;
      cipher = hdr_cipher0 hdr;
      hmac_id = hdr_hmac_id hdr;
      crypto = d;
      uid = hdr_uid hdr;
    })

  -- The effective keys: those derived, or, with authentication, the ones that the server keeps.
  unfoldable pub fetched : OpenEnv → Bytes → Option Bytes → Rvault → Crypto → Option Crypto
  fetched e hdr server v c =
      if not (bit_and (hdr_flags hdr) rvault_flag_noauth == 0) then some c else elim server [
        | none ↦ none
        | some url ↦
            let (d, ok) =
              rvault_pull_key o e.memory e.typed e.http (record { server_url = url; uid = v.uid })
                c in
            if ok then some d else none
      ]

  -- rvault_open.
  unfoldable pub rvault_open : OpenEnv → Option Bytes → (pwd : Bytes) → Option Rvault
  rvault_open e server pwd = do
    (base_path, hdr) ← open_metadata_mmap e.map_ok e.location
    v ← rvault_open_hdr e hdr server
    let kp = take (hdr_kp_len hdr) (rvault_hdr_to_kp hdr)
    c ← crypto_set_passphrasekey (kdf_passphrase_genkey e.scrypt pwd (some kp)) v.crypto
    d ← fetched e hdr server v c
    guard (rvault_hmac_verify o d hdr)
    some (record v { base_path = some base_path; crypto = d })

  -- rvault_open_ekey, of the recovery file's text; `none` is a file that cannot be opened.
  unfoldable pub rvault_open_ekey : OpenEnv → Option Bytes → Option Rvault
  rvault_open_ekey e recovery = do
    text ← recovery
    s ← rvault_recovery_import text
    base_path ← get_vault_path e.location
    v ← rvault_open_hdr e s.metadata_bytes none
    c ← crypto_set_key v.crypto s.ekey_bytes
    d ← crypto_set_authkey c s.akey_bytes
    some (record v { base_path = some base_path; crypto = d })
