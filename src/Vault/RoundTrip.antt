-- ===== src/Vault/RoundTrip.antt =====
-- Creation and opening of a vault, composed: src/core/rvault.c with src/core/keyauth.c.
use rvault.Prelude.{ℕ, Bool, ◌+◌, ◌≡◌, refl, ap, ap₂, sym, ◌∙◌, true, Option, some, length, arith}
use rvault.Prelude.Bytes.{Bytes, codes}
use rvault.Crypto.{Crypto, Ops, Laws}
use rvault.KeyAuth.{Account, api_answer, envelope, rvault_push_key, rvault_pull_key, trim_code}
use rvault.KeyAuth.Envelope.{rvault_pull_key-rvault_push_key}
use rvault.Resolve.Sealed.{IsShort}
use rvault.Vault.Metadata.{rvault_flag_noauth, hdr_flags}
use rvault.Vault.Init.{
  InitEnv, Derived, choose_cipher, choose_hmac, parse_uid, derive, effective, rvault_init,
}
use rvault.Vault.Created.{rvault_init-Created}
use rvault.Vault.Open.{Rvault, OpenEnv, fetched, rvault_open}
use rvault.Vault.Reopen.{IsReady, there, rvault_open-Created}

-- An opened vault has the algorithms, the user and the path that it was created with.
abbrev pub Matches : Option Bytes → Option Bytes → Bytes → Bytes → Rvault → Type 0
Matches cipher_str mac_str uid_str path v =
    (choose_cipher cipher_str ≡ some v.cipher)
    × (choose_hmac mac_str ≡ some v.hmac_id)
    × (parse_uid true uid_str ≡ some v.uid)
    × (v.base_path ≡ some path)

parse_uid_ok : (ok : Bool) (s uid : Bytes) → parse_uid ok s ≡ some uid → parse_uid true s ≡ some uid
unfolding parse_uid
parse_uid_ok ok s uid h = ground arith

effective_noauth :
    (o : Ops) (e : InitEnv) (server : Option Bytes) (uid : Bytes) (c d : Crypto)
    → effective o e server rvault_flag_noauth uid c ≡ some d
    → c ≡ d
unfolding effective
effective_noauth o e server uid c d h = ground arith

fetched_noauth :
    (o : Ops) (w : OpenEnv) (file : Bytes) (server : Option Bytes) (v : Rvault) (c : Crypto)
    → hdr_flags file ≡ 1
    → fetched o w file server v c ≡ some c
unfolding fetched
fetched_noauth o w file server v c h = rw (fetched, h) refl

fetched_auth :
    (o : Ops) (w : OpenEnv) (file url : Bytes) (v : Rvault) (c d : Crypto)
    → hdr_flags file ≡ 0
    → rvault_pull_key o w.memory w.typed w.http (record { server_url = url; uid = v.uid }) c
      ≡ (d, true)
    → fetched o w file (some url) v c ≡ some d
unfolding fetched
fetched_auth o w file url v c d h pulled = rw (fetched, h, pulled) refl

effective_auth :
    (o : Ops) (e : InitEnv) (url uid : Bytes) (c d : Crypto)
    → effective o e (some url) 0 uid c ≡ some d
    → rvault_push_key o e.memory e.rand_key e.http (record { server_url = url; uid = uid }) c
      ≡ (d, true)
unfolding effective
effective_auth o e url uid c d h = ground arith

-- A vault that rvault_init created without authentication is opened by rvault_open with the same
-- passphrase: it has the cipher, the HMAC, the user ID and the path that were asked for, and its
-- keys and IV are those that were derived at the creation.
pub rvault_open-rvault_init_noauth :
    (o : Ops) (e : InitEnv) (w : OpenEnv) (server server' : Option Bytes) (pwd uid_str : Bytes)
    (cipher_str mac_str : Option Bytes) (file path : Bytes)
    → rvault_init o e server pwd uid_str cipher_str mac_str rvault_flag_noauth ≡ (true, some file)
    → IsReady e w path file
    → (v : Rvault) × (rvault_open o w server' pwd ≡ some v)
      × Matches cipher_str mac_str uid_str path v
      × (k : Derived) × (derive o e v.cipher v.hmac_id pwd ≡ some k)
      × (k.crypto ≡ v.crypto)
rvault_open-rvault_init_noauth o e w server server' pwd uid_str cipher_str mac_str file path h
      ready =
    let cr =
      rvault_init-Created o e server pwd uid_str cipher_str mac_str rvault_flag_noauth file h in
    let same = effective_noauth o e server cr.uid cr.k.crypto cr.c cr.kept in
    let v : Rvault = record {
      base_path = some path;
      server_url = server';
      cipher = cr.cipher;
      hmac_id = cr.hmac_id;
      crypto = cr.c;
      uid = cr.uid;
    } in
    (
      v,
      rvault_open-Created o e server pwd uid_str cipher_str mac_str rvault_flag_noauth file cr w
          server' path ready
          (fetched_noauth o w file server' _ cr.k.crypto
              (there o e server pwd uid_str cipher_str mac_str rvault_flag_noauth file
                cr).flags_read
            ∙ ap some same),
      (cr.cipher_chosen, cr.hmac_chosen, parse_uid_ok e.uid_ok uid_str cr.uid cr.uid_parsed, refl),
      cr.k,
      cr.derived,
      same,
    )

-- The server keeps what was registered and answers the code that is typed with it, and the keys
-- that were drawn are short enough for the text to be read.
pub record Keeps (o : Ops) (e : InitEnv) (w : OpenEnv) (v : Account) (typed : Bytes) (c : Crypto)
    : Type 0 where
  pub rkey : Bytes
  pub drawn : e.rand_key (c.key_len + c.auth_key_len) ≡ some rkey
  pub length-rkey : length rkey ≡ c.key_len + c.auth_key_len
  pub short : IsShort c rkey
  pub code : w.typed ≡ some typed
  pub buffers : w.memory.buffers ≡ true
  pub answered :
      api_answer w.memory.request w.http v (codes "auth") (codes "code") (trim_code typed)
      ≡ some (envelope o c rkey).1

-- What is derived from the same choices is the same.
derived_same :
    (o : Ops) (e : InitEnv) (pwd : Bytes) (cs ms : Option Bytes) (c1 c2 h1 h2 : ℕ) (k1 k2 : Derived)
    → choose_cipher cs ≡ some c1
    → choose_cipher cs ≡ some c2
    → choose_hmac ms ≡ some h1
    → choose_hmac ms ≡ some h2
    → derive o e c1 h1 pwd ≡ some k1
    → derive o e c2 h2 pwd ≡ some k2
    → k1 ≡ k2
derived_same o e pwd cs ms c1 c2 h1 h2 k1 k2 a b c d f g = cc

-- A vault that rvault_init created with authentication is opened by rvault_open with the same
-- passphrase, when the server answers with the envelope that was registered: it has the cipher,
-- the HMAC, the user ID and the path that were asked for, and its keys are those that
-- rvault_push_key activated at the creation.
pub rvault_open-rvault_init_auth :
    (o : Ops) (laws : Laws o) (e : InitEnv) (w : OpenEnv) (url pwd uid_str typed uid : Bytes)
    (cipher_str mac_str : Option Bytes) (cipher hmac_id : ℕ) (k : Derived) (file path : Bytes)
    → rvault_init o e (some url) pwd uid_str cipher_str mac_str 0 ≡ (true, some file)
    → IsReady e w path file
    → choose_cipher cipher_str ≡ some cipher
    → choose_hmac mac_str ≡ some hmac_id
    → parse_uid true uid_str ≡ some uid
    → derive o e cipher hmac_id pwd ≡ some k
    → Keeps o e w (record { server_url = url; uid = uid }) typed k.crypto
    → (v : Rvault) × (rvault_open o w (some url) pwd ≡ some v)
      × Matches cipher_str mac_str uid_str path v
      × (rvault_push_key o e.memory e.rand_key e.http
            (record { server_url = url; uid = uid })
            k.crypto
          ≡ (v.crypto, true))
rvault_open-rvault_init_auth o laws e w url pwd uid_str typed uid cipher_str mac_str cipher hmac_id
      k file path h ready chosen mac_chosen parsed derived keeps =
    let cr = rvault_init-Created o e (some url) pwd uid_str cipher_str mac_str 0 file h in
    let same_k =
      derived_same o e pwd cipher_str mac_str cr.cipher cipher cr.hmac_id hmac_id cr.k k
        cr.cipher_chosen chosen cr.hmac_chosen mac_chosen cr.derived derived in
    let parsed_again = parse_uid_ok e.uid_ok uid_str cr.uid cr.uid_parsed in
    let same_uid : cr.uid ≡ uid = cc in
    let account : Account = record { server_url = url; uid = uid } in
    let pushed : rvault_push_key o e.memory e.rand_key e.http account k.crypto ≡ (cr.c, true) =
      ap₂
        (λ u d.
          rvault_push_key o e.memory e.rand_key e.http (record { server_url = url; uid = u })
            d.crypto)
        (sym same_uid) (sym same_k)
      ∙ effective_auth o e url cr.uid cr.k.crypto cr.c cr.kept in
    let pulled : rvault_pull_key o w.memory (some typed) w.http account k.crypto ≡ (cr.c, true) =
      rvault_pull_key-rvault_push_key o laws k.crypto keeps.rkey e.memory w.memory e.rand_key e.http
        w.http account typed k.crypto.tag keeps.short keeps.length-rkey keeps.buffers keeps.drawn
        keeps.answered (ap (λ r. r.1) pushed)
      ∙ pushed in
    let fetch : rvault_pull_key o w.memory w.typed w.http
          (record { server_url = url; uid = cr.uid }) cr.k.crypto
        ≡ (cr.c, true) =
      ap
        (λ t.
          rvault_pull_key o w.memory t w.http (record { server_url = url; uid = cr.uid })
            cr.k.crypto)
        keeps.code
      ∙ ap₂
          (λ u d.
            rvault_pull_key o w.memory (some typed) w.http (record { server_url = url; uid = u })
              d.crypto)
          same_uid same_k
      ∙ pulled in
    let v : Rvault = record {
      base_path = some path;
      server_url = some url;
      cipher = cr.cipher;
      hmac_id = cr.hmac_id;
      crypto = cr.c;
      uid = cr.uid;
    } in
    (
      v,
      rvault_open-Created o e (some url) pwd uid_str cipher_str mac_str 0 file cr w (some url) path
          ready
          (fetched_auth o w file url _ cr.k.crypto cr.c
            (there o e (some url) pwd uid_str cipher_str mac_str 0 file cr).flags_read fetch),
      (cr.cipher_chosen, cr.hmac_chosen, parsed_again, refl),
      pushed,
    )
