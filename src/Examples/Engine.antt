-- ===== src/Examples/Engine.antt =====
-- An engine, a compressor, a vault and outcomes of system calls for the examples: the cipher is
-- the identity, the HMAC is built from the length, and compression puts a byte in front.
use rvault.Prelude.{
  ◌<◌, subst, zero, suc, ℕ, ◌%◌, refl, true, false, some, none, [], ◌∷◌, arith, length, replicate,
  length-replicate, drop,
}
use rvault.Prelude.Bytes.{Bytes, AreBytes}
use rvault.Crypto.{Ops, Laws, Crypto}
use rvault.Storage.Object.{Lz4, Lz4Laws, WriteEnv, ReadEnv, Vault}
use rvault.Storage.RoundTrip.{IsUsable, CanRead}
use rvault.FileObj.{SyncEnv, Env}

-- With an HMAC of `n` + 1 bytes.
abbrev pub engine_of : ℕ → Ops
engine_of n = record {
  create = λ c. some (record { key_len = 1; iv_len = 1; block_size = 16; tag_len = 0 });
  encrypt = λ c p. some (p, replicate c.tag_len 7);
  decrypt = λ c d. some d;
  residue = λ c d k. replicate k 0;
  hmac = λ c d a. some (length d % 256 ∷ replicate n 5);
}

abbrev pub engine : Ops
engine = engine_of 1

same_bytes : (b : ℕ) → b < 256 → (n : ℕ) → AreBytes (replicate n b)
same_bytes b lt zero = tt
same_bytes b lt (suc n) = (lt, same_bytes b lt n)

pub engine_of-Laws : (n : ℕ) → Laws (engine_of n)
engine_of-Laws n = record {
  ae_inverse = λ c p ct t ae h. ground arith;
  plain_inverse = λ c p ct t u ae h. ground arith;
  hmac_tag = λ c u d a. refl;
  encrypt_again = λ c p ct t u h. (replicate c.tag_len 7, ground arith, λ ae. ground arith);
  length-tag = λ c p ct t ae h. ground (arith, length-replicate {A = ℕ} c.tag_len 7);
  length-encrypt = λ c p ct t h. (ground arith, ground arith);
  length-decrypt = λ c d p h. ground arith;
  encrypt-AreBytes = λ c p ct t h e. (
    subst AreBytes {x = p} {y = ct} (ground arith) h,
    λ ae.
        subst AreBytes {x = replicate c.tag_len 7} {y = t} (ground arith)
          (same_bytes 7 (omega arith) c.tag_len),
  );
  hmac-AreBytes = λ c d a mac e.
      subst AreBytes {x = length d % 256 ∷ replicate n 5} {y = mac} (ground arith)
        (omega arith, same_bytes 5 (omega arith) n);
  length-residue = λ c d k. length-replicate {A = ℕ} k 0;
}

pub engine-Laws : Laws engine
engine-Laws = engine_of-Laws 1

abbrev pub packer : Lz4
packer = record {
  max_input = 1000;
  compress = λ b. some (0 ∷ b);
  decompress = λ zb n. some (drop 1 zb);
}

pub packer-Laws : Lz4Laws packer
packer-Laws = record {
  bound = ground arith;
  inverse = λ b zb h. ground arith;
  length-compress = λ b zb h. ground arith;
  compress-ne-nil = λ b zb h. ground arith;
}

abbrev pub crypto : Crypto
crypto = record {
  cipher = 1;
  ae_cipher = false;
  iv_set = true;
  enc_key_set = true;
  auth_key_set = true;
  key_len = 1;
  iv_len = 1;
  block_size = 16;
  key = 9 ∷ [];
  iv = 8 ∷ [];
  hmac_id = 1;
  auth_key = 6 ∷ [];
  auth_key_len = 1;
  tag = [];
  tag_len = 2;
  aad = none;
}

pub crypto-IsUsable : IsUsable crypto
crypto-IsUsable = record {
  block_pos = omega arith;
  block_small = omega arith;
  tag_small = omega arith;
}

abbrev pub vault : Vault
vault = record { compress = true; crypto = crypto }

abbrev pub writes : WriteEnv
writes = record {
  alloc_ok = true;
  malloc_ok = true;
  seek_ok = true;
  truncate_ok = true;
  written = 1000;
  time = 5;
}

abbrev pub reads : ReadEnv
reads = record { map_ok = true; malloc_ok = true; alloc_ok = λ n. true }

pub reads-CanRead : CanRead reads
reads-CanRead = record { map_ok = refl; malloc_ok = refl; alloc_ok = λ n h. refl }

abbrev pub syncs : SyncEnv
syncs = record {
  truncate_ok = true;
  name_ok = true;
  open_ok = true;
  rename_ok = true;
  write = writes;
}

abbrev pub env : Env
env = record { size_ok = true; read = reads; move_ok = true; now = 100; sync = syncs }

abbrev pub hello : Bytes
hello = 104 ∷ 101 ∷ 108 ∷ 108 ∷ 111 ∷ []
