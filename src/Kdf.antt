-- ===== src/Kdf.antt =====
-- Key derivation, of src/crypto/kdf.c: the stored parameters, their calibration, and the call of
-- scrypt, which is a parameter.
pub mod Params
use rvault.Prelude.{
  ℕ, zero, suc, ◌+◌, ◌-◌, ◌*◌, ◌/◌, ◌^◌, Bool, true, false, not, Option, none, some, [], ◌∷◌, ◌++◌,
  ◌==◌, ltb, if◌then◌else◌, length, take, drop, get_or, replicate,
}
use rvault.Prelude.Bytes.{Bytes}
use rvault.Storage.Header.{htobe64, be64toh}

abbrev pub kdf_scrypt : ℕ
kdf_scrypt = 1

abbrev pub kdf_salt_len : ℕ
kdf_salt_len = 16

-- kdf_params_t: 28 bytes, packed.
abbrev pub kdf_params_len : ℕ
kdf_params_len = 28

unfoldable pub kdf_params : ℕ → Bytes → Bytes
kdf_params n salt = kdf_scrypt ∷ 0 ∷ 0 ∷ 0 ∷ (htobe64 n ++ salt)

abbrev pub scrypt_n_min_shift : ℕ
scrypt_n_min_shift = 14

abbrev pub scrypt_n_default : ℕ
scrypt_n_default = 2 ^ 14

abbrev pub kdf_min_ms : ℕ
kdf_min_ms = 50

abbrev pub kdf_verify_n : ℕ
kdf_verify_n = 10

-- What is derived: the passphrase, the salt, N and the length asked for; r and p are fixed.
abbrev pub Scrypt : Type 0
Scrypt = Bytes → Bytes → ℕ → ℕ → Option Bytes

-- measure_kdf, at each time: the milliseconds that the `k`th run takes at the given N, or -1.
abbrev pub Measure : Type 0
Measure = ℕ → ℕ → Option ℕ

abbrev pub takes_long : Option ℕ → Bool
takes_long none = false
takes_long (some ms) = ltb kdf_min_ms ms

-- The loop that raises N until a run takes long enough: `left` shifts are left, and the next run
-- is number `k`. The value of `n` behind the loop, and the number of runs.
unfoldable pub find_n : Measure → ℕ → ℕ → ℕ → ℕ × ℕ
find_n measure k zero n = (n, k)
find_n measure k (suc zero) n = (n, k + 1)
find_n measure k (suc (suc left)) n =
    let rest = find_n measure (k + 1) (suc left) (n * 2) in
    if takes_long (measure k n) then (n, k + 1) else rest

-- The sum of the runs that verify it: what is added and what is subtracted.
unfoldable pub sum_runs : Measure → ℕ → ℕ → ℕ → ℕ × ℕ
sum_runs measure k zero n = (0, 0)
sum_runs measure k (suc left) n =
    let (added, lost) = sum_runs measure (k + 1) left n in
    elim (measure k n) [ none ↦ (added, lost + 1) | some ms ↦ (ms + added, lost) ]

-- The loop of kdf_calibrate, with the tries left.
unfoldable pub calibrate : Measure → ℕ → ℕ → ℕ
unfolding find_n sum_runs
calibrate measure k zero = scrypt_n_default
calibrate measure k (suc retry) =
    let (n, j) = find_n measure k (64 - scrypt_n_min_shift) (2 ^ scrypt_n_min_shift) in
    let rest = calibrate measure (j + kdf_verify_n) retry in
    let (added, lost) = sum_runs measure j kdf_verify_n n in
    if ltb kdf_min_ms ((added - lost) / kdf_verify_n) then n else rest

unfoldable pub kdf_calibrate : Measure → ℕ
unfolding calibrate
kdf_calibrate measure = calibrate measure 0 3

-- kdf_create_params, or NULL; `rand` is crypto_getrandbytes, a function of the length, which gives
-- nothing where calloc fails too.
unfoldable pub kdf_create_params : Measure → (ℕ → Option Bytes) → Option Bytes
kdf_create_params measure rand = elim (rand kdf_salt_len) [
  | none ↦ none
  | some salt ↦ some (kdf_params (kdf_calibrate measure) salt)
]

-- kdf_passphrase_genkey: the key of `buflen` bytes, or -1.
unfoldable pub kdf_passphrase_genkey : Scrypt → Bytes → Option Bytes → ℕ → Option Bytes
kdf_passphrase_genkey scrypt pwd none buflen =
    scrypt pwd (replicate kdf_salt_len 0) scrypt_n_default buflen
kdf_passphrase_genkey scrypt pwd (some kp) buflen =
    if ltb (length kp) kdf_params_len
    then none
    else if not (get_or kp 0 0 == kdf_scrypt)
    then none
    else scrypt pwd (take kdf_salt_len (drop 12 kp)) (be64toh (drop 4 kp)) buflen
