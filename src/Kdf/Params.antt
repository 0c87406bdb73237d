-- ===== src/Kdf/Params.antt =====
-- What kdf_create_params stores, kdf_passphrase_genkey reads, and how far the calibration goes.
use rvault.Prelude.{
  Bool, true, false, ltb, if◌then◌else◌, take-append, ◌++◌, ℕ, zero, suc, ◌+◌, ◌-◌, ◌*◌, ◌/◌, ◌^◌,
  ◌≤◌, ◌<◌, ◌≡◌, subst, Bool-cases, inl, inr, some, arith, length, length-append,
}
use rvault.Prelude.Bytes.{Bytes}
use rvault.Storage.Layout.{be64toh-htobe64}
use rvault.Kdf.{
  kdf_min_ms, takes_long, Scrypt, Measure, kdf_params, find_n, sum_runs, calibrate, kdf_calibrate,
  kdf_create_params, kdf_passphrase_genkey, kdf_salt_len, kdf_params_len,
}

find_n_bounds :
    (measure : Measure) (k left n : ℕ)
    → (n ≤ (find_n measure k (suc left) n).0) × ((find_n measure k (suc left) n).0 ≤ n * 2 ^ left)
unfolding find_n
find_n_bounds measure k zero n = (omega arith, omega arith)
find_n_bounds measure k (suc left) n =
    let ih = find_n_bounds measure (k + 1) left (n * 2) in
    let grows : n ≤ n * 2 ^ suc left = grind (arith, ih) in
    elim (Bool-cases (takes_long (measure k n))) [
      | inl slow ↦ rw slow (omega arith, grows)
      | inr fast ↦ rw fast (omega (arith, ih), grind (arith, ih))
    ]

abbrev Between : ℕ → Type 0
Between n = (2 ^ 14 ≤ n) × (n < 2 ^ 64)

if-Between : (t : Bool) (n m : ℕ) → Between n → Between m → Between (if t then n else m)
if-Between true n m hn hm = hn
if-Between false n m hn hm = hm

calibrate-Between : (measure : Measure) (k retry : ℕ) → Between (calibrate measure k retry)
unfolding calibrate
calibrate-Between measure k zero = (omega arith, omega arith)
calibrate-Between measure k (suc retry) =
    let r = find_n measure k 50 (2 ^ 14) in
    let sums = sum_runs measure r.1 10 r.0 in
    if-Between (ltb kdf_min_ms ((sums.0 - sums.1) / 10)) r.0 (calibrate measure (r.1 + 10) retry)
      (omega (arith, find_n_bounds measure k 49 (2 ^ 14)))
      (calibrate-Between measure (r.1 + 10) retry)

-- However the runs of scrypt go, the cost parameter chosen is at least 2^14 and fits an uint64_t.
pub kdf_calibrate_bounds :
    (measure : Measure) → (2 ^ 14 ≤ kdf_calibrate measure) × (kdf_calibrate measure < 2 ^ 64)
unfolding kdf_calibrate
kdf_calibrate_bounds measure = calibrate-Between measure 0 3

genkey_stored :
    (scrypt : Scrypt) (pwd salt rest : Bytes) (n buflen : ℕ)
    → length salt ≡ kdf_salt_len
    → n < 2 ^ 64
    → kdf_passphrase_genkey scrypt pwd (some (kdf_params n salt ++ rest)) buflen
      ≡ scrypt pwd salt n buflen
unfolding kdf_params kdf_passphrase_genkey
genkey_stored scrypt pwd salt rest n buflen l small =
    let long : ltb (length (kdf_params n salt ++ rest)) kdf_params_len ≡ false =
      ground (arith, length-append salt rest) in
    rw long (λ i.
      scrypt pwd (take-append kdf_salt_len salt rest l i) (be64toh-htobe64 n (salt ++ rest) small i)
        buflen)

-- With the parameters that kdf_create_params stored, whatever stands behind them, the key is
-- derived from the salt that was drawn and the cost that was calibrated.
pub kdf_passphrase_genkey-kdf_create_params :
    (scrypt : Scrypt) (measure : Measure) (pwd salt kp rest : Bytes) (buflen : ℕ)
    → length salt ≡ kdf_salt_len
    → kdf_create_params measure (λ n. some salt) ≡ some kp
    → kdf_passphrase_genkey scrypt pwd (some (kp ++ rest)) buflen
      ≡ scrypt pwd salt (kdf_calibrate measure) buflen
unfolding kdf_create_params
kdf_passphrase_genkey-kdf_create_params scrypt measure pwd salt kp rest buflen l h =
    let e : kdf_params (kdf_calibrate measure) salt ≡ kp = cc in
    subst
      (λ p.
        kdf_passphrase_genkey scrypt pwd (some (p ++ rest)) buflen
        ≡ scrypt pwd salt (kdf_calibrate measure) buflen)
      e
      (genkey_stored scrypt pwd salt rest (kdf_calibrate measure) buflen l
        (kdf_calibrate_bounds measure).1)
