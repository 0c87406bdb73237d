-- ===== src/Examples/Commands.antt =====
-- A file stored and printed by the commands of the command line.
use rvault.Prelude.{
  ◌≡◌, ◌++◌, ◌≤◌, refl, true, false, some, Option, List, [], ◌∷◌, arith, length, drop,
}
use rvault.Prelude.Bytes.{Bytes}
use rvault.Crypto.{crypto_encrypt}
use rvault.Files.{Outcome, moved, retry}
use rvault.Storage.Header.{fileobj_hdr}
use rvault.Storage.Object.{storage_write_data}
use rvault.FileObj.{State, Env, fileobj_open, fileobj_sync, fileobj_pwrite, fileobj_dataload}
use rvault.FileObj.Branches.{loaded, is_loaded}
use rvault.FileObj.Sound.{IsSound, fileobj_open-IsSound}
use rvault.FileObj.Overwrite.{bytes}
use rvault.Cli.{write_input, print_file, put_file, get_file}
use rvault.Cli.Transfer.{input_bytes, print_file_lem}
use rvault.Cli.PutGet.{IsStored, CanPrint, reopened, get_file-put_file}
use rvault.Examples.Engine.{
  engine, engine-Laws, packer, packer-Laws, crypto-IsUsable, vault, syncs, env, reads-CanRead,
  hello,
}

abbrev fresh : State
fresh = fileobj_open vault false []

fresh-IsSound : IsSound fresh
fresh-IsSound = fileobj_open-IsSound vault false [] (omega arith)

-- Too early for a write-back.
abbrev early : Env
early = record env { now = 1 }

abbrev later : List (Env × Option Bytes)
later = (early, some hello) ∷ (early, some []) ∷ []

abbrev input : List (Env × Option Bytes)
input = (early, some hello) ∷ later

abbrev stored : State
stored = (write_input engine packer input 0 fresh).0

input-done : (write_input engine packer input 0 fresh).1 ≡ true
unfolding write_input fileobj_pwrite
input-done = refl

stored-IsStored : IsStored engine packer (λ n. syncs) stored
unfolding write_input fileobj_pwrite fileobj_sync storage_write_data crypto_encrypt fileobj_hdr
stored-IsStored = record { short = omega arith; synced = refl }

abbrev outs : List Outcome
outs = moved 3 ∷ retry ∷ moved 7 ∷ []

stored-CanPrint : CanPrint env outs (length (bytes stored))
unfolding write_input fileobj_pwrite
stored-CanPrint = record {
  size = refl;
  can = reads-CanRead;
  progress = (omega arith, (omega arith, tt));
  fits = omega arith;
}

get_file-put_file_example :
    ((get_file engine packer env true outs
        (λ n. syncs)
        (reopened false (put_file engine packer input true (λ n. syncs) fresh).0)).1
      ≡ hello
        ++ (input_bytes later
            ++ drop
                (length (hello ++ input_bytes later))
                (bytes (loaded engine packer early fresh))))
    × ((get_file engine packer env true outs
          (λ n. syncs)
          (reopened false (put_file engine packer input true (λ n. syncs) fresh).0)).2
        ≡ true)
unfolding input_bytes
get_file-put_file_example =
    get_file-put_file engine engine-Laws packer packer-Laws early b'h' (drop 1 hello) later
      (λ n. syncs) (λ n. syncs) fresh env outs false fresh-IsSound crypto-IsUsable (omega arith)
      input-done stored-IsStored stored-CanPrint

loaded-fresh : is_loaded engine packer early fresh ≡ true
unfolding fileobj_dataload
loaded-fresh = refl

empty-fresh : length (bytes (loaded engine packer early fresh)) ≤ 10
unfolding fileobj_dataload
empty-fresh = omega arith

print_file_lem_example :
    ((print_file engine packer early true outs fresh).1 ≡ bytes (loaded engine packer early fresh))
    × ((print_file engine packer early true outs fresh).2 ≡ true)
print_file_lem_example =
    print_file_lem engine engine-Laws packer early outs fresh fresh-IsSound loaded-fresh
      (omega arith, (omega arith, tt)) empty-fresh
