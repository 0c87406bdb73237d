-- ===== src/Examples/Objects.antt =====
-- A file object opened, written, read, written back and reopened.
use rvault.Prelude.{◌+◌, ◌≤◌, ◌≡◌, refl, true, false, some, [], ◌∷◌, arith, length, pos}
use rvault.Buffer.{Sbuffer, sbuffer_move}
use rvault.Buffer.Move.{Resized, sbuffer_move-Resized}
use rvault.Crypto.{int_max, crypto_encrypt}
use rvault.Storage.RoundTrip.{IsUsable}
use rvault.Storage.Header.{fileobj_hdr}
use rvault.Storage.Object.{storage_write_data}
use rvault.FileObj.{
  fileobj_dataload, Env, State, SyncEnv, ok, fullsync, fileobj_open, fileobj_sync, fileobj_pread,
  fileobj_pwrite,
}
use rvault.FileObj.Branches.{loaded, is_loaded}
use rvault.FileObj.Sound.{IsSound, fileobj_open-IsSound, fileobj_pwrite-IsSound}
use rvault.FileObj.Overwrite.{IsErased, ZeroFilled, bytes, Overwritten}
use rvault.FileObj.Refine.{
  fileobj_pwrite-ZeroFilled, fileobj_pwrite-Overwritten, fileobj_pread-fileobj_pwrite,
}
use rvault.FileObj.Durable.{fileobj_sync_fails, fileobj_dataload-fileobj_sync}
use rvault.FileObj.Reach.{start, after, pwrite, opened-IsSound}
use rvault.Examples.Engine.{
  engine, engine-Laws, packer, packer-Laws, crypto-IsUsable, vault, syncs, env, reads-CanRead,
  hello,
}

abbrev lazy : State
lazy = fileobj_open vault false []

lazy-IsSound : IsSound lazy
lazy-IsSound = fileobj_open-IsSound vault false [] (omega arith)

-- A quiet environment: too early for a write-back.
abbrev early : Env
early = record env { now = 1 }

pwrite-lazy : (fileobj_pwrite engine packer early lazy hello (pos 2)).1 ≡ ok 5
unfolding fileobj_pwrite
pwrite-lazy = refl

abbrev written : State
written = (fileobj_pwrite engine packer early lazy hello (pos 2)).0

fileobj_pwrite-Overwritten_example : Overwritten (loaded engine packer early lazy) hello 2 written
fileobj_pwrite-Overwritten_example =
    fileobj_pwrite-Overwritten engine engine-Laws packer early lazy lazy-IsSound hello 2
      (omega arith) (omega arith) pwrite-lazy

lazy-IsErased : IsErased (loaded engine packer early lazy)
unfolding fileobj_dataload
lazy-IsErased = refl

fileobj_pwrite-ZeroFilled_example : ZeroFilled (loaded engine packer early lazy) hello 2 written
fileobj_pwrite-ZeroFilled_example =
    fileobj_pwrite-ZeroFilled engine engine-Laws packer early lazy lazy-IsSound hello 2
      (omega arith) (omega arith) pwrite-lazy lazy-IsErased

fileobj_pread-fileobj_pwrite_example :
    (fileobj_pread engine packer early written (length hello) (pos 2)).1 ≡ ok hello
fileobj_pread-fileobj_pwrite_example =
    fileobj_pread-fileobj_pwrite engine engine-Laws packer early lazy lazy-IsSound early hello 2
      (omega arith) (omega arith) pwrite-lazy

written-IsSound : IsSound written
written-IsSound =
    fileobj_pwrite-IsSound engine packer engine-Laws early lazy lazy-IsSound hello (pos 2)
      (omega arith)

loaded-written : is_loaded engine packer early written ≡ true
unfolding fileobj_dataload fileobj_pwrite
loaded-written = refl

opened-IsSound_example : IsSound written
opened-IsSound_example =
    opened-IsSound engine packer engine-Laws vault false [] written (omega arith)
      (after lazy written start (pwrite early lazy hello (pos 2) (omega arith)))

dirty-written : written.fobj.dirty ≡ true
unfolding fileobj_pwrite
dirty-written = refl

sync-written : (fileobj_sync engine packer syncs fullsync written).1 ≡ true
unfolding fileobj_sync fileobj_pwrite storage_write_data crypto_encrypt fileobj_hdr
sync-written = refl

IsUsable-written : IsUsable written.vault.crypto
unfolding fileobj_pwrite
IsUsable-written = crypto-IsUsable

short-written : written.fobj.len + written.vault.crypto.block_size ≤ int_max
unfolding fileobj_pwrite
short-written = omega arith

abbrev reopened : State
reopened =
    fileobj_open (fileobj_sync engine packer syncs fullsync written).0.vault false
      (fileobj_sync engine packer syncs fullsync written).0.fobj.file

fileobj_dataload-fileobj_sync_example :
    (is_loaded engine packer env reopened ≡ true)
    × (bytes (loaded engine packer env reopened) ≡ bytes written)
fileobj_dataload-fileobj_sync_example =
    fileobj_dataload-fileobj_sync engine engine-Laws packer packer-Laws syncs fullsync written
      written-IsSound IsUsable-written env reads-CanRead refl dirty-written sync-written false
      short-written

-- A directory in which no file can be renamed.
abbrev stuck : SyncEnv
stuck = record syncs { rename_ok = false }

sync-stuck : (fileobj_sync engine packer stuck fullsync written).1 ≡ false
unfolding fileobj_sync fileobj_pwrite storage_write_data crypto_encrypt fileobj_hdr
sync-stuck = refl

fileobj_sync_fails_example :
    (written.fobj.dirty ≡ true)
    × ((fileobj_sync engine packer stuck fullsync written).0.fobj ≡ written.fobj)
fileobj_sync_fails_example = fileobj_sync_fails engine packer stuck fullsync written sync-stuck

abbrev three : Sbuffer
three = record { buf = some (1 ∷ 2 ∷ 3 ∷ []); buf_size = 3 }

move-three : (sbuffer_move true three 4 true).1 ≡ true
unfolding sbuffer_move
move-three = refl

sbuffer_move-Resized_example : Resized three 4 true (sbuffer_move true three 4 true).0
sbuffer_move-Resized_example = sbuffer_move-Resized true true three 4 refl move-three
