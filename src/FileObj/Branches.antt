-- ===== src/FileObj/Branches.antt =====
-- The branches of the operations on file objects, as equations on their stages.
use rvault.Prelude.{
  refl, inl, inr, ◌⊎◌, inr, inl, ◌⊎◌, ℕ, ◌+◌, ◌-◌, ◌%◌, ◌<◌, ◌≡◌, true, false, Bool, [], arith, pos,
  length, if◌then◌else◌, ◌==◌,
}
use rvault.Prelude.Bytes.{Bytes}
use rvault.Buffer.{Sbuffer, sbuffer_move, size_mod}
use rvault.Crypto.{Ops}
use rvault.Storage.Object.{Lz4}
use rvault.FileObj.{
  Errno, Result, State, Env, ok, fail, einval, eio, enomem, system, writeback, fileobj_dataload,
  fileobj_sync, fileobj_pread, expand, store, resized, written_back, fileobj_pwrite,
  fileobj_setsize, fileobj_getsize,
}

pub Result-cases :
    {A : Type 0} (r : Result A) → ((e : Errno) × (r ≡ fail e)) ⊎ ((a : A) × (r ≡ ok a))
Result-cases (fail e) = inl (e, refl)
Result-cases (ok a) = inr (a, refl)

module _ (o : Ops) (z : Lz4) (e : Env) (s : State) where
  abbrev pub loaded : State
  loaded = (fileobj_dataload o z e s).0

  abbrev pub is_loaded : Bool
  is_loaded = (fileobj_dataload o z e s).1

  pub pread_state : (len offset : ℕ) → (fileobj_pread o z e s len (pos offset)).0 ≡ loaded
  unfolding fileobj_pread
  pread_state len offset = ground arith

  pub getsize_state : (fileobj_getsize o z e s).0 ≡ loaded
  unfolding fileobj_getsize
  getsize_state = ground arith

  pub last_byte :
      (n offset : ℕ)
      → 0 < n
      → offset + n < size_mod
      → (offset + n + (size_mod - 1)) % size_mod ≡ offset + n - 1
  last_byte n offset some small = omega arith

  module _ (buf : Bytes) (offset : ℕ) (some : 0 < length buf)
      (small : offset + length buf < size_mod) where
    abbrev pub expanded : State
    expanded = (expand o z e.move_ok (offset + length buf - 1) loaded).0

    pub pwrite_unloaded :
        is_loaded ≡ false → fileobj_pwrite o z e s buf (pos offset) ≡ (loaded, fail eio)
    unfolding fileobj_pwrite
    pwrite_unloaded h = ground (arith, last_byte (length buf) offset some small)

    pub pwrite_no_room :
        is_loaded ≡ true
        → (expand o z e.move_ok (offset + length buf - 1) loaded).1 ≡ false
        → fileobj_pwrite o z e s buf (pos offset) ≡ (expanded, fail enomem)
    unfolding fileobj_pwrite
    pwrite_no_room h r = ground (arith, last_byte (length buf) offset some small)

    pub pwrite_done :
        is_loaded ≡ true
        → (expand o z e.move_ok (offset + length buf - 1) loaded).1 ≡ true
        → fileobj_pwrite o z e s buf (pos offset)
          ≡ (written_back o z e (store o z expanded buf offset), ok (length buf))
    unfolding fileobj_pwrite
    pwrite_done h r = ground (arith, last_byte (length buf) offset some small)

  pub pwrite_nothing :
      (offset : ℕ)
      → offset < size_mod
      → fileobj_pwrite o z e s [] (pos offset) ≡ (s, if offset == 0 then ok 0 else fail einval)
  unfolding fileobj_pwrite
  pwrite_nothing offset small = ground arith

  abbrev pub moved : ℕ → Sbuffer × Bool
  moved len =
      if len == 0
      then (loaded.fobj.sbuf, true)
      else sbuffer_move e.move_ok loaded.fobj.sbuf len false

  pub setsize_unloaded :
      (len : ℕ) → is_loaded ≡ false → fileobj_setsize o z e s len ≡ (loaded, fail eio)
  unfolding fileobj_setsize
  setsize_unloaded len h = ground arith

  pub setsize_no_room :
      (len : ℕ)
      → is_loaded ≡ true
      → (moved len).1 ≡ false
      → fileobj_setsize o z e s len
        ≡ (record loaded { fobj = record (loaded.fobj) { sbuf = (moved len).0 } }, fail system)
  unfolding fileobj_setsize
  setsize_no_room len h r = ground arith

  pub setsize_state :
      (len : ℕ)
      → is_loaded ≡ true
      → (moved len).1 ≡ true
      → (fileobj_setsize o z e s len).0
        ≡ (fileobj_sync o z e.sync writeback (resized o z loaded (moved len).0 len)).0
  unfolding fileobj_setsize
  setsize_state len h r = ground arith
