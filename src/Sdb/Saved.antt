-- ===== src/Sdb/Saved.antt =====
-- A secret that was set and saved is there when the database is opened again: src/core/sdb.c over
-- src/core/storage.c.
use rvault.Prelude.{
  length-take, ℕ, ◌+◌, ◌≤◌, ◌<◌, ◌≡◌, refl, ap, ◌∙◌, sym, subst, true, false, none, some, ◌++◌,
  arith, length, take, ◌==◌, Option-cases, Bool-cases, append-nil, inl, inr, [], ◌∷◌,
}
use rvault.Prelude.Bytes.{Bytes, codes}
use rvault.Buffer.{contents}
use rvault.Crypto.{Ops, Laws, int_max}
use rvault.Storage.Object.{
  Lz4, Lz4Laws, ReadEnv, WriteEnv, Vault, storage_read_data, storage_write_data,
}
use rvault.Storage.RoundTrip.{IsUsable, CanRead}
use rvault.Storage.WriteRead.{storage_read_data-storage_write_data, Holds}
use rvault.Storage.Integrity.{storage_read_data-Accepted}
use rvault.Storage.Keys.{storage_write_data-SameKeys}
use rvault.Sdb.{
  Sqlite, sdb_query, bind_some, print_rows, print_columns, find_cmd, sdb_exec_cmd, sdb_open,
  sdb_sync, get_query, set_query,
}
use rvault.Sdb.Commands.{IsToken, sdb_exec_cmd_lem}

-- What SQLite documents: an image gives the same database again, and is not empty; and a row that
-- was inserted or replaced is selected by its key, one row with its value. A database that has just
-- taken a row has the table, so that the selection can be prepared on it, and a key that could be
-- bound to the insertion can be bound to it.
pub record SqliteLaws {Db : Type 0} (q : Sqlite Db) : Type 0 where
  pub image : (db : Db) (b : Bytes) → q.serialize db ≡ some b → q.deserialize b ≡ some db
  pub length-image : (db : Db) (b : Bytes) → q.serialize db ≡ some b → 0 < length b
  pub prepared :
      (db : Db)
      → (key val : Bytes) → q.prepare_v2 db set_query ≡ true
      → q.prepare_v2 (q.rows db set_query (some key) (some val)).0 get_query ≡ true
  pub bound :
      (db : Db) (key val : Bytes)
      → q.prepare_v2 db set_query ≡ true
      → q.bind_text db set_query 1 key ≡ true
      → q.bind_text (q.rows db set_query (some key) (some val)).0 get_query 1 key ≡ true
  pub selected :
      (db : Db) (key val : Bytes)
      → q.prepare_v2 db set_query ≡ true
      → (q.rows (q.rows db set_query (some key) (some val)).0 get_query (some key) none).1
        ≡ (some val ∷ []) ∷ []

print_one : (val : Bytes) → print_rows ((some val ∷ []) ∷ []) ≡ val ++ codes "\n"
unfolding print_rows print_columns
print_one val = append-nil (val ++ codes "\n")

get_after_set :
    {Db : Type 0} (q : Sqlite Db) (ql : SqliteLaws q) (db : Db) (key val out : Bytes)
    → (sdb_query q db set_query (some key) (some val)).1 ≡ some out
    → (sdb_query q (sdb_query q db set_query (some key) (some val)).0 get_query (some key) none).1
      ≡ some (val ++ codes "\n")
unfolding sdb_query bind_some
get_after_set q ql db key val out h = elim (Bool-cases (q.prepare_v2 db set_query)) [
  | inr bad ↦ absurd (ground arith)
  | inl ready ↦ elim (Bool-cases (q.bind_text db set_query 1 key)) [
    | inr bad ↦ absurd (ground arith)
    | inl set ↦
        let prepared = ql.prepared db key val ready in
        let bound = ql.bound db key val ready set in
        let row = ql.selected db key val ready in
        let shown = ap print_rows row ∙ print_one val in ground arith
  ]
]

module _ {Db : Type 0} (q : Sqlite Db) (o : Ops) (z : Lz4) where
  open_loaded :
      (e : ReadEnv) (v : Vault) (file buf : Bytes) (db : Db)
      → 0 < length file
      → 0 < length buf
      → Holds (storage_read_data o z e v file).ret buf
      → q.deserialize buf ≡ some db
      → sdb_open q o z e true true v file ≡ some db
  unfolding sdb_open
  open_loaded e v file buf db any some_data (s, read, held) h =
      let more : (length file == 0) ≡ false = ground arith in
      elim (Option-cases s.buf) [
        | inl gone ↦ absurd (
            omega (
              arith,
              some_data,
              ap length (sym held ∙ ap (λ b. take (length buf) (contents b)) gone),
              length-take (length buf) (contents none),
            ))
        | inr (b, there) ↦
            let same : take (length buf) b ≡ buf =
              ap (λ x. take (length buf) (contents x)) (sym there) ∙ held in
            rw (sdb_open, more, read, there, same) h
      ]

pub sync_image :
    {Db : Type 0} (q : Sqlite Db) (o : Ops) (z : Lz4) (we : WriteEnv) (v : Vault)
    (file image : Bytes) (db : Db)
    → q.serialize db ≡ some image
    → sdb_sync q o z we v file db ≡ storage_write_data o z we v file image
unfolding sdb_sync
sync_image q o z we v file image db h = rw (sdb_sync, h) refl

-- The database that sdb_sync reported as stored is the one that sdb_open gives on the file, with
-- the same keys and where it can map and allocate, if its image is not longer than INT_MAX less a
-- block.
pub sdb_open-sdb_sync :
    {Db : Type 0} (q : Sqlite Db) (ql : SqliteLaws q) (o : Ops) (laws : Laws o) (z : Lz4)
    (zlaws : Lz4Laws z) (we : WriteEnv) (re : ReadEnv) (v : Vault) (file image : Bytes) (db : Db)
    (n : ℕ)
    → CanRead re
    → IsUsable v.crypto
    → q.serialize db ≡ some image
    → length image + v.crypto.block_size ≤ int_max
    → (sdb_sync q o z we v file db).ret ≡ some n
    → sdb_open q o z re true true
        (record v { crypto = (sdb_sync q o z we v file db).crypto })
        (sdb_sync q o z we v file db).file
      ≡ some db
sdb_open-sdb_sync q ql o laws z zlaws we re v file image db n can usable ser short h =
    let r = storage_write_data o z we v file image in
    let w : Vault = record v { crypto = r.crypto } in
    let run = sync_image q o z we v file image db ser in
    let keys = storage_write_data-SameKeys o z we v file image in
    let holds =
      (storage_read_data-storage_write_data o laws z zlaws we re can v w usable r.crypto.tag
        r.crypto.aad keys file image (ql.length-image db image ser) short n
        (ap (λ x. x.ret) (sym run) ∙ h)).1 in
    let (s, read, held) = holds in
    let long = (storage_read_data-Accepted o z re w r.file read).long in
    subst (λ x. sdb_open q o z re true true (record v { crypto = x.crypto }) x.file ≡ some db)
      (sym run)
      (open_loaded q o z re w r.file image db (omega (arith, long)) (ql.length-image db image ser)
        holds (ql.image db image ser))

-- A secret that SET stored under a name without white space, once the database is saved, is what
-- GET prints for the name when the database is opened again, in either case of the commands.
pub get_saved_secret :
    {Db : Type 0} (q : Sqlite Db) (ql : SqliteLaws q) (o : Ops) (laws : Laws o) (z : Lz4)
    (zlaws : Lz4Laws z) (we : WriteEnv) (re : ReadEnv) (v : Vault)
    (file image name secret out : Bytes) (db : Db) (n : ℕ)
    → IsToken name
    → CanRead re
    → IsUsable v.crypto
    → (sdb_exec_cmd q (some secret) db (codes "SET " ++ name)).1 ≡ some out
    → q.serialize (sdb_exec_cmd q (some secret) db (codes "SET " ++ name)).0 ≡ some image
    → length image + v.crypto.block_size ≤ int_max
    → (sdb_sync q o z we v file (sdb_exec_cmd q (some secret) db (codes "SET " ++ name)).0).ret
      ≡ some n
    → (db' : Db) × (sdb_open q o z re true true
          (record v {
            crypto =
                (sdb_sync q o z we v file
                  (sdb_exec_cmd q (some secret) db (codes "SET " ++ name)).0).crypto;
          })
          (sdb_sync q o z we v file (sdb_exec_cmd q (some secret) db (codes "SET " ++ name)).0).file
        ≡ some db')
      × ((sdb_exec_cmd q none db' (codes "get " ++ name)).1 ≡ some (secret ++ codes "\n"))
unfolding find_cmd
get_saved_secret q ql o laws z zlaws we re v file image name secret out db n t can usable done ser
      short saved =
    let set =
      sdb_exec_cmd_lem q (codes "SET") name (some secret) db _ (refl, (refl, (refl, tt))) t refl in
    let db' = (sdb_exec_cmd q (some secret) db (codes "SET " ++ name)).0 in
    let get = sdb_exec_cmd_lem q (codes "get") name none db' _ (refl, (refl, (refl, tt))) t refl in
    (
      db',
      sdb_open-sdb_sync q ql o laws z zlaws we re v file image db' n can usable ser short saved,
      ap (λ r. r.1) get
          ∙ ap (λ r. (sdb_query q (r.0) get_query (some name) none).1) set
          ∙ get_after_set q ql db name secret out (ap (λ r. r.1) (sym set) ∙ done),
    )
