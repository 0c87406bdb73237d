-- ===== src/Sdb/Session.antt =====
-- What a session of the prompt of src/core/sdb.c leaves for the next one.
use rvault.Prelude.{
  ℕ, ◌+◌, ◌≤◌, ◌≡◌, refl, ap, ◌∙◌, sym, subst, true, none, some, List, [], ◌∷◌, ◌++◌, arith, length,
  Option-cases, inl, inr,
}
use rvault.Prelude.Bytes.{Bytes, codes}
use rvault.Crypto.{Crypto, Ops, Laws, int_max}
use rvault.Storage.Object.{Lz4, Lz4Laws, ReadEnv, WriteEnv, Vault}
use rvault.Storage.RoundTrip.{IsUsable, CanRead}
use rvault.Storage.Keys.{SameKeys, storage_write_data-SameKeys}
use rvault.Sdb.{Sqlite, sdb_exec_cmd, sdb_open, sdb_sync}
use rvault.Sdb.Commands.{IsToken}
use rvault.Sdb.Saved.{SqliteLaws, sync_image, get_saved_secret}
use rvault.Sdb.Prompt.{Round, Session, prompt_line, prompt}

same-IsUsable : (c d : Crypto) → SameKeys c d → IsUsable c → IsUsable d
same-IsUsable c d same u =
    subst IsUsable (sym same)
      (record { block_pos = u.block_pos; block_small = u.block_small; tag_small = u.tag_small })

module _ {Db : Type 0} (q : Sqlite Db) (o : Ops) (z : Lz4) where
  sdb_sync-SameKeys :
      (we : WriteEnv) (v : Vault) (file : Bytes) (db : Db)
      → SameKeys v.crypto (sdb_sync q o z we v file db).crypto
  unfolding sdb_sync
  sdb_sync-SameKeys we v file db = elim (Option-cases (q.serialize db)) [
    | inl f ↦ ground arith
    | inr (image, f) ↦
        subst (λ r. SameKeys v.crypto r.crypto) (sym (sync_image q o z we v file image db f))
          (storage_write_data-SameKeys o z we v file image)
  ]

  -- The session behind a line that a command printed for.
  abbrev pub saved_line : Session Db → Round → Bytes → Session Db
  saved_line s r out =
      let db = (sdb_exec_cmd q r.secret s.db r.line).0 in
      let w = sdb_sync q o z r.writes s.vault s.file db in
      record {
        vault = record (s.vault) { crypto = w.crypto };
        file = w.file;
        db = db;
        shown = s.shown ++ (some out ∷ []);
      }

  prompt_line_saves :
      (s : Session Db) (r : Round) (out : Bytes)
      → (sdb_exec_cmd q r.secret s.db r.line).1 ≡ some out
      → prompt_line q o z s r ≡ saved_line s r out
  unfolding prompt_line sdb_sync sdb_exec_cmd
  prompt_line_saves s r out h = rw (prompt_line, h) refl

  -- A line leaves the keys, and with them the lengths of the vault's crypto object.
  prompt_line-SameKeys :
      (s : Session Db) (r : Round) → SameKeys s.vault.crypto (prompt_line q o z s r).vault.crypto
  unfolding prompt_line
  prompt_line-SameKeys s r = elim (Option-cases (sdb_exec_cmd q r.secret s.db r.line).1) [
    | inl f ↦ ground arith
    | inr (out, f) ↦
        let keys =
          sdb_sync-SameKeys r.writes s.vault s.file (sdb_exec_cmd q r.secret s.db r.line).0 in
        ground arith
  ]

  prompt-IsUsable :
      (s : Session Db) (rounds : List Round)
      → IsUsable s.vault.crypto
      → IsUsable (prompt q o z s rounds).vault.crypto
  unfolding prompt
  prompt-IsUsable s [] u = u
  prompt-IsUsable s (r ∷ rounds) u = prompt-IsUsable (prompt_line q o z s r) rounds (
      same-IsUsable s.vault.crypto (prompt_line q o z s r).vault.crypto (prompt_line-SameKeys s r)
        u)

  prompt-append :
      (s : Session Db) (rounds : List Round) (r : Round)
      → prompt q o z s (rounds ++ (r ∷ [])) ≡ prompt_line q o z (prompt q o z s rounds) r
  unfolding prompt
  prompt-append s [] r = refl
  prompt-append s (x ∷ rounds) r = prompt-append (prompt_line q o z s x) rounds r

module _ {Db : Type 0} (q : Sqlite Db) (ql : SqliteLaws q) (o : Ops) (laws : Laws o) (z : Lz4)
    (zlaws : Lz4Laws z) (s : Session Db) (rounds : List Round) (name secret : Bytes)
    (we : WriteEnv) where
  -- The session up to the line, and the line with its secret.
  abbrev before : Session Db
  before = prompt q o z s rounds

  abbrev set_line : Round
  set_line = record { line = codes "SET " ++ name; secret = some secret; writes = we }

  abbrev after : Session Db
  after = prompt q o z s (rounds ++ (set_line ∷ []))

  -- A secret that SET stored in a session of the prompt, after any other lines, is what get shows
  -- as the first line of the next session, if the database was saved behind that line, which the
  -- prompt does not report. The name has no white space, the vault's lengths are ones that the
  -- format can hold, the image is a block below INT_MAX, and the next session can map the file and
  -- allocate.
  pub get-next_session :
      (re : ReadEnv) (we' : WriteEnv) (out image : Bytes) (n : ℕ)
      → IsToken name
      → CanRead re
      → IsUsable s.vault.crypto
      → (sdb_exec_cmd q (some secret) before.db (codes "SET " ++ name)).1 ≡ some out
      → q.serialize (sdb_exec_cmd q (some secret) before.db (codes "SET " ++ name)).0 ≡ some image
      → length image + before.vault.crypto.block_size ≤ int_max
      → (sdb_sync q o z we before.vault before.file
          (sdb_exec_cmd q (some secret) before.db (codes "SET " ++ name)).0).ret
        ≡ some n
      → (db' : Db) × (sdb_open q o z re true true after.vault after.file ≡ some db')
        × ((prompt_line q o z
              (record { vault = after.vault; file = after.file; db = db'; shown = [] })
              (record { line = codes "get " ++ name; secret = none; writes = we' })).shown
            ≡ some (secret ++ codes "\n") ∷ [])
  get-next_session re we' out image n t can usable done ser short saved =
      let (db', opened, got) =
        get_saved_secret q ql o laws z zlaws we re before.vault before.file image name secret out
          before.db n t can (prompt-IsUsable q o z s rounds usable) done ser short saved in
      let end : after ≡ saved_line q o z before set_line out =
        prompt-append q o z s rounds set_line ∙ prompt_line_saves q o z before set_line out done in
      (
        db',
        ap (λ x. sdb_open q o z re true true x.vault x.file) end ∙ opened,
        ap (λ x. x.shown)
            (prompt_line_saves q o z
              (record { vault = after.vault; file = after.file; db = db'; shown = [] })
              (record { line = codes "get " ++ name; secret = none; writes = we' })
              (secret ++ codes "\n") got),
      )
