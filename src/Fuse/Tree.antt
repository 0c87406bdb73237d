-- ===== src/Fuse/Tree.antt =====
-- What src/fuse/rvaultfs.c makes of a vault: a tree of the users' names, each standing for the
-- object with the encrypted name. What is relied on of the system is PosixLaws.
use rvault.Prelude.{◌&&◌, ℕ, ◌≡◌, ◌≢◌, Bool, true, false, Option, none, some, List, [], ◌∷◌, ◌++◌}
use rvault.Prelude.Bytes.{Bytes, equal}
use rvault.Crypto.{Crypto, Ops}
use rvault.Resolve.{get_path_component}
use rvault.Resolve.Walk.{without_slash}
use rvault.Resolve.Stack.{joined}
use rvault.Resolve.Injective.{Tokens}
use rvault.FileObj.{Result, ok, fail}
use rvault.Fuse.{Posix, Mount, unlink}

-- The path of the object with these printed names, the last one first.
unfoldable pub object : (base : Bytes) → List Bytes → Bytes
unfolding joined without_slash
object base ts = base ++ (b'/' ∷ without_slash (joined ts))

-- What POSIX says of the vault's directory: `view` is what stands at the object with the given
-- printed names, its kind and, of a regular file, its contents. Names are without slashes and not
-- empty, and no object has a second link.
pub record PosixLaws (p : Posix) (base : Bytes) : Type 1 where
  pub Node : Type 0
  pub regular : Bytes → Node
  pub IsFile : Node → Type 0
  pub view : p.Fs → List Bytes → Option Node
  -- An unlinked name is gone, and no other name changes.
  pub unlink_removes :
      (ts : List Bytes) (fs : p.Fs) (r : ℕ × Bytes)
      → Tokens ts
      → (p.call unlink (object base ts) fs).1 ≡ some r
      → view (p.call unlink (object base ts) fs).0 ts ≡ none
  pub unlink_keeps :
      (ts ss : List Bytes) (fs : p.Fs)
      → Tokens ts
      → Tokens ss
      → ss ≢ ts
      → view (p.call unlink (object base ts) fs).0 ss ≡ view fs ss
  -- One that fails changes nothing.
  pub unlink_fails :
      (ts ss : List Bytes) (fs : p.Fs)
      → Tokens ts
      → Tokens ss
      → (p.call unlink (object base ts) fs).1 ≡ none
      → view (p.call unlink (object base ts) fs).0 ss ≡ view fs ss
  -- Opening creates a regular file or opens the one that is there, with the bytes that its
  -- descriptor refers to. A directory may be opened too; nothing is said of that.
  pub open_shows :
      (ts : List Bytes) (fs : p.Fs) (flags mode : ℕ) (file : Bytes)
      → Tokens ts
      → ((n : Node) → view fs ts ≡ some n → IsFile n)
      → (p.open_file (object base ts) flags mode fs).1 ≡ some file
      → view (p.open_file (object base ts) flags mode fs).0 ts ≡ some (regular file)
  pub open_keeps :
      (ts ss : List Bytes) (fs : p.Fs) (flags mode : ℕ)
      → Tokens ts
      → Tokens ss
      → ss ≢ ts
      → view (p.open_file (object base ts) flags mode fs).0 ss ≡ view fs ss
  pub open_fails :
      (ts ss : List Bytes) (fs : p.Fs) (flags mode : ℕ)
      → Tokens ts
      → Tokens ss
      → (p.open_file (object base ts) flags mode fs).1 ≡ none
      → view (p.open_file (object base ts) flags mode fs).0 ss ≡ view fs ss
  -- A regular file moves, and what it replaces is gone.
  pub rename_moves :
      (ts us : List Bytes) (fs : p.Fs) (n : Node)
      → Tokens ts
      → Tokens us
      → us ≢ ts
      → view fs ts ≡ some n
      → IsFile n
      → (p.rename (object base ts) (object base us) fs).1 ≡ true
      → (view (p.rename (object base ts) (object base us) fs).0 us ≡ some n)
        × (view (p.rename (object base ts) (object base us) fs).0 ts ≡ none)
  pub rename_fails :
      (ts us ss : List Bytes) (fs : p.Fs)
      → Tokens ts
      → Tokens us
      → Tokens ss
      → (p.rename (object base ts) (object base us) fs).1 ≡ false
      → view (p.rename (object base ts) (object base us) fs).0 ss ≡ view fs ss
  pub rename_keeps :
      (ts us ss : List Bytes) (fs : p.Fs) (n : Node)
      → Tokens ts
      → Tokens us
      → Tokens ss
      → ss ≢ ts
      → ss ≢ us
      → view fs ts ≡ some n
      → IsFile n
      → view (p.rename (object base ts) (object base us) fs).0 ss ≡ view fs ss

-- The operation did not return an error.
abbrev pub succeeded : {A : Type 0} → Result A → Bool
succeeded (ok r) = true
succeeded (fail e) = false

-- The printed names of names, as the crypto object stands.
unfoldable pub print_names : Ops → Crypto → List Bytes → Option (List Bytes)
print_names o c [] = some []
print_names o c (n ∷ ns) = elim (get_path_component o c n).1 [
  | none ↦ none
  | some t ↦ elim (print_names o c ns) [ none ↦ none | some ts ↦ some (t ∷ ts) ]
]

-- The tree that the user sees: what stands at the object of the names.
unfoldable pub tree :
    (o : Ops) (p : Posix) (base : Bytes) (laws : PosixLaws p base)
    → Mount o p base
    → List Bytes
    → Option laws.Node
unfolding print_names
tree o p base laws m ns = elim (print_names o m.vault.crypto ns) [
  | none ↦ none
  | some ts ↦ laws.view m.fs ts
]

unfoldable pub same_names : List Bytes → List Bytes → Bool
unfolding equal
same_names [] [] = true
same_names (n ∷ ns) (m ∷ ms) = equal n m && same_names ns ms
same_names _ _ = false
