-- ===== src/Examples/Mounts.antt =====
-- A mounted vault over a file system in memory, which maps paths to the contents of files.
use Prim.Native.Nat.{bit_and}
use rvault.Prelude.{
  ◌&&◌, Option-cases, ap, ◌≤◌, ◌+◌, subst, ℕ, ◌≡◌, ◌≢◌, refl, sym, Bool, true, false, Option, none,
  some, List, [], ◌∷◌, ◌==◌, if◌then◌else◌, arith, pos, Bool-cases, inl, inr,
}
use rvault.Prelude.Bytes.{Bytes, codes, equal}
use rvault.Crypto.{int_max, crypto_encrypt}
use rvault.Crypto.Inverse.{equal_sound, equal_refl}
use rvault.Hex.{hex_write}
use rvault.Storage.Object.{storage_write_data}
use rvault.Storage.Header.{fileobj_hdr}
use rvault.Resolve.{get_path_component}
use rvault.Resolve.Sealed.{IsShort}
use rvault.Resolve.Walk.{
  rvault_resolve_path, walk, walk_component, is_skipped, is_parent, last_slash,
}
use rvault.Resolve.Plain.{plain_names}
use rvault.Resolve.Injective.{
  Tokens, AllShort, append_cancel, relative_same, rvault_resolve_path_injective,
}
use rvault.FileObj.{eio, fail, ok, Result, State, Env, fileobj_open, fileobj_sync, fileobj_pwrite}
use rvault.FileObj.Sound.{fileobj_open-IsSound}
use rvault.Fuse.{
  Posix, Call, Mount, unlink, open_object, o_wronly, o_accmode, fobj_omask, rvaultfs_open_raw,
  rvaultfs_unlink, rvaultfs_rename,
}
use rvault.Fuse.Tree.{succeeded, PosixLaws, object, tree, same_names, print_names}
use rvault.Fuse.Changes.{rvaultfs_unlink-tree}
use rvault.Fuse.Opened.{rvaultfs_open_raw-tree}
use rvault.Fuse.Renamed.{rvaultfs_rename-tree}
use rvault.Fuse.Handles.{rvaultfs_read, rvaultfs_write, rvaultfs_flush, rvaultfs_truncate}
use rvault.Fuse.Stored.{rvaultfs_read-rvaultfs_flush, rvaultfs_truncate_unreadable}
use rvault.Examples.Engine.{
  engine, engine-Laws, packer, packer-Laws, crypto, crypto-IsUsable, vault, syncs, env,
  reads-CanRead, hello,
}

abbrev Files : Type 0
Files = Bytes → Option Bytes

abbrev put_bytes : Bytes → Option Bytes → Files → Files
put_bytes v x fs w = if equal w v then x else fs w

abbrev call : Call → Bytes → Files → Files × Option (ℕ × Bytes)
call unlink v fs = elim (fs v) [ none ↦ (fs, none) | some b ↦ (put_bytes v none fs, some (0, [])) ]
call _ v fs = (fs, some (0, []))

abbrev rename : Bytes → Bytes → Files → Files × Bool
rename a b fs = elim (fs a) [
  | none ↦ (fs, false)
  | some n ↦ (put_bytes b (some n) (put_bytes a none fs), true)
]

abbrev open_file : Bytes → ℕ → ℕ → Files → Files × Option Bytes
open_file v flags mode fs = elim (fs v) [
  | some b ↦ (fs, some b)
  | none ↦ if bit_and flags 0x40 == 0 then (fs, none) else (put_bytes v (some []) fs, some [])
]

abbrev memory : Posix
memory = record {
  Fs = Files;
  call = call;
  rename = rename;
  utimensat = λ v times fs. (fs, true);
  open_file = open_file;
  fstat = λ v fs. none;
  readdir = λ v fs. none;
}

abbrev base : Bytes
base = codes "/v"

objects_apart :
    (ts ss : List Bytes)
    → Tokens ts
    → Tokens ss
    → ss ≢ ts
    → equal (object base ss) (object base ts) ≡ false
unfolding object
objects_apart ts ss ht hs ne = elim (Bool-cases (equal (object base ss) (object base ts))) [
  | inl same ↦
      let tail = append_cancel base _ _ (equal_sound (object base ss) (object base ts) same) in
      absurd (ne (relative_same ss ts hs ht (cc)))
  | inr other ↦ other
]

missing_stays :
    (ts : List Bytes) (fs : Files)
    → (call unlink (object base ts) fs).1 ≡ none
    → (call unlink (object base ts) fs).0 ≡ fs
missing_stays ts fs h = elim (Option-cases (fs (object base ts))) [
  | inl f ↦ ground arith
  | inr (b, f) ↦ absurd (ground arith)
]

unopened_stays :
    (ts : List Bytes) (fs : Files) (flags mode : ℕ)
    → (open_file (object base ts) flags mode fs).1 ≡ none
    → (open_file (object base ts) flags mode fs).0 ≡ fs
unopened_stays ts fs flags mode h = elim (Option-cases (fs (object base ts))) [
  | inl f ↦ elim (Bool-cases (bit_and flags 0x40 == 0)) [
    | inl plain ↦ ground arith
    | inr creates ↦ absurd (ground arith)
  ]
  | inr (b, f) ↦ absurd (ground arith)
]

unmoved_stays :
    (ts us : List Bytes) (fs : Files)
    → (rename (object base ts) (object base us) fs).1 ≡ false
    → (rename (object base ts) (object base us) fs).0 ≡ fs
unmoved_stays ts us fs h = elim (Option-cases (fs (object base ts))) [
  | inl f ↦ ground arith
  | inr (n, f) ↦ absurd (ground arith)
]

memory-PosixLaws : PosixLaws memory base
memory-PosixLaws = record {
  Node = Bytes;
  regular = λ b. b;
  IsFile = λ b. Unit;
  view = λ fs ts. fs (object base ts);
  unlink_removes = λ ts fs r t h. ground (arith, equal_refl (object base ts));
  unlink_keeps = λ ts ss fs t s ne. ground (arith, objects_apart ts ss t s ne);
  unlink_fails = λ ts ss fs t s f. ap (λ x. x (object base ss)) (missing_stays ts fs f);
  open_fails =
      λ ts ss fs flags mode t s f. ap (λ x. x (object base ss)) (unopened_stays ts fs flags mode f);
  rename_fails = λ ts us ss fs t u s f. ap (λ x. x (object base ss)) (unmoved_stays ts us fs f);
  open_shows = λ ts fs flags mode file t f h. ground (arith, equal_refl (object base ts));
  open_keeps = λ ts ss fs flags mode t s ne. ground (arith, objects_apart ts ss t s ne);
  rename_moves = λ ts us fs n t u ne v f h. (
    ground (arith, equal_refl (object base us)),
    ground (arith, equal_refl (object base ts), objects_apart us ts u t (λ e. ne (sym e))),
  );
  rename_keeps = λ ts us ss fs n t u s ne ne' v f.
      ground (arith, objects_apart ts ss t s ne, objects_apart us ss u s ne');
}

abbrev Mounted : Type 0
Mounted = Mount engine memory base

abbrev empty : Mounted
empty = record { vault = vault; fs = λ w. none }

abbrev path : Bytes
path = codes "/a"

abbrev other : Bytes
other = codes "/b/../b"

a-IsShort : IsShort crypto (codes "a")
a-IsShort = record {
  block_pos = omega arith;
  tag_small = omega arith;
  text_small = omega arith;
  plain = (omega arith, tt);
}

b-IsShort : IsShort crypto (codes "b")
b-IsShort = record {
  block_pos = omega arith;
  tag_small = omega arith;
  text_small = omega arith;
  plain = (omega arith, tt);
}

names-a : plain_names path ≡ codes "a" ∷ []
unfolding plain_names is_skipped is_parent
names-a = refl

names-b : plain_names other ≡ codes "b" ∷ []
unfolding plain_names is_skipped is_parent
names-b = refl

short-path : AllShort crypto (plain_names path)
short-path = subst (AllShort crypto) (sym names-a) (a-IsShort, tt)

short-other : AllShort crypto (plain_names other)
short-other = subst (AllShort crypto) (sym names-b) (b-IsShort, tt)

-- A new file: O_CREAT | O_RDWR.
abbrev created : Mounted × Result State
created = rvaultfs_open_raw engine memory base false empty path 0x42 0x180

abbrev first : Mounted
first = created.0

abbrev object_a : State
object_a = fileobj_open first.vault true []

is-created : created.1 ≡ ok object_a
unfolding rvaultfs_open_raw open_object rvault_resolve_path walk walk_component is_skipped is_parent
    last_slash get_path_component crypto_encrypt hex_write
is-created = refl

a-IsFile :
    (n : memory-PosixLaws.Node)
    → tree engine memory base memory-PosixLaws empty (plain_names path) ≡ some n
    → memory-PosixLaws.IsFile n
unfolding memory-PosixLaws
a-IsFile n e = tt

rvaultfs_open_raw-tree_example :
    tree engine memory base memory-PosixLaws first (codes "a" ∷ [])
    ≡ (elim created.1 as (λ _. Option memory-PosixLaws.Node) [
      | fail e ↦ tree engine memory base memory-PosixLaws empty (codes "a" ∷ [])
      | ok s ↦
          if same_names (codes "a" ∷ []) (plain_names path)
          then some (memory-PosixLaws.regular s.fobj.file)
          else tree engine memory base memory-PosixLaws empty (codes "a" ∷ [])
    ])
rvaultfs_open_raw-tree_example =
    rvaultfs_open_raw-tree engine engine-Laws memory base memory-PosixLaws false empty path 0x42
      0x180 (codes "a" ∷ []) refl short-path (a-IsShort, tt) a-IsFile

-- The file system with a file at the object of "/a".
abbrev mounted : Mounted
mounted = record { vault = vault; fs = put_bytes (codes "/v/RV:61:0105") (some hello) (λ w. none) }

stands-a :
    tree engine memory base memory-PosixLaws mounted (plain_names path)
    ≡ some (memory-PosixLaws.regular hello)
unfolding tree memory-PosixLaws print_names object plain_names is_skipped is_parent
    get_path_component crypto_encrypt hex_write equal
stands-a = refl

file-a : memory-PosixLaws.IsFile (memory-PosixLaws.regular hello)
unfolding memory-PosixLaws
file-a = tt

apart : same_names (plain_names other) (plain_names path) ≡ false
unfolding same_names plain_names is_skipped is_parent
apart = refl

unlinked : (rvaultfs_unlink engine memory base mounted path).1 ≡ ok (0, [])
unfolding rvaultfs_unlink rvault_resolve_path walk walk_component is_skipped is_parent last_slash
    get_path_component crypto_encrypt hex_write equal
unlinked = refl

rvaultfs_unlink-tree_example :
    tree engine memory base memory-PosixLaws
      (rvaultfs_unlink engine memory base mounted path).0
      (codes "a" ∷ [])
    ≡ (if succeeded (rvaultfs_unlink engine memory base mounted path).1
          && same_names (codes "a" ∷ []) (plain_names path)
        then none
        else tree engine memory base memory-PosixLaws mounted (codes "a" ∷ []))
rvaultfs_unlink-tree_example =
    rvaultfs_unlink-tree engine engine-Laws memory base memory-PosixLaws mounted path
      (codes "a" ∷ []) refl short-path (a-IsShort, tt)

renamed : (rvaultfs_rename engine memory base mounted path other).1 ≡ ok 0
unfolding rvaultfs_rename rvault_resolve_path walk walk_component is_skipped is_parent last_slash
    get_path_component crypto_encrypt hex_write equal
renamed = refl

rvaultfs_rename-tree_example :
    tree engine memory base memory-PosixLaws
      (rvaultfs_rename engine memory base mounted path other).0
      (codes "b" ∷ [])
    ≡ (if succeeded (rvaultfs_rename engine memory base mounted path other).1
        then (if same_names (codes "b" ∷ []) (plain_names other)
            then some (memory-PosixLaws.regular hello)
            else if same_names (codes "b" ∷ []) (plain_names path)
            then none
            else tree engine memory base memory-PosixLaws mounted (codes "b" ∷ []))
        else tree engine memory base memory-PosixLaws mounted (codes "b" ∷ []))
rvaultfs_rename-tree_example =
    rvaultfs_rename-tree engine engine-Laws memory base memory-PosixLaws mounted path other
      short-path short-other apart (memory-PosixLaws.regular hello) stands-a file-a (codes "b" ∷ [])
      refl (b-IsShort, tt)

resolved-a : (rvault_resolve_path engine crypto base path).1 ≡ some (codes "/v/RV:61:0105")
unfolding rvault_resolve_path walk walk_component is_skipped is_parent last_slash get_path_component
    crypto_encrypt hex_write
resolved-a = refl

resolved-detour :
    (rvault_resolve_path engine crypto base (codes "b/.././a/")).1 ≡ some (codes "/v/RV:61:0105")
unfolding rvault_resolve_path walk walk_component is_skipped is_parent last_slash get_path_component
    crypto_encrypt hex_write
resolved-detour = refl

short-detour : AllShort crypto (plain_names (codes "b/.././a/"))
unfolding plain_names is_skipped is_parent
short-detour = (a-IsShort, tt)

rvault_resolve_path_injective_example : plain_names path ≡ plain_names (codes "b/.././a/")
rvault_resolve_path_injective_example =
    rvault_resolve_path_injective engine engine-Laws crypto [] [] base path (codes "b/.././a/")
      (codes "/v/RV:61:0105") refl short-path short-detour resolved-a resolved-detour

abbrev fresh : State
fresh = fileobj_open vault false []

abbrev later : Env
later = record env { now = 1 }

wrote : (rvaultfs_write engine packer later fresh hello (pos 0)).1 ≡ ok 5
unfolding rvaultfs_write fileobj_pwrite
wrote = refl

wrote-short : (rvaultfs_write engine packer later fresh hello (pos 0)).0.fobj.len + 16 ≤ int_max
unfolding rvaultfs_write fileobj_pwrite
wrote-short = omega arith

flushed :
    (rvaultfs_flush engine packer syncs
      (rvaultfs_write engine packer later fresh hello (pos 0)).0).1
    ≡ ok 0
unfolding rvaultfs_write rvaultfs_flush fileobj_pwrite fileobj_sync storage_write_data
    crypto_encrypt fileobj_hdr
flushed = refl

rvaultfs_read-rvaultfs_flush_example :
    (rvaultfs_read engine packer env
      (fileobj_open
        (rvaultfs_flush engine packer syncs
          (rvaultfs_write engine packer later fresh hello (pos 0)).0).0.vault
        true
        (rvaultfs_flush engine packer syncs
          (rvaultfs_write engine packer later fresh hello (pos 0)).0).0.fobj.file)
      5
      (pos 0)).1
    ≡ ok hello
rvaultfs_read-rvaultfs_flush_example =
    rvaultfs_read-rvaultfs_flush engine engine-Laws packer packer-Laws later syncs env fresh hello 0
      true (fileobj_open-IsSound vault false [] (omega arith)) crypto-IsUsable reads-CanRead refl
      (omega arith) (omega arith) wrote wrote-short flushed

abbrev unmapped : Env
unmapped = record env { read = record (env.read) { map_ok = false } }

-- A descriptor that is open for writing only cannot be mapped.
abbrev calls : ℕ → Env
calls flags = if bit_and flags o_accmode == o_wronly then unmapped else env

write_only : (flags : ℕ) → bit_and flags o_accmode ≡ o_wronly → (calls flags).read.map_ok ≡ false
write_only flags h = ground arith

sized : (flags : ℕ) → (calls flags).size_ok ≡ true
sized flags = ground arith

abbrev opened : Mounted × Result State
opened = open_object engine memory base false mounted path o_wronly fobj_omask

abbrev object_opened : State
object_opened = fileobj_open opened.0.vault true hello

is-opened : opened.1 ≡ ok object_opened
unfolding open_object rvault_resolve_path walk walk_component is_skipped is_parent last_slash
    get_path_component crypto_encrypt hex_write equal
is-opened = refl

abbrev truncated : Mounted × Option State × Result ℕ
truncated =
    rvaultfs_truncate engine packer memory base false calls (λ n. syncs) mounted path (pos 2)

rvaultfs_truncate_unreadable_example :
    (t : State) × (truncated.1 ≡ some t) × (truncated.2 ≡ fail eio) × (t.fobj.file ≡ hello)
rvaultfs_truncate_unreadable_example =
    rvaultfs_truncate_unreadable engine packer memory base false calls (λ n. syncs) mounted path 2
      object_opened write_only sized is-opened (omega arith)
