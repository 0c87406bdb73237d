-- ===== src/Vault/Dirs.antt =====
-- rvault_iter_dir of src/core/rvault.c: the names in a directory of the vault.
use rvault.Prelude.{
  Bool, true, false, not, ◌||◌, Option, none, some, List, [], ◌∷◌, if◌then◌else◌, take,
}
use rvault.Prelude.Bytes.{Bytes, codes, equal}
use rvault.Crypto.{Crypto, Ops}
use rvault.Resolve.{rvault_fobj_pref, rvault_resolve_vname}

-- "." and "..".
unfoldable pub is_dot : Bytes → Bool
is_dot vname = equal vname (codes ".") || equal vname (codes "..")

-- What becomes of an entry.
pub data Visit : Type 0 where
  shown : Bytes → Visit
  skipped failed : Visit

module _ (o : Ops) where
  -- One entry; `malloc_ok` is the buffer of its name.
  unfoldable pub visit : Bool → Crypto → Bytes → Crypto × Visit
  visit malloc_ok c vname =
      if is_dot vname
      then (c, shown vname)
      else if not (equal (take 3 vname) rvault_fobj_pref)
      then (c, skipped)
      else let (d, name) = rvault_resolve_vname o malloc_ok c vname in
        (d, elim name [ none ↦ failed | some n ↦ shown n ])

  -- The loop over the entries that readdir gives: the crypto object, the names that are passed to
  -- the caller's function, in order, and whether it got to the end.
  unfoldable pub iter_entries : Bool → Crypto → List Bytes → Crypto × List Bytes × Bool
  unfolding visit
  iter_entries malloc_ok c [] = (c, [], true)
  iter_entries malloc_ok c (vname ∷ entries) =
      let (d, v) = visit malloc_ok c vname in
      let rest = iter_entries malloc_ok d entries in
      elim v [ shown n ↦ (rest.0, n ∷ rest.1, rest.2) | skipped ↦ rest | failed ↦ (d, [], false) ]

  -- rvault_iter_dir, of the entries of the directory; `none` is a path that does not resolve or a
  -- directory that cannot be opened.
  unfoldable pub rvault_iter_dir : Bool → Crypto → Option (List Bytes) → Crypto × List Bytes × Bool
  unfolding iter_entries
  rvault_iter_dir malloc_ok c none = (c, [], false)
  rvault_iter_dir malloc_ok c (some entries) = iter_entries malloc_ok c entries
