-- ===== src/Vault.antt =====
-- The vault, of src/core/rvault.c and rvault.h: its metadata file, its creation, its opening, and
-- the names in its directories.
pub mod Metadata
pub mod Layout
pub mod Created
pub mod Init
pub mod Open
pub mod Reopen
pub mod RoundTrip
pub mod Checks
pub mod Rekeyed
pub mod Recover
pub mod Dirs
pub mod Listing
