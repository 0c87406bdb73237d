-- ===== src/Storage.antt =====
-- The storage of one file, of src/core/storage.c and storage.h.
pub mod Header
pub mod Object
pub mod Layout
pub mod RoundTrip
pub mod WriteRead
pub mod Integrity
pub mod Loaded
pub mod Keys
