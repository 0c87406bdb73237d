-- ===== src/Examples.antt =====
-- Runs of the code on concrete inputs, and the theorems applied to them.
mod Engine
mod Stored
mod Objects
mod Keys
mod Vaults
mod Commands
mod Secrets
mod Mounts
mod Listings
mod Ciphers
mod Texts
