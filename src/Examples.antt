-- ===== src/Examples.antt =====
-- The theorems at concrete inputs, and tests of the definitions, one module for each part.
mod Paths
mod Handles
mod Sessions
mod Vaults
mod Storages
mod Guards
mod Mounts
mod Links
mod Releases
