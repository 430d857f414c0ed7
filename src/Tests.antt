-- ===== src/Tests.antt =====
-- Runs of the code on sample values.
mod Data
mod Text
mod Canonical
mod Admission
mod Derivation
mod Ledger
mod Commit
mod Settings
mod Json
mod Client
mod Wal
mod Serve
