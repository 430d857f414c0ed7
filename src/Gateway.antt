-- ===== src/Gateway.antt =====
-- The gateway daemon (gateway/src): the evidence ledger, and the commit of an observation to it.
pub mod Ledger
pub mod Commit
pub mod Settings
pub mod Json
pub mod Wal
pub mod Protocol
pub mod Request
pub mod Serve
pub mod Client
