-- ===== src/Gateway/Json.antt =====
-- gateway/src/gw_json.c.
pub mod Escape
pub mod WellFormed
pub mod Text
pub mod RoundTrip
pub mod Strings
pub mod Value
pub mod Fuel
pub mod Printed
pub mod Spelled
pub mod Skipped
pub mod Body
pub mod Content
pub mod Loops
pub mod Lookup
pub mod Message
