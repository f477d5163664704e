-- ===== src/Secret.antt =====
-- The set of keys with its checksums, and the text form of sealed data:
-- configure/secretapi/keygen.go and configure/secret/unseal.local.go.
pub mod Crc
pub mod KeySets
pub mod Sealed
pub mod RoundTrip
pub mod Provider
pub mod Loading
pub mod Latest
mod Tests
