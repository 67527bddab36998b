-- ===== src/Wire.antt =====
-- crates/nemo-wire: the version-1 encodings shared by client and server.
pub mod Error
pub mod Ids
pub mod Hex
pub mod Cbor
pub mod Fields
pub mod Sign
pub mod Envelope
pub mod Hpke
pub mod Bundle
pub mod S2s
pub mod Join
pub mod Bodies
pub mod Card
pub mod Revocation
pub mod Prekey
pub mod Discovery
pub mod OwnerAuth
pub mod Messages
