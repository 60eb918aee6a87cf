-- ===== src/Idl.antt =====
-- The Candid runtime's types, values and wire format.
pub mod Hash
pub mod Arena
pub mod Serializer
pub mod Deserializer
pub mod Types
pub mod Value
pub mod RoundTrip
pub mod TypeEnv
pub mod Coerce
pub mod Decoder
pub mod Header
pub mod Skip
pub mod Subtype
