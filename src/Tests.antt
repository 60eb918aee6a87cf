-- ===== src/Tests.antt =====
-- The theorems at concrete inputs.
mod Codec
mod Coercions
mod Fields
mod Growing
mod Headers
mod Identity
mod Memory
mod Message
mod Names
mod Store
mod Subtypes
mod Timers
