-- ===== src/Tests.antt =====
-- Concrete inputs: instances of the parameters, runs of the definitions, and uses of the theorems.
pub mod Buffer
pub mod Cbor
pub mod Crypto
pub mod Fixtures
pub mod Wire
pub mod Message
pub mod Auth
pub mod Join
pub mod Queue
pub mod Endpoint
pub mod Owner
