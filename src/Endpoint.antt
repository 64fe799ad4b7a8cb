-- ===== src/Endpoint.antt =====
-- endpoint.rs: what the endpoint module declares around the owner, and the owner.
pub mod Config
pub mod Outcome
pub mod Owner
