-- ===== src/Message.antt =====
-- message.rs: topics, delivery modes, message identities and the signed envelope.
pub mod Topic
pub mod Envelope
