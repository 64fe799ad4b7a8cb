-- ===== src/Wire.antt =====
-- wire.rs: the frames of a session, and the CBOR bodies that they carry.
pub mod Frame
pub mod Hello
pub mod Control
pub mod Data
