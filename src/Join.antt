-- ===== src/Join.antt =====
-- join.rs: enrollment by codes.
pub mod Options
pub mod Code
pub mod Hints
pub mod Decoding
pub mod Host
pub mod Admission
pub mod Operations
pub mod Reply
