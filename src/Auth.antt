-- ===== src/Auth.antt =====
-- auth.rs: the signed container, certificates, the authority that issues them and the trust that
-- checks them.
pub mod Cose
pub mod Claims
pub mod Trust
pub mod Authority
