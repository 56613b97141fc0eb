-- ===== src/Dcp.antt =====
-- crates/dcp-core/src/lib.rs: JWS, `did:web` and the holder.
pub mod Jws
pub mod DidWeb
pub mod Documents
pub mod Resolve
pub mod Holder
mod Tests
