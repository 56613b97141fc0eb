-- ===== src/HttpApi.antt =====
-- crates/http-api: the verifier of DCP tokens, authorization, and the handlers of the routes.
pub mod Verifier
pub mod Wire
pub mod Auth
pub mod Handlers
pub mod Federation
pub mod Router
mod Tests
