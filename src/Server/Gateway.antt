-- ===== src/Server/Gateway.antt =====
-- crates/server/src/mcp/mod.rs, the authentication layer in front of every HTTP route, with what it
-- reads of config.rs: where the credential stands in a request (Gateway/Credential.antt), which
-- requests need none and which role a path asks for (Gateway/Access.antt), and the layer itself
-- (Gateway/Layer.antt).
pub mod Access
pub mod Credential
pub mod State
pub mod Layer
pub mod Entitled
pub mod Admitted
pub mod Refused
pub mod Limits
pub mod Tests
