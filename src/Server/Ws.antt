-- ===== src/Server/Ws.antt =====
-- crates/server/src/ws/handler.rs: the connection of an agent. Ws/Forward.antt has the task that sends,
-- Ws/Handler.antt the messages that come in and the end of a connection, Ws/Registration.antt its start.
pub mod Forward
pub mod Handler
pub mod Cleanup
pub mod Registration
pub mod Tests
