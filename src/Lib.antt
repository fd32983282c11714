-- ===== src/Lib.antt =====
-- AT-PC: a gateway server that AI clients and a web console reach over HTTP, and agents on the
-- controlled machines that hold a WebSocket to it (crates/server, crates/agent, crates/protocol).
-- This library models the parts of the program that decide: who may connect, what is limited, which
-- terminals exist and what is kept of them. Sockets, files, the operating system and the user interface
-- are left out; what they decide enters as an argument.
--
-- How the model corresponds to the code:
--   Common, Map, Time, Protocol: texts as lists of code points, `HashMap` as an association list,
--     `Instant` and `Duration` as nanoseconds; crates/protocol/src/tools.rs (roles) and
--     models.rs (terminals).
--   Server/RateLimit: crates/server/src/rate_limit.rs (`AuthRateLimiter`, `KeyQuotaTracker`).
--   Server/KeyStore: crates/server/src/keystore.rs (`KeyStore`, credentials).
--   Server/MetaStore: crates/server/src/meta_store.rs, the metadata of the terminals (MetaStore.antt)
--     and `run_writer`, the thread that writes it to disk (MetaStore/Writer.antt).
--   Server/Registry: crates/server/src/ws/registry.rs, the sessions of the terminals; `register` and
--     `unregister` call the metadata store, `list_terminals` and `get_terminal`
--     (Registry/Views.antt) join the two.
--   Server/Tickets: crates/server/src/desktop_ticket.rs.
--   Server/Sessions: crates/server/src/session.rs.
--   Server/Enrollment: crates/server/src/enrollment_store.rs.
--   Protocol/Tools: crates/protocol/src/tools.rs, the registry of the agent's tools.
--   Server/Roles: crates/server/src/config.rs, `is_tool_allowed_for_role`.
--   Server/Router: crates/server/src/router.rs. Router.antt chooses the terminal of a call;
--     Router/Pending.antt holds the pending calls and Router/Invoke.antt the operations on them;
--     Router/Machine.antt runs all calls at once, one event after the other: an event is the code
--     between two awaits on an agent; Router/Dispatch is `dispatch_tool_call_with_role`, which asks
--     Server/Roles, calls the rest of the router, the registry and the metadata store, and writes
--     the audit record.
--   Server/Audit: crates/server/src/audit.rs. Audit.antt has the files and their rotation,
--     Audit/Retry.antt `retry_io`, Audit/Snapshot.antt the export, Audit/Write.antt `write_record`,
--     Audit/Writer.antt the writer's operations, and Audit/Queue.antt `AuditLogger`, its queue and
--     `run_writer`, which call all of them.
--   Server/Tail: crates/server/src/tail.rs.
--   Server/Gateway: crates/server/src/mcp/mod.rs, the authentication layer `auth_layer`, which calls the
--     limiter, the quota, the sessions and the key store; Gateway/Credential.antt has
--     `extract_credential` and `percent_decode`, Gateway/Access.antt `is_auth_exempt` and, of config.rs,
--     `handler_min_role` and `get_role_for_token`.
--   Server/Ws: crates/server/src/ws/handler.rs. Ws/Registration.antt is a connection up to
--     `wait_for_registration`, which calls the limiter and the registry, Ws/Handler.antt
--     `handle_agent_message`, the loop and the cleanup, which call the registry and the router, and
--     Ws/Forward.antt the forwarding task.
--   Protocol/Messages, Protocol/Frame: crates/protocol/src/messages.rs.
--   Agent/Stream: crates/agent/src/stream.rs and, of crates/desktop-core/src/lib.rs, the frame decision.
--     Stream.antt has the functions, Stream/Loop.antt the loop that `start_binary` spawns.
--
-- Every operation that locks shared state is one step, where the code holds the lock throughout;
-- its state is a record, and it returns the next state beside its result. Random bytes, clocks and
-- the outcome of a disk write are arguments. SHA-256, base64url and chrono are arguments too, for
-- the key store the fields of the record `Crates`. `register`, `unregister` and the views of the
-- registry take the locks of two components in turn; here each runs as a whole, and so does a tool
-- call of the router up to its await. Numbers are unbounded, and casts to a machine width are written
-- out where a value can reach it. Most loops run over lists; the loop of `issue` that draws ids runs
-- over the list of draws, and says so when that runs out; the metadata writer's shutdown makes its
-- four attempts. The loop of `write_record` has as fuel the length of the record, as every round
-- that goes on has written a byte; that of tail.rs has as fuel the largest window, as every round
-- widens it.
--
-- Not modelled: HTTP and WebSocket plumbing, JSON, TLS, reads of recent audit records,
-- configuration files, the handlers behind the gateway, the enrollment session, the caches of desktop
-- frames, work on pixels, the agent but for its stream of pictures, and the frontend in JavaScript.
pub mod Common
pub mod Map
pub mod Time
pub mod Protocol
pub mod Agent
pub mod Server
