-- ===== src/Sse.antt =====
-- ui/src/hooks/useSSE.js: the stream of server events. The connection's state machine, and what
-- the messages do to the client's cached queries.
pub mod Connection
pub mod Messages
