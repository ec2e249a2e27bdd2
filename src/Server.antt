-- ===== src/Server.antt =====
-- server/server.go: the stream of a recorder proxy, one message after the other. Sessions are shared
-- with other goroutines: they stand on a heap, a *Session is an address, and a *Request is an address
-- and an index.
mod Tests
pub mod World
pub mod Handlers
pub mod Post
pub mod Stream
pub mod Timeouts
pub mod Lifecycle
