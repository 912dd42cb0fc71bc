-- ===== src/Core.antt =====
-- proxy/core: connections, the connection pool, events, and the work handlers.
pub mod Connection
pub mod Server
pub mod Dispatcher
pub mod Pool
pub mod Selector
pub mod Threadless
pub mod Upstream
pub mod Tunnel
mod Tests
