-- ===== src/Http/Proxy.antt =====
-- `HttpProxyPlugin` of proxy/http/proxy/server.py, with events switched off: its state and the loops
-- over its plugins are in State, `connect_upstream` in Connect, `on_request_complete` and the
-- interception of TLS in Request, `on_client_data` in Data, and what the event loop calls in Io.
pub mod State
pub mod Connect
pub mod Request
pub mod Data
pub mod Io
pub mod Guarded
pub mod Tunnel
pub mod Stripped
pub mod Closing
pub mod Plugged
mod Examples
mod Tests
