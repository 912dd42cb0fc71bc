-- ===== src/Http.antt =====
-- proxy/http: the wire formats and the request state machine.
pub mod Chunk
pub mod Websocket
pub mod Url
pub mod ProxyProtocol
pub mod Message
pub mod Responses
pub mod Handler
pub mod Proxy
pub mod Web
pub mod Packet
pub mod Auth
pub mod Parser
mod Tests
