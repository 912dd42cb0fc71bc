-- ===== src/Tls.antt =====
-- proxy/core/tls: records, handshakes and hellos.
pub mod Hello
pub mod Handshake
pub mod Record
pub mod Pretty
mod Tests
