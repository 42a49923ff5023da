-- ===== src/Dns.antt =====
-- engine/src/dns.rs: DNS. A message is its bytes.
pub mod Wire
pub mod FakeIp
pub mod Cache
pub mod Service
mod Tests
