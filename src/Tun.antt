-- ===== src/Tun.antt =====
-- engine/src/inbound/tun: the virtual adapter. Every TCP packet is rewritten and sent back to the
-- kernel; `Nat` is its table of flows and `Packet` the parsing and rewriting of packets.
pub mod Nat
pub mod Packet
pub mod Stack
pub mod Udp
mod Samples
