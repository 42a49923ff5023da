-- ===== src/Lib.antt =====
-- Aurora VPN: the decisions and the data paths of the engine, the balancer and the Veil protocol.
--
-- The engine (engine/) takes packets from a TUN device, turns each TCP connection back into one that
-- the system's own stack accepts, routes it by rules and dials a server. Veil (veil/) carries
-- connections to a server of its own in encrypted records. The application (src-tauri/) runs the
-- engine and moves the traffic from a server that is dead to one that lives.
--
-- Which file models which part:
--   Tun.Nat        engine/src/inbound/tun/nat.rs: the table of TCP flows. `Nat` and `Flow` keep the
--                  names of the source; an `Arc<Flow>` is an index into the heap `flows`.
--   Tun.Packet     engine/src/inbound/tun/packet.rs: parse, tcp_flags, the sums and rewrite_tcp.
--                  A packet is the list of its bytes, an index out of bounds is `none`.
--   Tun.Udp        engine/src/inbound/tun/packet.rs and mod.rs: write_udp and send_udp.
--   Tun.Stack      engine/src/inbound/tun/mod.rs: read_loop and the handlers, over the two above.
--                  What the device is given to send is a list in the state.
--   Balancer       src-tauri/src/core/balancer.rs: the state `Brain` and what changes it;
--   Balancer.Judge the queues and the decision (judge); Balancer.Drive the schedule and `next`.
--                  Balancer.Runs has the runs of the automaton under its driver as a step relation.
--   Target         engine/src/common.rs: destinations, their SOCKS and VLESS formats, interleave.
--   Router         engine/src/router.rs: one rule; Router.Rules the lists of rules. The rules see a
--                  destination of Target.
--   Veil.Codec     veil/src/codec.rs: Sealer and Opener. Veil.Coalesce: veil/src/coalesce.rs.
--   Veil.Ru        veil/src/ru.rs: the networks and domains that the server reaches directly;
--                  Ranges has the sorted ranges that it searches.
--   Dns.Wire       engine/src/dns.rs: questions, answers and queries as bytes. Dns.FakeIp the pool of
--                  addresses that stand for names, Dns.Cache the cache of a server, Dns.Service
--                  handle_query over the three and the rules of Router.
--   Rulesets       engine/src/ruleset.rs: numbers, texts and address sets of a file, and the matching of
--                  rule sets; a rule of Router holds the function set_matches of its rules.
--   Ws             engine/src/transport/ws.rs: the frames, poll_read as a loop of rounds, poll_write.
--                  Ws.Stream says what the bytes on their way carry for a reader.
--   Vless          engine/src/outbound/vless.rs: the header of a request, the skipping of the header of a
--                  response (consume), and the padding of Vision (pad_into, Unpad). Vless.Response has
--                  poll_read of VlessResponse, Vless.Vision the filter and pad_write.
--   Xudp           engine/src/outbound/xudp.rs: the frames, send and recv over a destination of Target.
--   Sniff          engine/src/sniff.rs: tls, dns, the name in a hello and the CRYPTO frames of QUIC; the
--                  name of a question is that of Dns.Wire.
--   Group          engine/src/outbound/group.rs: the selector and the rounds of a urltest group.
--   Prelude, Net   lists, bytes, maps and addresses that the parts share.
--
-- Numbers and bounds: numbers are natural numbers; sums of u32 in packet.rs and the sum of a delay and
-- the tolerance in balancer.rs wrap as written in the source, u16 conversions are taken modulo 2 ^ 16.
-- Times of the balancer are milliseconds, and a difference of times stops at 0. Its counters do not
-- wrap. The loop of `fold` runs on fuel 3, enough for every u32 that the sums give: two rounds leave
-- less than 2 ^ 16. The loop of `opening_cut` runs on the length of the buffer, since each round takes
-- nine bytes at least. The loops over the labels of a name run on the length of the packet, since each
-- label takes a byte at least; the loop of poll_read in ws.rs ends with
-- fuel above a measure of its state. The loops of consume and feed run on the number of bytes, of which
-- each round takes one at least; recv runs on one more than the bytes of the stream, since a frame takes
-- some. The
-- search for a port runs over the whole range, as in the source.
--
-- Parameters: what is made of bytes that are not UTF-8, what the DNS transports bring back and when the
-- clock is asked, the masks of WebSocket frames and what the connection below them reads and takes,
-- the cipher of Veil, whether bytes are UTF-8, the look-up of a process in the system, and what the
-- stream below a `Coalesce` answers to each write, the random numbers that set the size of a padding,
-- and what the probe of a member of a group gives. A hash map is an association list without
-- repeated keys. A mask of a network is the number of its leading bits.
--
-- Not modelled: sockets, tasks and threads, the parsing of addresses from text and of JSON, the
-- domain sets of rule sets, the transports of DNS and the handshake of WebSocket, the other
-- outbound protocols, the switch of a Vision stream from TLS to the raw socket, the keys of
-- QUIC, the lines of HTTP in the sniffer, TLS, the user interfaces and the Android program.
pub mod Prelude
pub mod Net
pub mod Tun
pub mod Target
pub mod Router
pub mod Veil
pub mod Balancer
pub mod Ranges
pub mod Dns
pub mod Ws
pub mod Rulesets
pub mod Vless
pub mod Xudp
pub mod Group
pub mod Sniff
