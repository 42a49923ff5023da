-- ===== src/Tun/Packet/Tests.antt =====
-- The rewriting of a SYN.
use aurora_vpn.Prelude.{
  ℕ, ◌≡◌, refl, true, some, List, arith, nat_eq, list_eq, pair_eq, All, IsByte,
}
use aurora_vpn.Net.{v4}
use aurora_vpn.Tun.Packet.{parse, parse_v4, parse_ports, rewrite_tcp}
use aurora_vpn.Tun.Packet.Checksum.{IsRewritten, rewrite_tcp-IsRewritten}
use aurora_vpn.Tun.Samples.{client, server, site, packet, parsed_as}

pub parse_packet : parse (packet client 50000 site 443) ≡ some (parsed_as client 50000 site 443)
unfolding parse parse_v4 parse_ports
parse_packet = refl

-- What the listener at port 8080 answers to the port 10000.
pub parse_answer :
    parse (packet client 8080 server 10000) ≡ some (parsed_as client 8080 server 10000)
unfolding parse parse_v4 parse_ports
parse_answer = refl

pub packet-IsByte : (src sport dst dport : ℕ) → All IsByte (packet src sport dst dport)
packet-IsByte src sport dst dport = ground arith

rewrite_tcp-IsRewritten_example :
    (p' : List ℕ) × (rewrite_tcp
        (packet client 50000 site 443)
        (parsed_as client 50000 site 443)
        (v4 server)
        10000
        (v4 client)
        8080
      ≡ some (true, p'))
    × IsRewritten (packet client 50000 site 443) (parsed_as client 50000 site 443) p'
rewrite_tcp-IsRewritten_example =
    rewrite_tcp-IsRewritten (packet client 50000 site 443) (parsed_as client 50000 site 443)
      (v4 server) 10000 (v4 client) 8080 (packet-IsByte client 50000 site 443) parse_packet refl
      refl refl (omega arith) (omega arith)
