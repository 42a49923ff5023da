-- ===== src/Tun/Stack/Tests.antt =====
-- The stack with one flow in its table: the listener's answer, and a run.
use aurora_vpn.Prelude.{
  ◌≡◌, refl, sym, ap, none, some, [], ◌∷◌, arith, nat_eq, list_eq, pair_eq, ◌>>=◌,
}
use aurora_vpn.Net.{v4}
use aurora_vpn.Tun.Samples.{client, server, key, packet, parsed_as}
use aurora_vpn.Tun.Nat.Invariant.{IsValid}
use aurora_vpn.Tun.Nat.Tests.{one_flow, one_flow-IsValid, one_flow_found, one_flow_port}
use aurora_vpn.Tun.Packet.Tests.{parse_answer, packet-IsByte}
use aurora_vpn.Tun.Stack.{Endpoints, Shared, endpoints, handle, read_loop}
use aurora_vpn.Tun.Stack.Replies.{IsReturned, handle-IsReturned, read_loop-IsValid}

abbrev ends_v4 : Endpoints
ends_v4 = record { tun = v4 client; server = v4 server }

abbrev shared : Shared
shared = record {
  device = [];
  nat = one_flow;
  ep_v4 = some ends_v4;
  ep_v6 = none;
  listen_v4 = 8080;
  listen_v6 = 0;
  clock = 9;
  udp = [];
}

endpoints_v4 : endpoints shared (parsed_as client 8080 server 10000) ≡ some (ends_v4, 8080)
unfolding endpoints
endpoints_v4 = refl

handle-IsReturned_example :
    (s' : Shared) × (handle shared (packet client 8080 server 10000) ≡ some s')
    × IsReturned shared s'
        (packet client 8080 server 10000)
        (parsed_as client 8080 server 10000)
        key
handle-IsReturned_example =
    handle-IsReturned shared (packet client 8080 server 10000) (parsed_as client 8080 server 10000)
      ends_v4 8080 key 0 one_flow-IsValid (packet-IsByte client 8080 server 10000) (omega arith)
      parse_answer refl endpoints_v4 (refl, refl, refl) one_flow_found (sym one_flow_port)
      (refl, refl) (omega arith, omega arith) (omega arith, omega arith)

-- The run over that answer alone.
answered_run : (s' : Shared) × (read_loop shared (packet client 8080 server 10000 ∷ []) ≡ some s')
unfolding read_loop
answered_run =
    let h =
      handle-IsReturned shared (packet client 8080 server 10000)
        (parsed_as client 8080 server 10000) ends_v4 8080 key 0 one_flow-IsValid
        (packet-IsByte client 8080 server 10000) (omega arith) parse_answer refl endpoints_v4
        (refl, refl, refl) one_flow_found (sym one_flow_port) (refl, refl)
        (omega arith, omega arith) (omega arith, omega arith) in
    (h.0, ap (λ o. o >>= (λ x. some x)) h.1)

read_loop-IsValid_example : IsValid answered_run.0.nat
read_loop-IsValid_example =
    read_loop-IsValid (packet client 8080 server 10000 ∷ []) shared answered_run.0 one_flow-IsValid
      answered_run.1
