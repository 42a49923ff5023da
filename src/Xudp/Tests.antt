-- ===== src/Xudp/Tests.antt =====
-- Frames at concrete inputs: two datagrams to port 53 of 1.2.3.4.
use aurora_vpn.Prelude.{
  ℕ, ◌+◌, ◌≡◌, refl, Bool, true, false, some, List, [], ◌∷◌, ◌++◌, arith, length, nat_eq, list_eq,
  pair_eq,
}
use aurora_vpn.Net.{v4}
use aurora_vpn.Target.{Target, ip_host, read_vless, write_vless, vless_address, vless_host}
use aurora_vpn.Xudp.{
  encode, invalid, ended, parse_meta, recv, recv_loop, read_frame, read_data, read_exact,
}
use aurora_vpn.Xudp.Frames.{sent, recvs, recvs-sent}

abbrev any : List ℕ → Bool
any bytes = true

abbrev server : Target
server = record { host = ip_host (v4 16909060); port = 53 }

abbrev packets : List (List ℕ × Target)
packets = (97 ∷ 98 ∷ 99 ∷ [], server) ∷ (100 ∷ [], server) ∷ []

-- The metadata of the program's own test.
inbound :
    parse_meta any (0 ∷ 0 ∷ 2 ∷ 1 ∷ 2 ∷ 0 ∷ 53 ∷ 1 ∷ 8 ∷ 8 ∷ 8 ∷ 8 ∷ [])
    ≡ some (record {
      status = 2;
      has_data = true;
      from = some (record { host = ip_host (v4 134744072); port = 53 });
    })
unfolding parse_meta read_vless vless_address
inbound = refl

global_id : length (encode true (97 ∷ []) server) ≡ length (encode false (97 ∷ []) server) + 8
unfolding encode write_vless vless_host
global_id = refl

-- A frame that ends the session, with data in it.
session_end : recv any 10 (0 ∷ 4 ∷ 0 ∷ 0 ∷ 3 ∷ 1 ∷ 0 ∷ 1 ∷ 7 ∷ []) ≡ ended
unfolding recv recv_loop read_frame parse_meta read_data read_exact
session_end = refl

-- Metadata of three bytes, and a datagram of two bytes for a buffer of one.
too_short : recv any 10 (0 ∷ 3 ∷ 0 ∷ 0 ∷ 1 ∷ []) ≡ invalid
unfolding recv recv_loop read_frame parse_meta read_data read_exact
too_short = refl

too_long : recv any 1 (0 ∷ 4 ∷ 0 ∷ 0 ∷ 2 ∷ 1 ∷ 0 ∷ 2 ∷ 7 ∷ 8 ∷ []) ≡ invalid
unfolding recv recv_loop read_frame parse_meta read_data read_exact
too_long = refl

recvs-sent_example : recvs any 2 10 (sent any false packets ++ (0 ∷ [])) ≡ (packets, 0 ∷ [])
recvs-sent_example = recvs-sent any 10 false packets (0 ∷ []) (
  ((omega arith, omega arith), omega arith, omega arith),
  (((omega arith, omega arith), omega arith, omega arith), tt),
)
