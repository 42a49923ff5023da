-- ===== src/Tun/Samples.antt =====
-- Inputs that the tests of the stack share: a connection from 172.19.0.1:50000 to 1.2.3.4:443.
use aurora_vpn.Prelude.{ℕ, List, [], ◌∷◌, ◌++◌, nat_eq, list_eq, pair_eq, to_be, from_be}
use aurora_vpn.Net.{v4}
use aurora_vpn.Tun.Nat.{FlowKey}
use aurora_vpn.Tun.Packet.{Parsed}

abbrev pub client : ℕ
client = from_be (172 ∷ 19 ∷ 0 ∷ 1 ∷ [])

abbrev pub server : ℕ
server = from_be (172 ∷ 19 ∷ 0 ∷ 2 ∷ [])

abbrev pub site : ℕ
site = from_be (1 ∷ 2 ∷ 3 ∷ 4 ∷ [])

abbrev pub key : FlowKey
key = (v4 client, 50000, v4 site, 443)

-- A SYN of 40 bytes without checksums.
abbrev pub packet : ℕ → ℕ → ℕ → ℕ → List ℕ
packet src sport dst dport =
    69 ∷ 0 ∷ 0 ∷ 40 ∷ 0 ∷ 0 ∷ 0 ∷ 0 ∷ 64 ∷ 6 ∷ 0 ∷ 0 ∷ []
    ++ (to_be 4 src
        ++ (to_be 4 dst
            ++ (to_be 2 sport
                ++ (to_be 2 dport
                    ++ (0 ∷ 0 ∷ 0 ∷ 0 ∷ 0 ∷ 0 ∷ 0 ∷ 0 ∷ 80 ∷ 2 ∷ 0 ∷ 0 ∷ 0 ∷ 0 ∷ 0 ∷ 0 ∷ [])))))

abbrev pub parsed_as : ℕ → ℕ → ℕ → ℕ → Parsed
parsed_as src sport dst dport = record {
  proto = 6;
  src = v4 src;
  dst = v4 dst;
  sport = sport;
  dport = dport;
  l4 = 20;
  total = 40;
}
