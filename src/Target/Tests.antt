-- ===== src/Target/Tests.antt =====
-- Destinations at concrete inputs: the name "ok" on port 443, and three addresses to dial.
use aurora_vpn.Prelude.{
  ℕ, ◌≡◌, refl, Bool, true, ◌&&◌, some, List, [], ◌∷◌, ◌++◌, arith, ltb, length, nat_eq, list_eq,
  pair_eq,
}
use aurora_vpn.Net.{IpAddr, v4, v6, SocketAddr}
use aurora_vpn.Target.{Target, domain_host, write_socks, read_socks, interleave, is_ipv6}
use aurora_vpn.Target.Wire.{read_socks-write_socks}
use aurora_vpn.Target.Order.{count, count-interleave}

abbrev is_ascii : List ℕ → Bool
is_ascii [] = true
is_ascii (b ∷ bs) = ltb b 128 && is_ascii bs

abbrev site : Target
site = record { host = domain_host (111 ∷ 107 ∷ []); port = 443 }

read_socks-write_socks_example :
    read_socks is_ascii (write_socks site ++ (1 ∷ [])) ≡ some (site, length (write_socks site))
read_socks-write_socks_example =
    read_socks-write_socks is_ascii site (1 ∷ []) ((omega arith, refl, refl), omega arith)

abbrev addr : IpAddr → SocketAddr
addr a = record { ip = a; port = 443 }

abbrev addrs : List SocketAddr
addrs = addr (v4 1) ∷ addr (v4 2) ∷ addr (v6 3) ∷ []

count-interleave_example : count is_ipv6 (interleave addrs) ≡ count is_ipv6 addrs
count-interleave_example = count-interleave is_ipv6 addrs
