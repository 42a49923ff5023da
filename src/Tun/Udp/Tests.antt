-- ===== src/Tun/Udp/Tests.antt =====
-- A datagram of two bytes.
use aurora_vpn.Prelude.{
  ℕ, ◌≡◌, refl, some, List, [], ◌∷◌, length, replicate, nat_eq, list_eq, pair_eq,
}
use aurora_vpn.Net.{v4}
use aurora_vpn.Tun.Udp.{udp_packet_len, same_family, write_udp}
use aurora_vpn.Tun.Udp.Written.{write_udp-fits}

abbrev buffer : List ℕ
buffer = replicate 30 0

write_udp-fits_example :
    (p : List ℕ) × (write_udp buffer (v4 7) 53 (v4 9) 5000 (1 ∷ 2 ∷ []) ≡ some p)
    × (length p ≡ length buffer)
unfolding udp_packet_len same_family
write_udp-fits_example = write_udp-fits buffer (v4 7) 53 (v4 9) 5000 (1 ∷ 2 ∷ []) refl refl
