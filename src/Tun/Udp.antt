-- ===== src/Tun/Udp.antt =====
-- engine/src/inbound/tun/packet.rs and mod.rs: the UDP packets that the stack builds. `out` is the
-- buffer before, and `none` is an index out of bounds.
pub mod Written
mod Tests
use aurora_vpn.Prelude.{
  ℕ, zero, suc, ◌+◌, ◌-◌, ◌*◌, ◌/◌, ◌%◌, ◌^◌, ◌≤◌, ◌<◌, min, max, ◌≡◌, refl, sym, ap, ◌∙◌, ◌≢◌, ◌↔◌,
  ◌⊎◌, inl, inr, Bool, true, false, ◌&&◌, ◌||◌, not, Option, none, some, List, [], ◌∷◌, ◌++◌, map,
  append_assoc, append-nil, arith, ltb, leb, ◌==◌, if◌then◌else◌, ltb→lt, lt→ltb, leb→le, ==_iff,
  tests, Bool-cases, Option-cases, length, get_elem?, get_or, take, drop, replicate, length-append,
  length-take, length-drop, take-append-drop, length-map, length-replicate, Eq, ◌=?◌, =?_iff,
  nat_eq, list_beq, list_beq_iff, list_eq, pair_eq, is_some, get, remove, insert, get-remove,
  get-insert, All, IsByte, All-append, to_be, from_be, length-to_be, to_be-IsByte, byte_at,
  byte_at-IsByte, u16_be, slice?, put, put?, length-put, ◌>>=◌, >>=-eq-some, if_intro, insert_by,
  sort_by, min_by, length-insert_by, length-sort_by,
}
use aurora_vpn.Net.{IpAddr, v4, v6, is_ipv4, octets, SocketAddr}
use aurora_vpn.Tun.Packet.{proto_udp, sum_words, fold, not16, add32}

unfoldable pub udp_packet_len : IpAddr → ℕ → ℕ
udp_packet_len src payload = (if is_ipv4 src then 20 else 40) + 8 + payload

-- The headers before the checksums, as the writes in order leave them: each is a place and its bytes.
abbrev pub put_all : List (ℕ × List ℕ) → List ℕ → Option (List ℕ)
put_all [] out = some out
put_all ((i, bytes) ∷ rest) out = put? out i bytes >>= put_all rest

abbrev pub udp_len : List ℕ → ℕ
udp_len payload = (8 + length payload) % 65536

-- The IP header, and where the UDP header begins.
unfoldable pub ip_header : IpAddr → IpAddr → List ℕ → List ℕ → Option (List ℕ × ℕ)
ip_header (v4 s) (v4 d) payload out =
    put_all
      ((0, 69 ∷ [])
        ∷ (1, 0 ∷ [])
        ∷ (2, to_be 2 (length out % 65536))
        ∷ (4, 0 ∷ 0 ∷ [])
        ∷ (6, 64 ∷ 0 ∷ [])
        ∷ (8, 64 ∷ [])
        ∷ (9, proto_udp ∷ [])
        ∷ (10, 0 ∷ 0 ∷ [])
        ∷ (12, to_be 4 s)
        ∷ (16, to_be 4 d)
        ∷ [])
      out
    >>= (λ p. put? p 10 (to_be 2 (not16 (fold (sum_words (take 20 p) 0)))) >>= (λ q. some (q, 20)))
ip_header (v6 s) (v6 d) payload out =
    put_all
      ((0, 96 ∷ [])
        ∷ (1, 0 ∷ 0 ∷ 0 ∷ [])
        ∷ (4, to_be 2 (udp_len payload))
        ∷ (6, proto_udp ∷ [])
        ∷ (7, 64 ∷ [])
        ∷ (8, to_be 16 s)
        ∷ (24, to_be 16 d)
        ∷ [])
      out
    >>= (λ p. some (p, 40))
ip_header _ _ payload out = none

-- A checksum of zero is written as ones.
abbrev pub nonzero : ℕ → ℕ
nonzero c = if c == 0 then 65535 else c

unfoldable pub udp_segment : IpAddr → ℕ → IpAddr → ℕ → List ℕ → ℕ → List ℕ → Option (List ℕ)
udp_segment src sport dst dport payload l4 out =
    put_all
      ((l4, to_be 2 sport)
        ∷ (l4 + 2, to_be 2 dport)
        ∷ (l4 + 4, to_be 2 (udp_len payload))
        ∷ (l4 + 6, 0 ∷ 0 ∷ [])
        ∷ (l4 + 8, payload)
        ∷ [])
      out
    >>= (λ p. slice? p l4 (8 + length payload) >>= (λ seg. put? p (l4 + 6) (
        to_be 2 (
          nonzero (
            not16 (
              fold (
                sum_words seg (
                  sum_words (octets dst)
                    (sum_words (octets src) (proto_udp + udp_len payload))))))))))

unfoldable pub same_family : IpAddr → IpAddr → Bool
same_family (v4 s) (v4 d) = true
same_family (v6 s) (v6 d) = true
same_family _ _ = false

-- Addresses of two families leave the buffer as it was.
unfoldable pub write_udp : List ℕ → IpAddr → ℕ → IpAddr → ℕ → List ℕ → Option (List ℕ)
unfolding ip_header udp_segment same_family
write_udp out src sport dst dport payload =
    if same_family src dst
    then (ip_header src dst payload out >>= (λ h. udp_segment src sport dst dport payload h.1 h.0))
    else some out

-- The device is what it is given to send; its buffer starts as zeros.
unfoldable pub send_udp : List (List ℕ) → SocketAddr → SocketAddr → List ℕ → Option (List (List ℕ))
unfolding write_udp udp_packet_len same_family
send_udp device src dst payload =
    let len = udp_packet_len src.ip (length payload) in
    if not (same_family src.ip dst.ip) || ltb 65535 len
    then some device
    else (write_udp (replicate len 0) src.ip src.port dst.ip dst.port payload
        >>= (λ p. some (device ++ (p ∷ []))))
