-- ===== src/Tun/Udp/Written.antt =====
-- engine/src/inbound/tun/packet.rs: write_udp stays inside a buffer of the packet's length.
use aurora_vpn.Prelude.{
  ℕ, ◌+◌, ◌%◌, ◌≤◌, ◌≡◌, refl, ap, ◌∙◌, true, some, List, [], ◌∷◌, arith, leb, length, take, drop,
  nat_eq, list_eq, pair_eq, to_be, put, put?, length-put, ◌>>=◌,
}
use aurora_vpn.Net.{IpAddr, v4, v6, octets}
use aurora_vpn.Tun.Packet.{proto_udp, sum_words, fold, not16}
use aurora_vpn.Tun.Udp.{
  udp_packet_len, put_all, udp_len, ip_header, nonzero, udp_segment, same_family, write_udp,
}

-- All writes fit a buffer of `n` bytes.
abbrev Fits : ℕ → List (ℕ × List ℕ) → Type 0
Fits n [] = Unit
Fits n ((i, bytes) ∷ rest) = (i + length bytes ≤ n) × Fits n rest

put?-fits :
    (out : List ℕ) (i : ℕ) (bytes : List ℕ)
    → i + length bytes ≤ length out
    → put? out i bytes ≡ some (put out i bytes)
put?-fits out i bytes h =
    let e : leb (i + length bytes) (length out) ≡ true = ground arith in rw e refl

put_all-Fits :
    (ws : List (ℕ × List ℕ)) (out : List ℕ) (n : ℕ)
    → length out ≡ n
    → Fits n ws
    → (p : List ℕ) × (put_all ws out ≡ some p) × (length p ≡ n)
put_all-Fits [] out n h f = (out, refl, h)
put_all-Fits ((i, bytes) ∷ ws) out n h f =
    let fit : i + length bytes ≤ length out = omega (arith, f.0) in
    let (p, e, l) = put_all-Fits ws (put out i bytes) n (length-put out i bytes ∙ h) f.1 in
    (p, ap (λ o. o >>= put_all ws) (put?-fits out i bytes fit) ∙ e, l)

segment-fits :
    (src : IpAddr) (sport : ℕ) (dst : IpAddr) (dport : ℕ) (payload : List ℕ) (l4 : ℕ) (out : List ℕ)
    → length out ≡ l4 + 8 + length payload
    → (p : List ℕ) × (udp_segment src sport dst dport payload l4 out ≡ some p)
      × (length p ≡ length out)
unfolding udp_segment
segment-fits src sport dst dport payload l4 out h =
    let (p, e, l) =
      put_all-Fits
        ((l4, to_be 2 sport)
          ∷ (l4 + 2, to_be 2 dport)
          ∷ (l4 + 4, to_be 2 (udp_len payload))
          ∷ (l4 + 6, 0 ∷ 0 ∷ [])
          ∷ (l4 + 8, payload)
          ∷ [])
        out (length out) refl
        (omega arith, (omega arith, (omega arith, (omega arith, (omega arith, tt))))) in
    let inside : leb (l4 + (8 + length payload)) (length p) ≡ true = ground arith in
    let seg = take (8 + length payload) (drop l4 p) in
    let check = to_be 2 (
      nonzero (
        not16 (
          fold (
            sum_words seg
              (sum_words (octets dst) (sum_words (octets src) (proto_udp + udp_len payload))))))) in
    let last : put? p (l4 + 6) check ≡ some (put p (l4 + 6) check) =
      put?-fits p (l4 + 6) check (omega arith) in
    (put p (l4 + 6) check, rw (udp_segment, e, inside) last, length-put p (l4 + 6) check ∙ l)

header-fits :
    (src dst : IpAddr) (payload out : List ℕ)
    → same_family src dst ≡ true
    → length out ≡ udp_packet_len src (length payload)
    → (p : List ℕ) × (l4 : ℕ) × (ip_header src dst payload out ≡ some (p, l4))
      × (length p ≡ l4 + 8 + length payload)
      × (length p ≡ length out)
unfolding ip_header same_family udp_packet_len
header-fits (v4 s) (v4 d) payload out f h =
    let ws : List (ℕ × List ℕ) =
      (0, 69 ∷ [])
      ∷ (1, 0 ∷ [])
      ∷ (2, to_be 2 (length out % 65536))
      ∷ (4, 0 ∷ 0 ∷ [])
      ∷ (6, 64 ∷ 0 ∷ [])
      ∷ (8, 64 ∷ [])
      ∷ (9, proto_udp ∷ [])
      ∷ (10, 0 ∷ 0 ∷ [])
      ∷ (12, to_be 4 s)
      ∷ (16, to_be 4 d)
      ∷ [] in
    let (p, e, l) = put_all-Fits ws out (length out) refl (
      omega arith,
      (
        omega arith,
        (
          omega arith,
          (
            omega arith,
            (
              omega arith,
              (omega arith, (omega arith, (omega arith, (omega arith, (omega arith, tt))))),
            ),
          ),
        ),
      ),
    ) in
    let check = to_be 2 (not16 (fold (sum_words (take 20 p) 0))) in
    let last = put?-fits p 10 check (omega arith) in
    let lp = length-put p 10 check in
    (
      put p 10 check,
      20,
      ap
            (λ o. o >>= (λ p.
              put? p 10 (to_be 2 (not16 (fold (sum_words (take 20 p) 0)))) >>= (λ q. some (q, 20))))
            e
          ∙ ap (λ o. o >>= (λ q. some (q, 20))) last,
      omega arith,
      omega arith,
    )
header-fits (v6 s) (v6 d) payload out f h =
    let (p, e, l) =
      put_all-Fits
        ((0, 96 ∷ [])
          ∷ (1, 0 ∷ 0 ∷ 0 ∷ [])
          ∷ (4, to_be 2 (udp_len payload))
          ∷ (6, proto_udp ∷ [])
          ∷ (7, 64 ∷ [])
          ∷ (8, to_be 16 s)
          ∷ (24, to_be 16 d)
          ∷ [])
        out (length out) refl
        (
          omega arith,
          (
            omega arith,
            (omega arith, (omega arith, (omega arith, (omega arith, (omega arith, tt))))),
          ),
        ) in
    (p, 40, ap (λ o. o >>= (λ p. some (p, 40))) e, omega arith, l)
header-fits (v4 s) (v6 d) payload out f h = cc
header-fits (v6 s) (v4 d) payload out f h = cc

-- In a buffer of the length that udp_packet_len gives, write_udp writes the packet for two addresses
-- of one family without leaving the buffer, whose length it keeps.
pub write_udp-fits :
    (out : List ℕ) (src : IpAddr) (sport : ℕ) (dst : IpAddr) (dport : ℕ) (payload : List ℕ)
    → same_family src dst ≡ true
    → length out ≡ udp_packet_len src (length payload)
    → (p : List ℕ) × (write_udp out src sport dst dport payload ≡ some p) × (length p ≡ length out)
unfolding write_udp
write_udp-fits out src sport dst dport payload f h =
    let (p, l4, e, l, same) = header-fits src dst payload out f h in
    let (q, e2, l2) = segment-fits src sport dst dport payload l4 p l in
    (q, rw (write_udp, f, e) e2, l2 ∙ same)
