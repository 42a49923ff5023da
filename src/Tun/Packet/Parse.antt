-- ===== src/Tun/Packet/Parse.antt =====
-- What a packet that `parse` accepts is known to satisfy.
use aurora_vpn.Prelude.{
  ℕ, ◌+◌, ◌*◌, ◌/◌, ◌%◌, ◌≤◌, ◌≡◌, ◌⊎◌, inl, inr, none, some, List, [], ◌∷◌, arith, length,
  get_elem?, byte_at, u16_be, from_be, take, drop, if◌then◌else◌, ◌==◌, >>=-eq-some, Bool-cases,
  All, IsByte, byte_at-IsByte,
}
use aurora_vpn.Net.{IpAddr, v4, v6}
use aurora_vpn.Tun.Packet.{
  Parsed, Header, parse, parse_v4, parse_v6, parse_ports, proto_tcp, proto_udp,
}

-- The IP header of `p`, as either family reads it.
abbrev pub IsHeader : List ℕ → IpAddr → IpAddr → ℕ → Type 0
IsHeader p (v4 s) (v4 d) l4 =
    (byte_at p 0 / 16 ≡ 4)
    × (s ≡ from_be (take 4 (drop 12 p)))
    × (d ≡ from_be (take 4 (drop 16 p)))
    × (l4 ≡ byte_at p 0 % 16 * 4)
    × (20 ≤ l4)
IsHeader p (v6 s) (v6 d) l4 =
    (byte_at p 0 / 16 ≡ 6)
    × (s ≡ from_be (take 16 (drop 8 p)))
    × (d ≡ from_be (take 16 (drop 24 p)))
    × (l4 ≡ 40)
    × (20 ≤ l4)
IsHeader p _ _ l4 = ⊥

-- What `parse` guarantees of its result.
pub record IsParsed (p : List ℕ) (r : Parsed) : Type 0 where
  pub header : IsHeader p r.src r.dst r.l4
  pub known : (r.proto ≡ proto_tcp) ⊎ (r.proto ≡ proto_udp)
  pub sport : r.sport ≡ u16_be (byte_at p r.l4) (byte_at p (r.l4 + 1))
  pub dport : r.dport ≡ u16_be (byte_at p (r.l4 + 2)) (byte_at p (r.l4 + 3))
  pub transport : r.l4 + (if r.proto == proto_tcp then 20 else 8) ≤ r.total
  pub within : r.total ≤ length p

pub byte_at_zero : (p : List ℕ) (b : ℕ) → get_elem? p 0 ≡ some b → byte_at p 0 ≡ b
byte_at_zero [] b h = cc
byte_at_zero (x ∷ p) b h = cc

parse_v4_lem :
    (p : List ℕ) (h : Header)
    → byte_at p 0 / 16 ≡ 4
    → parse_v4 p ≡ some h
    → IsHeader p h.src h.dst h.l4 × (h.total ≤ length p)
unfolding parse_v4
parse_v4_lem p h b e = ground arith

parse_v6_lem :
    (p : List ℕ) (h : Header)
    → byte_at p 0 / 16 ≡ 6
    → parse_v6 p ≡ some h
    → IsHeader p h.src h.dst h.l4 × (h.total ≤ length p)
unfolding parse_v6
parse_v6_lem p h b e = ground arith

-- The fields that `parse_ports` copies and those that it reads.
parse_ports_fields :
    (p : List ℕ) (h : Header) (r : Parsed)
    → parse_ports p h ≡ some r
    → (r.proto ≡ h.proto) × (r.src ≡ h.src) × (r.dst ≡ h.dst) × (r.l4 ≡ h.l4) × (r.total ≡ h.total)
unfolding parse_ports
parse_ports_fields p h r e = ground arith

parse_ports_checks :
    (p : List ℕ) (h : Header) (r : Parsed)
    → parse_ports p h ≡ some r
    → ((r.proto ≡ proto_tcp) ⊎ (r.proto ≡ proto_udp))
      × (r.sport ≡ u16_be (byte_at p r.l4) (byte_at p (r.l4 + 1)))
      × (r.dport ≡ u16_be (byte_at p (r.l4 + 2)) (byte_at p (r.l4 + 3)))
      × (r.l4 + (if r.proto == proto_tcp then 20 else 8) ≤ r.total)
unfolding parse_ports
parse_ports_checks p h r e = ground arith

parse_ports_lem :
    (p : List ℕ) (h : Header) (r : Parsed)
    → IsHeader p h.src h.dst h.l4
    → h.total ≤ length p
    → parse_ports p h ≡ some r
    → IsParsed p r
parse_ports_lem p h r i t e =
    let (proto, src, dst, l4, total) = parse_ports_fields p h r e in
    let (known, sport, dport, room) = parse_ports_checks p h r e in
    record {
      header = rw (src, dst, l4) i;
      known = known;
      sport = sport;
      dport = dport;
      transport = room;
      within = omega arith;
    }

header_cases :
    (p : List ℕ) (b : ℕ) (h : Header)
    → byte_at p 0 ≡ b
    → (if b / 16 == 4 then parse_v4 p else if b / 16 == 6 then parse_v6 p else none) ≡ some h
    → IsHeader p h.src h.dst h.l4 × (h.total ≤ length p)
header_cases p b h e q = elim (Bool-cases (b / 16 == 4)) [
  | inl four ↦ parse_v4_lem p h (ground arith) (rw four at q)
  | inr other ↦ elim (Bool-cases (b / 16 == 6)) [
    | inl six ↦ parse_v6_lem p h (ground arith) (rw (other, six) at q)
    | inr none_of ↦ absurd (ground arith)
  ]
]

-- A packet that `parse` accepts has the header that its version says, its transport header lies
-- inside the IP packet, and the IP packet inside the buffer.
pub parse-IsParsed : (p : List ℕ) (r : Parsed) → parse p ≡ some r → IsParsed p r
unfolding parse
parse-IsParsed p r e =
    let (b, first, e1) = >>=-eq-some (get_elem? p 0) _ e in
    let (h, q, e2) = >>=-eq-some _ (λ h. parse_ports p h) e1 in
    let (i, t) = header_cases p b h (byte_at_zero p b first) q in parse_ports_lem p h r i t e2

header_total :
    (p : List ℕ) (b : ℕ) (h : Header)
    → All IsByte p
    → (if b / 16 == 4 then parse_v4 p else if b / 16 == 6 then parse_v6 p else none) ≡ some h
    → h.total ≤ 65575
unfolding parse_v4 parse_v6
header_total p b h bytes e = ground (
  arith,
  byte_at-IsByte p 2 bytes,
  byte_at-IsByte p 3 bytes,
  byte_at-IsByte p 4 bytes,
  byte_at-IsByte p 5 bytes,
)

pub parse_total : (p : List ℕ) (r : Parsed) → All IsByte p → parse p ≡ some r → r.total ≤ 65575
unfolding parse
parse_total p r bytes e =
    let (b, first, e1) = >>=-eq-some (get_elem? p 0) _ e in
    let (h, q, e2) = >>=-eq-some _ (λ h. parse_ports p h) e1 in
    let same : r.total ≡ h.total = (parse_ports_fields p h r e2).4 in
    let small : h.total ≤ 65575 = header_total p b h bytes q in rw same small
