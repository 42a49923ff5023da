-- ===== src/Tun/Packet.antt =====
-- engine/src/inbound/tun/packet.rs: parsing and in-place rewriting of IP packets.
-- A packet is a list of bytes. `none` of `rewrite_tcp` is an index out of bounds, a panic in the
-- source; a mask by 2 ^ k - 1 is written as a remainder and a right shift as a division.
pub mod Sums
pub mod Regions
pub mod Parse
pub mod Rewrite
pub mod Valid
pub mod Front
pub mod Checksum
pub mod Places
pub mod Endpoints
pub mod Tests
use aurora_vpn.Prelude.{
  ℕ, zero, suc, ◌+◌, ◌-◌, ◌*◌, ◌/◌, ◌%◌, ◌^◌, ◌≡◌, Bool, true, false, ◌&&◌, ◌||◌, not, Option, none,
  some, List, [], ◌∷◌, ◌++◌, ltb, leb, ◌==◌, if◌then◌else◌, length, get_elem?, take, drop,
  replicate, byte_at, u16_be, slice?, put?, to_be, from_be, ◌>>=◌,
}
use aurora_vpn.Net.{IpAddr, v4, v6, is_ipv4}

abbrev pub proto_tcp : ℕ
proto_tcp = 6

abbrev pub proto_udp : ℕ
proto_udp = 17

pub record Parsed : Type 0 where
  pub proto : ℕ
  pub src : IpAddr
  pub dst : IpAddr
  pub sport : ℕ
  pub dport : ℕ
  -- Where the transport header begins.
  pub l4 : ℕ
  -- The length of the IP packet by its header.
  pub total : ℕ

-- What the two IP headers give: protocol, addresses, header length and total length.
pub record Header : Type 0 where
  pub proto : ℕ
  pub src : IpAddr
  pub dst : IpAddr
  pub l4 : ℕ
  pub total : ℕ

parse_v4 : List ℕ → Option Header
parse_v4 p =
    let ihl = byte_at p 0 % 16 * 4 in
    let total = u16_be (byte_at p 2) (byte_at p 3) in
    let frag = u16_be (byte_at p 6) (byte_at p 7) % 0x4000 in
    if ltb (length p) 20
    then none
    else if ltb ihl 20 || ltb (length p) total || ltb total ihl || not (frag == 0)
    then none
    else some (record {
      proto = byte_at p 9;
      src = v4 (from_be (take 4 (drop 12 p)));
      dst = v4 (from_be (take 4 (drop 16 p)));
      l4 = ihl;
      total = total;
    })

parse_v6 : List ℕ → Option Header
parse_v6 p =
    let total = 40 + u16_be (byte_at p 4) (byte_at p 5) in
    if ltb (length p) 40
    then none
    else if ltb (length p) total
    then none
    else some (record {
      proto = byte_at p 6;
      src = v6 (from_be (take 16 (drop 8 p)));
      dst = v6 (from_be (take 16 (drop 24 p)));
      l4 = 40;
      total = total;
    })

-- The protocol and length checks and the ports, which both families share.
parse_ports : List ℕ → Header → Option Parsed
parse_ports p h =
    if not (h.proto == proto_tcp) && not (h.proto == proto_udp)
    then none
    else if ltb h.total (h.l4 + (if h.proto == proto_tcp then 20 else 8))
    then none
    else some (record {
      proto = h.proto;
      src = h.src;
      dst = h.dst;
      sport = u16_be (byte_at p h.l4) (byte_at p (h.l4 + 1));
      dport = u16_be (byte_at p (h.l4 + 2)) (byte_at p (h.l4 + 3));
      l4 = h.l4;
      total = h.total;
    })

unfoldable pub parse : List ℕ → Option Parsed
unfolding parse_v4 parse_v6 parse_ports
parse p = do
  first ← get_elem? p 0
  h ← if first / 16 == 4 then parse_v4 p else if first / 16 == 6 then parse_v6 p else none
  parse_ports p h

-- `p.get(l4 + 13)`, or 0 past the end.
unfoldable pub tcp_flags : List ℕ → Parsed → ℕ
tcp_flags p parsed = byte_at p (parsed.l4 + 13)

abbrev pub u32_mod : ℕ
u32_mod = 2 ^ 32

-- Sums of u32 wrap.
abbrev pub add32 : ℕ → ℕ → ℕ
add32 a b = (a + b) % u32_mod

-- The sum of the big-endian words; an odd last byte is a high byte.
pub sum_words : List ℕ → ℕ → ℕ
sum_words [] acc = acc
sum_words (a ∷ []) acc = add32 acc (a * 256)
sum_words (a ∷ b ∷ rest) acc = sum_words rest (add32 acc (u16_be a b))

-- `while acc >> 16 != 0`
fold_loop : ℕ → ℕ → ℕ
fold_loop zero acc = acc
fold_loop (suc fuel) acc =
    let rest = fold_loop fuel (acc % 65536 + acc / 65536) in if acc / 65536 == 0 then acc else rest

-- Two rounds are enough for a u32, the third sees the end.
pub fold : ℕ → ℕ
unfolding fold_loop
fold acc = fold_loop 3 acc % 65536

-- `!x` of a u16.
abbrev pub not16 : ℕ → ℕ
not16 x = 65535 - x

pub adjust : ℕ → ℕ → ℕ → ℕ
adjust check old new = not16 (fold (not16 check + not16 (fold old) + fold new))

-- The 16-byte buffer and how many of its bytes are the address.
abbrev pub addr_bytes : IpAddr → List ℕ × ℕ
addr_bytes (v4 a) = (to_be 4 a ++ replicate 12 0, 4)
addr_bytes (v6 a) = (to_be 16 a, 16)

-- `u16::from_be_bytes([p[i], p[i + 1]])` with the index checks.
pub word_at : List ℕ → ℕ → Option ℕ
word_at p i = do hi ← get_elem? p i; lo ← get_elem? p (i + 1); some (u16_be hi lo)

-- The header checksum, which only IPv4 has.
pub fix_header : Bool → List ℕ → ℕ → ℕ → Option (List ℕ)
fix_header false p old new = some p
fix_header true p old new = do check ← word_at p 10; put? p 10 (to_be 2 (adjust check old new))

-- `rewrite_tcp` once the families agree: `at_src`, `at_dst` and `len` are the family's offsets.
pub rewrite : Bool → ℕ → ℕ → ℕ → List ℕ → ℕ → List ℕ → ℕ → List ℕ → ℕ → Option (List ℕ)
rewrite is4 at_src at_dst len p l4 src sport dst dport = do
  old_addrs ← slice? p at_src (at_dst + len - at_src)
  let old_addr_sum = sum_words old_addrs 0
  let new_addr_sum = sum_words dst (sum_words src 0)
  p1 ← fix_header is4 p old_addr_sum new_addr_sum
  old_ports ← slice? p1 l4 4
  check ← word_at p1 (l4 + 16)
  p2 ← put? p1 (l4 + 16) (
      to_be 2 (
        adjust check (add32 old_addr_sum (sum_words old_ports 0))
          (add32 new_addr_sum (sport + dport))))
  p3 ← put? p2 at_src src
  p4 ← put? p3 at_dst dst
  p5 ← put? p4 l4 (to_be 2 sport)
  put? p5 (l4 + 2) (to_be 2 dport)

bool_eq : Bool → Bool → Bool
bool_eq true b = b
bool_eq false b = not b

-- The new packet comes with the `bool` that the source returns.
unfoldable pub rewrite_tcp : List ℕ → Parsed → IpAddr → ℕ → IpAddr → ℕ → Option (Bool × List ℕ)
unfolding bool_eq rewrite fix_header word_at
rewrite_tcp p parsed src sport dst dport = do
  first ← get_elem? p 0
  let is4 = first / 16 == 4
  let (new_src, len) = addr_bytes src
  let (new_dst, _) = addr_bytes dst
  if not (bool_eq is4 (is_ipv4 src)) || not (bool_eq is4 (is_ipv4 dst)) then some (false, p) else do
    p' ←
        rewrite is4 (if is4 then 12 else 8) (if is4 then 16 else 24) len p parsed.l4
          (take len new_src) sport (take len new_dst) dport
    some (true, p')
