-- ===== src/Tun/Stack.antt =====
-- engine/src/inbound/tun/mod.rs: what the stack does with each packet that the device reads.
-- The device is what it is given to send, oldest first. `none` is a panic.
pub mod Replies
mod Tests
use aurora_vpn.Prelude.{
  ℕ, zero, suc, ◌+◌, ◌-◌, ◌*◌, ◌/◌, ◌%◌, ◌^◌, ◌≤◌, ◌<◌, min, max, ◌≡◌, refl, sym, ap, ◌∙◌, ◌≢◌, ◌↔◌,
  ◌⊎◌, inl, inr, Bool, true, false, ◌&&◌, ◌||◌, not, Option, none, some, List, [], ◌∷◌, ◌++◌, map,
  append_assoc, append-nil, arith, ltb, leb, ◌==◌, if◌then◌else◌, ltb→lt, lt→ltb, leb→le, ==_iff,
  tests, Bool-cases, Option-cases, length, get_elem?, get_or, take, drop, replicate, length-append,
  length-take, length-drop, take-append-drop, length-map, length-replicate, Eq, ◌=?◌, =?_iff,
  nat_eq, list_beq, list_beq_iff, list_eq, pair_eq, is_some, get, remove, insert, get-remove,
  get-insert, All, IsByte, All-append, to_be, from_be, length-to_be, to_be-IsByte, byte_at,
  byte_at-IsByte, u16_be, slice?, put, length-put, ◌>>=◌, >>=-eq-some, if_intro, insert_by, sort_by,
  min_by, length-insert_by, length-sort_by,
}
use aurora_vpn.Net.{IpAddr, v4, v6, is_ipv4, ip_beq, SocketAddr}
use aurora_vpn.Tun.Nat.{
  FlowKey, Flow, Nat, lookup, by_port, create, modify, touch, mark_closing, is_closing,
}
use aurora_vpn.Tun.Packet.{Parsed, parse, tcp_flags, rewrite_tcp, proto_tcp, proto_udp}

pub record Endpoints : Type 0 where
  pub tun : IpAddr
  pub server : IpAddr

pub record UdpMsg : Type 0 where
  pub src : SocketAddr
  pub dst : SocketAddr
  pub bytes : List ℕ

abbrev pub udp_queue : ℕ
udp_queue = 1024

pub record Shared : Type 0 where
  pub device : List (List ℕ)
  pub nat : Nat
  pub ep_v4 : Option Endpoints
  pub ep_v6 : Option Endpoints
  pub listen_v4 : ℕ
  pub listen_v6 : ℕ
  pub clock : ℕ
  pub udp : List UdpMsg

unfoldable pub endpoints : Shared → Parsed → Option (Endpoints × ℕ)
endpoints s parsed =
    if is_ipv4 parsed.src
    then s.ep_v4 >>= (λ ep. some (ep, s.listen_v4))
    else s.ep_v6 >>= (λ ep. some (ep, s.listen_v6))

-- The buffer that the device gives has the length as a u16; the copy panics on another length.
-- A packet that `rewrite_tcp` refuses is not sent.
unfoldable pub write_back : Shared → List ℕ → Parsed → IpAddr → ℕ → IpAddr → ℕ → Option Shared
write_back s bytes parsed src sport dst dport =
    if ltb (length bytes) 65536
    then (rewrite_tcp bytes parsed src sport dst dport
        >>= (λ r. some (if r.0 then record s { device = s.device ++ (r.1 ∷ []) } else s)))
    else none

abbrev pub bit : ℕ → ℕ → Bool
bit flags w = flags / w % 2 == 1

-- `flags & (TCP_FIN | TCP_RST) != 0`
abbrev pub ends : ℕ → Bool
ends flags = bit flags 1 || bit flags 4

-- `flags & TCP_SYN != 0 && flags & TCP_ACK == 0`
abbrev pub is_syn : ℕ → Bool
is_syn flags = bit flags 2 && not (bit flags 16)

-- `touch`, and `mark_closing` if the segment ends the connection.
unfoldable pub seen : ℕ → ℕ → ℕ → Nat → Nat
seen now flags id t =
    let t' = modify (touch now) id t in if ends flags then modify mark_closing id t' else t'

-- The answer of the kernel from the listener, back to the application.
unfoldable pub reply : Shared → List ℕ → Parsed → ℕ → Option Shared
unfolding seen
reply s bytes parsed flags = elim (by_port parsed.dport s.nat) [
  | none ↦ some s
  | some id ↦
      let flow = s.nat.flows id in
      write_back (record s { nat = seen s.clock flags id s.nat }) bytes parsed flow.dst flow.dport
        flow.src flow.sport
]

-- The flow of a segment of the application: the one that is there, a new one for a SYN, or none.
unfoldable pub choose : FlowKey → ℕ → ℕ → Nat → Nat × Option ℕ
choose key flags now t = elim (lookup key t) [
  | none ↦ if is_syn flags then create key now t else (t, none)
  | some id ↦
      if not (is_syn flags && is_closing (t.flows id))
      then (t, some id)
      else if is_syn flags
      then create key now t
      else (t, none)
]

unfoldable pub forward : Shared → List ℕ → Parsed → Endpoints → ℕ → ℕ → Option Shared
unfolding choose seen
forward s bytes parsed ep listen flags =
    let (nat, found) =
      choose (parsed.src, parsed.sport, parsed.dst, parsed.dport) flags s.clock s.nat in
    elim found [
      | none ↦ some (record s { nat = nat })
      | some id ↦
          write_back (record s { nat = seen s.clock flags id nat }) bytes parsed ep.server
            (nat.flows id).nat_port ep.tun listen
    ]

unfoldable pub handle_tcp_packet : Shared → List ℕ → Parsed → Option Shared
unfolding endpoints reply forward
handle_tcp_packet s bytes parsed = elim (endpoints s parsed) [
  | none ↦ some s
  | some (ep, listen) ↦
      let flags = tcp_flags bytes parsed in
      if ip_beq parsed.src ep.tun && parsed.sport == listen && ip_beq parsed.dst ep.server
      then reply s bytes parsed flags
      else forward s bytes parsed ep listen flags
]

-- `is_multicast` and `is_broadcast` of std::net.
unfoldable pub local_only : IpAddr → Bool
local_only (v4 a) = a / 2 ^ 28 == 14 || a == 2 ^ 32 - 1
local_only (v6 a) = a / 2 ^ 120 == 255

-- A full queue drops the message.
unfoldable pub handle_udp_packet : Shared → List ℕ → Parsed → Shared
unfolding local_only
handle_udp_packet s bytes parsed =
    let msg : List ℕ → UdpMsg = λ d. record {
      src = record { ip = parsed.src; port = parsed.sport };
      dst = record { ip = parsed.dst; port = parsed.dport };
      bytes = d;
    } in
    if local_only parsed.dst
    then s
    else if leb (parsed.l4 + 8) parsed.total
        && leb parsed.total (length bytes)
        && ltb (length s.udp) udp_queue
    then record s {
      udp =
          s.udp ++ (msg (take (parsed.total - (parsed.l4 + 8)) (drop (parsed.l4 + 8) bytes)) ∷ []);
    }
    else s

-- What `read_loop` does with one packet.
unfoldable pub handle : Shared → List ℕ → Option Shared
unfolding handle_tcp_packet handle_udp_packet
handle s bytes = elim (parse bytes) [
  | none ↦ some s
  | some parsed ↦
      if parsed.proto == proto_tcp
      then handle_tcp_packet s bytes parsed
      else if parsed.proto == proto_udp
      then some (handle_udp_packet s bytes parsed)
      else some s
]

-- `read_loop` over the packets that the device gives.
unfoldable pub read_loop : Shared → List (List ℕ) → Option Shared
unfolding handle
read_loop s [] = some s
read_loop s (p ∷ ps) = handle s p >>= (λ s'. read_loop s' ps)
