-- ===== src/Tun/Stack/Replies.antt =====
-- engine/src/inbound/tun/mod.rs: the table stays valid, and replies go back where they belong.
use aurora_vpn.Prelude.{
  ℕ, ◌≤◌, ◌<◌, ◌≡◌, refl, ap, ◌∙◌, inl, inr, true, ◌&&◌, not, Option, none, some, List, [], ◌∷◌,
  ◌++◌, arith, ltb, ◌==◌, if◌then◌else◌, Bool-cases, Option-cases, length, nat_eq, list_eq, pair_eq,
  get, All, IsByte, >>=-eq-some, if_intro,
}
use aurora_vpn.Tun.Packet.Endpoints.{parse-rewrite_tcp}
use aurora_vpn.Tun.Packet.Places.{IsCarried}
use aurora_vpn.Net.{IsIp, IpAddr, is_ipv4, ip_beq, ip_beq_iff}
use aurora_vpn.Tun.Nat.{
  FlowKey, Nat, lookup, by_port, create, modify, touch, mark_closing, is_closing,
}
use aurora_vpn.Tun.Nat.Invariant.{IsValid, create-IsValid, touch-IsValid, mark_closing-IsValid}
use aurora_vpn.Tun.Packet.{Parsed, parse, tcp_flags, rewrite_tcp, proto_tcp, proto_udp}
use aurora_vpn.Tun.Packet.Checksum.{IsRewritten, rewrite_tcp-IsRewritten}
use aurora_vpn.Tun.Stack.{
  Endpoints, Shared, endpoints, write_back, ends, is_syn, seen, reply, choose, forward,
  handle_tcp_packet, handle_udp_packet, handle, read_loop,
}

seen-IsValid : (now flags id : ℕ) (t : Nat) → IsValid t → IsValid (seen now flags id t)
unfolding seen
seen-IsValid now flags id t v =
    let v1 = touch-IsValid now id t v in
    if_intro IsValid (ends flags) (modify mark_closing id (modify (touch now) id t))
      (modify (touch now) id t) (λ _. mark_closing-IsValid id (modify (touch now) id t) v1)
      (λ _. v1)

choose-IsValid :
    (key : FlowKey) (flags now : ℕ) (t : Nat) → IsValid t → IsValid (choose key flags now t).0
unfolding choose
choose-IsValid key flags now t v =
    let made : IsValid (if is_syn flags then create key now t else (t, none)).0 =
      if_intro (λ (r : Nat × Option ℕ). IsValid r.0) (is_syn flags) (create key now t) (t, none)
        (λ _. create-IsValid key now t v) (λ _. v) in
    elim (lookup key t)
      as (λ o.
        IsValid
          (elim o as (λ _. Nat × Option ℕ) [
            | none ↦ if is_syn flags then create key now t else (t, none)
            | some id ↦
                if not (is_syn flags && is_closing (t.flows id))
                then (t, some id)
                else if is_syn flags
                then create key now t
                else (t, none)
          ]).0) [
            | none ↦ made
            | some id ↦
                if_intro (λ (r : Nat × Option ℕ). IsValid r.0)
                  (not (is_syn flags && is_closing (t.flows id))) (t, some id)
                  (if is_syn flags then create key now t else (t, none)) (λ _. v) (λ _. made)
          ]

-- Sending changes the device only.
write_back-nat :
    (s s' : Shared) (bytes : List ℕ) (parsed : Parsed) (src : IpAddr) (sport : ℕ) (dst : IpAddr)
    (dport : ℕ)
    → write_back s bytes parsed src sport dst dport ≡ some s'
    → s'.nat ≡ s.nat
unfolding write_back
write_back-nat s s' bytes parsed src sport dst dport e = ground arith

reply-IsValid :
    (s s' : Shared) (bytes : List ℕ) (parsed : Parsed) (flags : ℕ)
    → IsValid s.nat
    → reply s bytes parsed flags ≡ some s'
    → IsValid s'.nat
unfolding reply
reply-IsValid s s' bytes parsed flags v e = elim (Option-cases (by_port parsed.dport s.nat)) [
  | inl h ↦ (let q : s ≡ s' = ground arith in rw⁻¹ q v)
  | inr (id, h) ↦
      rw
        (write_back-nat (record s { nat = seen s.clock flags id s.nat }) s' bytes parsed
          (s.nat.flows id).dst (s.nat.flows id).dport (s.nat.flows id).src (s.nat.flows id).sport
          (rw (reply, h) at e))
        (seen-IsValid s.clock flags id s.nat v)
]

forward-IsValid :
    (s s' : Shared) (bytes : List ℕ) (parsed : Parsed) (ep : Endpoints) (listen flags : ℕ)
    → IsValid s.nat
    → forward s bytes parsed ep listen flags ≡ some s'
    → IsValid s'.nat
unfolding forward
forward-IsValid s s' bytes parsed ep listen flags v e =
    let key : FlowKey = (parsed.src, parsed.sport, parsed.dst, parsed.dport) in
    let t = (choose key flags s.clock s.nat).0 in
    let v1 = choose-IsValid key flags s.clock s.nat v in
    elim (Option-cases (choose key flags s.clock s.nat).1) [
      | inl h ↦
          (let q : some (record s { nat = t }) ≡ some s' = rw (forward, h) at e in
            let q' : t ≡ s'.nat = ground arith in rw⁻¹ q' v1)
      | inr (id, h) ↦
          rw
            (write_back-nat (record s { nat = seen s.clock flags id t }) s' bytes parsed ep.server
              (t.flows id).nat_port ep.tun listen (rw (forward, h) at e))
            (seen-IsValid s.clock flags id t v1)
    ]

handle_tcp_packet-IsValid :
    (s s' : Shared) (bytes : List ℕ) (parsed : Parsed)
    → IsValid s.nat
    → handle_tcp_packet s bytes parsed ≡ some s'
    → IsValid s'.nat
unfolding handle_tcp_packet
handle_tcp_packet-IsValid s s' bytes parsed v e = elim (Option-cases (endpoints s parsed)) [
  | inl h ↦ (let q : s ≡ s' = ground arith in rw⁻¹ q v)
  | inr ((ep, listen), h) ↦
      let flags = tcp_flags bytes parsed in
      let own = ip_beq parsed.src ep.tun && parsed.sport == listen && ip_beq parsed.dst ep.server in
      let q : (if own then reply s bytes parsed flags else forward s bytes parsed ep listen flags)
          ≡ some s' =
        rw (handle_tcp_packet, h) at e in
      elim (Bool-cases own) [
        | inl c ↦ reply-IsValid s s' bytes parsed flags v (ground arith)
        | inr c ↦ forward-IsValid s s' bytes parsed ep listen flags v (ground arith)
      ]
]

handle-IsValid :
    (s s' : Shared) (bytes : List ℕ) → IsValid s.nat → handle s bytes ≡ some s' → IsValid s'.nat
unfolding handle handle_udp_packet
handle-IsValid s s' bytes v e = elim (Option-cases (parse bytes)) [
  | inl h ↦ (let q : s ≡ s' = ground arith in rw⁻¹ q v)
  | inr (parsed, h) ↦
      let q : (if parsed.proto == proto_tcp
            then handle_tcp_packet s bytes parsed
            else if parsed.proto == proto_udp
            then some (handle_udp_packet s bytes parsed)
            else some s)
          ≡ some s' =
        rw (handle, h) at e in
      elim (Bool-cases (parsed.proto == proto_tcp)) [
        | inl c ↦ handle_tcp_packet-IsValid s s' bytes parsed v (ground arith)
        | inr c ↦ (let n : s.nat ≡ s'.nat = ground arith in rw⁻¹ n v)
      ]
]

-- If the table of flows is valid, it is valid after any sequence of packets that the device gives
-- and that the stack handles without a panic.
pub read_loop-IsValid :
    (ps : List (List ℕ)) (s s' : Shared) → IsValid s.nat → read_loop s ps ≡ some s' → IsValid s'.nat
unfolding read_loop
read_loop-IsValid [] s s' v e = (let q : s ≡ s' = ground arith in rw⁻¹ q v)
read_loop-IsValid (p ∷ ps) s s' v e =
    let (s1, h, rest) = >>=-eq-some (handle s p) (λ x. read_loop x ps) e in
    read_loop-IsValid ps s1 s' (handle-IsValid s s1 p v h) rest

-- What the device is given when the listener answers a flow of the table: one more packet, which is
-- parsed as the answer with the destination of the flow as its source and the flow's source as its
-- destination, and which carries what the answer carries.
pub record IsReturned (s s' : Shared) (bytes : List ℕ) (parsed : Parsed) (key : FlowKey)
    : Type 0 where
  pub packet : List ℕ
  pub sent : s'.device ≡ s.device ++ (packet ∷ [])
  pub rewritten : rewrite_tcp bytes parsed key.2 key.3 key.0 key.1 ≡ some (true, packet)
  pub mirrored :
      parse packet ≡ some (record parsed { src = key.2; sport = key.3; dst = key.0; dport = key.1 })
  pub carried : IsCarried bytes packet parsed.l4
  pub checksums : IsRewritten bytes parsed packet

-- For a valid table, a TCP packet of fewer than 65536 bytes that goes from the listener to the port
-- of a flow, and a flow with addresses of the packet's family and their width and 16-bit ports: the
-- packet is handled without a panic, and exactly one packet is sent. It is what rewrite_tcp gives
-- for these endpoints; parse reads it as the old packet with the flow's destination address and port
-- as its source and the flow's source address and port as its destination; between the ports and the
-- checksum of the segment and behind that checksum it has the old bytes; its length is the old one
-- and valid checksums stay valid.
pub handle-IsReturned :
    (s : Shared) (bytes : List ℕ) (parsed : Parsed) (ep : Endpoints) (listen : ℕ) (key : FlowKey)
    (id : ℕ)
    → IsValid s.nat
    → All IsByte bytes
    → length bytes < 65536
    → parse bytes ≡ some parsed
    → parsed.proto ≡ proto_tcp
    → endpoints s parsed ≡ some (ep, listen)
    → (parsed.src ≡ ep.tun) × (parsed.sport ≡ listen) × (parsed.dst ≡ ep.server)
    → lookup key s.nat ≡ some id
    → parsed.dport ≡ (s.nat.flows id).nat_port
    → (is_ipv4 key.0 ≡ is_ipv4 parsed.src) × (is_ipv4 key.2 ≡ is_ipv4 parsed.src)
    → IsIp key.0 × IsIp key.2
    → (key.1 ≤ 65535) × (key.3 ≤ 65535)
    → (s' : Shared) × (handle s bytes ≡ some s') × IsReturned s s' bytes parsed key
unfolding handle handle_tcp_packet reply write_back lookup by_port
handle-IsReturned s bytes parsed ep listen key id v b len e tcp at_end here found port family wide
      ports =
    let (live, same_key, back) = v.forward_flow key id found in
    let flow = s.nat.flows id in
    let (packet, out, good) =
      rewrite_tcp-IsRewritten bytes parsed key.2 key.3 key.0 key.1 b e tcp family.1 family.0 ports.1
        ports.0 in
    let (now, carried) =
      parse-rewrite_tcp bytes parsed key.2 key.3 key.0 key.1 packet e tcp (family.1, family.0)
        (wide.1, wide.0) (ports.1, ports.0) out in
    let s1 = record s { nat = seen s.clock (tcp_flags bytes parsed) id s.nat } in
    let s' = record s1 { device = s.device ++ (packet ∷ []) } in
    let own : (ip_beq parsed.src ep.tun && parsed.sport == listen && ip_beq parsed.dst ep.server)
        ≡ true =
      ground (arith, ip_beq_iff parsed.src ep.tun, ip_beq_iff parsed.dst ep.server) in
    let fits : ltb (length bytes) 65536 ≡ true = ground arith in
    let is_tcp : (parsed.proto == proto_tcp) ≡ true = ground arith in
    let backed : get parsed.dport s.nat.reverse ≡ some id = rw port back in
    let out' : rewrite_tcp bytes parsed flow.dst flow.dport flow.src flow.sport
        ≡ some (true, packet) =
      ap (λ (k : FlowKey). rewrite_tcp bytes parsed k.2 k.3 k.0 k.1) same_key ∙ out in
    let h3 : write_back s1 bytes parsed flow.dst flow.dport flow.src flow.sport ≡ some s' =
      rw (write_back, fits, out') refl in
    let h2 : reply s bytes parsed (tcp_flags bytes parsed) ≡ some s' =
      rw (reply, by_port, backed) h3 in
    let h1 : handle_tcp_packet s bytes parsed ≡ some s' = rw (handle_tcp_packet, at_end, own) h2 in
    let h0 : handle s bytes ≡ some s' = rw (handle, e, is_tcp) h1 in
    (
      s',
      h0,
      record {
        packet = packet;
        sent = refl;
        rewritten = out;
        mirrored = now;
        carried = carried;
        checksums = good;
      },
    )
