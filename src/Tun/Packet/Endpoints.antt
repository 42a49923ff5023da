-- ===== src/Tun/Packet/Endpoints.antt =====
-- engine/src/inbound/tun/packet.rs: what `parse` reads of a segment that `rewrite_tcp` has written.
use aurora_vpn.Prelude.{
  ℕ, ◌+◌, ◌/◌, ◌^◌, ◌≤◌, ◌<◌, ◌≡◌, ◌∙◌, refl, ap, Bool, true, false, some, none, List, arith,
  length, get_elem?, byte_at, u16_be, to_be, from_be, take, drop, ◌==◌, if◌then◌else◌, >>=-eq-some,
  nat_eq, Option,
}
use aurora_vpn.Net.{IpAddr, v4, v6, is_ipv4, IsIp}
use aurora_vpn.Tun.Packet.{
  Parsed, Header, parse, parse_v4, parse_v6, parse_ports, rewrite_tcp, proto_tcp,
}
use mathlib.Core.Path.{subst}
use aurora_vpn.Prelude.Slices.{from_be_back}
use aurora_vpn.Tun.Packet.Parse.{IsHeader, parse-IsParsed, byte_at_zero}
use aurora_vpn.Tun.Packet.Checksum.{out_v4, out_v6, rewrite_tcp-v4, rewrite_tcp-v6}
use aurora_vpn.Tun.Packet.Rewrite.{get_elem?-byte_at, length-rewritten}
use aurora_vpn.Tun.Packet.Places.{
  out, byte_kept, source, destination, source_port, destination_port, IsCarried,
  rewritten-IsCarried,
}

-- The fields that `parse_v4` reads besides the addresses.
abbrev Same4 : List ℕ → List ℕ → Type 0
Same4 p q =
    (length q ≡ length p)
    × (byte_at q 0 ≡ byte_at p 0)
    × (byte_at q 2 ≡ byte_at p 2)
    × (byte_at q 3 ≡ byte_at p 3)
    × (byte_at q 6 ≡ byte_at p 6)
    × (byte_at q 7 ≡ byte_at p 7)
    × (byte_at q 9 ≡ byte_at p 9)

parse_v4-again :
    (p q : List ℕ) (s d : ℕ) (h : Header)
    → Same4 p q
    → from_be (take 4 (drop 12 q)) ≡ s
    → from_be (take 4 (drop 16 q)) ≡ d
    → parse_v4 p ≡ some h
    → parse_v4 q ≡ some (record h { src = v4 s; dst = v4 d })
unfolding parse_v4
parse_v4-again p q s d h (l, b0, b2, b3, b6, b7, b9) es ed e =
    rw (l, b0, b2, b3, b6, b7, b9, es, ed) (ground arith)

abbrev Same6 : List ℕ → List ℕ → Type 0
Same6 p q =
    (length q ≡ length p)
    × (byte_at q 4 ≡ byte_at p 4)
    × (byte_at q 5 ≡ byte_at p 5)
    × (byte_at q 6 ≡ byte_at p 6)

parse_v6-again :
    (p q : List ℕ) (s d : ℕ) (h : Header)
    → Same6 p q
    → from_be (take 16 (drop 8 q)) ≡ s
    → from_be (take 16 (drop 24 q)) ≡ d
    → parse_v6 p ≡ some h
    → parse_v6 q ≡ some (record h { src = v6 s; dst = v6 d })
unfolding parse_v6
parse_v6-again p q s d h (l, b4, b5, b6) es ed e = rw (l, b4, b5, b6, es, ed) (ground arith)

parse_ports-again :
    (p q : List ℕ) (src dst : IpAddr) (sport dport : ℕ) (h : Header) (r : Parsed)
    → u16_be (byte_at q r.l4) (byte_at q (r.l4 + 1)) ≡ sport
    → u16_be (byte_at q (r.l4 + 2)) (byte_at q (r.l4 + 3)) ≡ dport
    → parse_ports p h ≡ some r
    → parse_ports q (record h { src = src; dst = dst })
      ≡ some (record r { src = src; sport = sport; dst = dst; dport = dport })
unfolding parse_ports
parse_ports-again p q src dst sport dport h r es ed e = ground arith

-- The two halves of `parse`.
parse_halves :
    (p : List ℕ) (r : Parsed)
    → parse p ≡ some r
    → (h : Header) × ((if byte_at p 0 / 16 == 4
          then parse_v4 p
          else if byte_at p 0 / 16 == 6
          then parse_v6 p
          else none)
        ≡ some h)
      × (parse_ports p h ≡ some r)
unfolding parse
parse_halves p r e =
    let (b, first, e1) = >>=-eq-some (get_elem? p 0) _ e in
    let z = byte_at_zero p b first in
    let (h, q, e2) =
      >>=-eq-some (if b / 16 == 4 then parse_v4 p else if b / 16 == 6 then parse_v6 p else none)
        (λ h. parse_ports p h) e1 in
    (
      h,
      ap (λ x. if x / 16 == 4 then parse_v4 p else if x / 16 == 6 then parse_v6 p else none) z ∙ q,
      e2,
    )

parse_joined :
    (q : List ℕ) (h : Header)
    → 0 < length q
    → (if byte_at q 0 / 16 == 4
        then parse_v4 q
        else if byte_at q 0 / 16 == 6
        then parse_v6 q
        else none)
      ≡ some h
    → parse q ≡ parse_ports q h
unfolding parse
parse_joined q h l e = rw (parse, get_elem?-byte_at q 0 l, e) refl

written :
    {o : Option (Bool × List ℕ)} {a b : List ℕ} → o ≡ some (true, a) → o ≡ some (true, b) → a ≡ b
written e f = cc

-- The endpoints that a segment has after the rewriting.
abbrev pub moved : Parsed → IpAddr → ℕ → IpAddr → ℕ → Parsed
moved r src sport dst dport = record r { src = src; sport = sport; dst = dst; dport = dport }

module _ (p : List ℕ) (r : Parsed) (sport dport : ℕ) (e : parse p ≡ some r)
    (tcp : r.proto ≡ proto_tcp) (hs : sport ≤ 65535) (hd : dport ≤ 65535) where
  parse-out_v4 :
      (s d s' d' : ℕ)
      → r.src ≡ v4 s
      → r.dst ≡ v4 d
      → s' < 2 ^ 32
      → d' < 2 ^ 32
      → parse (out_v4 p r.l4 s' sport d' dport) ≡ some (moved r (v4 s') sport (v4 d') dport)
  unfolding out_v4 out
  parse-out_v4 s d s' d' es ed small_s small_d =
      let v = parse-IsParsed p r e in
      let i : IsHeader p (v4 s) (v4 d) r.l4 = rw (es, ed) at v.header in
      let (h, half, ports) = parse_halves p r e in
      let four : (byte_at p 0 / 16 == 4) ≡ true = ground arith in
      let fits : r.l4 + 20 ≤ length p = ground (arith, v.transport, v.within) in
      let src = to_be 4 s' in
      let dst = to_be 4 d' in
      let q = out_v4 p r.l4 s' sport d' dport in
      let kept =
        byte_kept true 12 16 4 p r.l4 src sport dst dport (omega arith) (omega arith) fits refl refl
          hs hd in
      let same : Same4 p q = (
        length-rewritten true 12 16 4 p r.l4 src sport dst dport,
        kept 0 (omega arith) (omega arith),
        kept 2 (omega arith) (omega arith),
        kept 3 (omega arith) (omega arith),
        kept 6 (omega arith) (omega arith),
        kept 7 (omega arith) (omega arith),
        kept 9 (omega arith) (omega arith),
      ) in
      let a =
        ap from_be (
          source true 12 16 4 p r.l4 src sport dst dport (omega arith) (omega arith) fits refl refl
            hs hd)
        ∙ from_be_back 4 s' small_s in
      let b =
        ap from_be (
          destination true 12 16 4 p r.l4 src sport dst dport (omega arith) (omega arith) fits refl
            refl hs hd)
        ∙ from_be_back 4 d' small_d in
      let c =
        source_port true 12 16 4 p r.l4 src sport dst dport (omega arith) (omega arith) fits refl
          refl hs hd in
      let f =
        destination_port true 12 16 4 p r.l4 src sport dst dport (omega arith) (omega arith) fits
          refl refl hs hd in
      let whole = parse_v4-again p q s' d' h same a b (rw four at half) in
      let now : (byte_at q 0 / 16 == 4) ≡ true =
        ap (λ x. x / 16 == 4) (kept 0 (omega arith) (omega arith)) ∙ four in
      let chosen : (if byte_at q 0 / 16 == 4
            then parse_v4 q
            else if byte_at q 0 / 16 == 6
            then parse_v6 q
            else none)
          ≡ some (record h { src = v4 s'; dst = v4 d' }) =
        rw now whole in
      parse_joined q (record h { src = v4 s'; dst = v4 d' }) (omega (arith, same.0)) chosen
      ∙ parse_ports-again p q (v4 s') (v4 d') sport dport h r c f ports

  parse-out_v6 :
      (s d s' d' : ℕ)
      → r.src ≡ v6 s
      → r.dst ≡ v6 d
      → s' < 2 ^ 128
      → d' < 2 ^ 128
      → parse (out_v6 p r.l4 s' sport d' dport) ≡ some (moved r (v6 s') sport (v6 d') dport)
  unfolding out_v6 out
  parse-out_v6 s d s' d' es ed small_s small_d =
      let v = parse-IsParsed p r e in
      let i : IsHeader p (v6 s) (v6 d) r.l4 = rw (es, ed) at v.header in
      let (h, half, ports) = parse_halves p r e in
      let six : (byte_at p 0 / 16 == 4) ≡ false = ground arith in
      let is6 : (byte_at p 0 / 16 == 6) ≡ true = ground arith in
      let fits : r.l4 + 20 ≤ length p = ground (arith, v.transport, v.within) in
      let src = to_be 16 s' in
      let dst = to_be 16 d' in
      let q = out_v6 p r.l4 s' sport d' dport in
      let kept =
        byte_kept false 8 24 16 p r.l4 src sport dst dport (omega arith) (omega arith) fits refl
          refl hs hd in
      let same : Same6 p q = (
        length-rewritten false 8 24 16 p r.l4 src sport dst dport,
        kept 4 (omega arith) (omega arith),
        kept 5 (omega arith) (omega arith),
        kept 6 (omega arith) (omega arith),
      ) in
      let a =
        ap from_be (
          source false 8 24 16 p r.l4 src sport dst dport (omega arith) (omega arith) fits refl refl
            hs hd)
        ∙ from_be_back 16 s' small_s in
      let b =
        ap from_be (
          destination false 8 24 16 p r.l4 src sport dst dport (omega arith) (omega arith) fits refl
            refl hs hd)
        ∙ from_be_back 16 d' small_d in
      let c =
        source_port false 8 24 16 p r.l4 src sport dst dport (omega arith) (omega arith) fits refl
          refl hs hd in
      let f =
        destination_port false 8 24 16 p r.l4 src sport dst dport (omega arith) (omega arith) fits
          refl refl hs hd in
      let whole = parse_v6-again p q s' d' h same a b (rw (six, is6) at half) in
      let now : (byte_at q 0 / 16 == 4) ≡ false =
        ap (λ x. x / 16 == 4) (kept 0 (omega arith) (omega arith)) ∙ six in
      let now6 : (byte_at q 0 / 16 == 6) ≡ true =
        ap (λ x. x / 16 == 6) (kept 0 (omega arith) (omega arith)) ∙ is6 in
      let chosen : (if byte_at q 0 / 16 == 4
            then parse_v4 q
            else if byte_at q 0 / 16 == 6
            then parse_v6 q
            else none)
          ≡ some (record h { src = v6 s'; dst = v6 d' }) =
        rw (now, now6) whole in
      parse_joined q (record h { src = v6 s'; dst = v6 d' }) (omega (arith, same.0)) chosen
      ∙ parse_ports-again p q (v6 s') (v6 d') sport dport h r c f ports

  parse-cases :
      (rs rd src dst : IpAddr) (q : List ℕ)
      → r.src ≡ rs
      → r.dst ≡ rd
      → is_ipv4 src ≡ is_ipv4 rs
      → is_ipv4 dst ≡ is_ipv4 rs
      → IsIp src
      → IsIp dst
      → rewrite_tcp p r src sport dst dport ≡ some (true, q)
      → (parse q ≡ some (moved r src sport dst dport)) × IsCarried p q r.l4
  unfolding out_v4 out_v6
  parse-cases (v4 s) (v4 d) (v4 s') (v4 d') q es ed fs fd is id w =
      let same : out_v4 p r.l4 s' sport d' dport ≡ q =
        written (rewrite_tcp-v4 p r s d s' d' sport dport e tcp es ed) w in
      let i : IsHeader p (v4 s) (v4 d) r.l4 = rw (es, ed) at (parse-IsParsed p r e).header in
      let carried =
        rewritten-IsCarried true 12 16 4 p r.l4 (to_be 4 s') sport (to_be 4 d') dport (omega arith)
          (omega arith) (omega arith) refl refl in
      (
        subst (λ x. parse x ≡ some (moved r (v4 s') sport (v4 d') dport)) same
            (parse-out_v4 s d s' d' es ed is id),
        subst (λ x. IsCarried p x r.l4) same carried,
      )
  parse-cases (v6 s) (v6 d) (v6 s') (v6 d') q es ed fs fd is id w =
      let same : out_v6 p r.l4 s' sport d' dport ≡ q =
        written (rewrite_tcp-v6 p r s d s' d' sport dport e tcp es ed) w in
      let i : IsHeader p (v6 s) (v6 d) r.l4 = rw (es, ed) at (parse-IsParsed p r e).header in
      let carried =
        rewritten-IsCarried false 8 24 16 p r.l4 (to_be 16 s') sport (to_be 16 d') dport
          (omega arith) (omega arith) (omega arith) refl refl in
      (
        subst (λ x. parse x ≡ some (moved r (v6 s') sport (v6 d') dport)) same
            (parse-out_v6 s d s' d' es ed is id),
        subst (λ x. IsCarried p x r.l4) same carried,
      )
  parse-cases (v4 s) (v6 d) src dst q es ed fs fd is id w =
      elim (rw (es, ed) at (parse-IsParsed p r e).header) [ ]
  parse-cases (v6 s) (v4 d) src dst q es ed fs fd is id w =
      elim (rw (es, ed) at (parse-IsParsed p r e).header) [ ]
  parse-cases (v4 s) (v4 d) (v6 s') dst q es ed fs fd is id w = cc
  parse-cases (v4 s) (v4 d) (v4 s') (v6 d') q es ed fs fd is id w = cc
  parse-cases (v6 s) (v6 d) (v4 s') dst q es ed fs fd is id w = cc
  parse-cases (v6 s) (v6 d) (v6 s') (v4 d') q es ed fs fd is id w = cc

-- What rewrite_tcp writes is parsed as the same segment with the new endpoints, and carries what the
-- old one carried.
pub parse-rewrite_tcp :
    (p : List ℕ) (r : Parsed) (src : IpAddr) (sport : ℕ) (dst : IpAddr) (dport : ℕ) (q : List ℕ)
    → parse p ≡ some r
    → r.proto ≡ proto_tcp
    → (is_ipv4 src ≡ is_ipv4 r.src) × (is_ipv4 dst ≡ is_ipv4 r.src)
    → IsIp src × IsIp dst
    → (sport ≤ 65535) × (dport ≤ 65535)
    → rewrite_tcp p r src sport dst dport ≡ some (true, q)
    → (parse q ≡ some (moved r src sport dst dport)) × IsCarried p q r.l4
parse-rewrite_tcp p r src sport dst dport q e tcp (fs, fd) (is, id) (hs, hd) w =
    parse-cases p r sport dport e tcp hs hd r.src r.dst src dst q refl refl fs fd is id w
