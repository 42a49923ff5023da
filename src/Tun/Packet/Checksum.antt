-- ===== src/Tun/Packet/Checksum.antt =====
-- `rewrite_tcp` on a segment that `parse` accepts: it succeeds and keeps both checksums valid.
use aurora_vpn.Prelude.{
  ◌==◌, ℕ, ◌+◌, ◌-◌, ◌*◌, ◌/◌, ◌%◌, ◌≤◌, ◌<◌, ◌≡◌, ◌∙◌, refl, ap, Bool, true, false, List, arith,
  length, byte_at, to_be, take, drop, All, IsByte, some, if◌then◌else◌, to_be-IsByte, ◌↔◌,
}
use aurora_vpn.Net.{IpAddr, v4, v6, is_ipv4}
use aurora_vpn.Tun.Packet.{Parsed, parse, rewrite_tcp, fold, sum_words, proto_tcp, adjust}
use aurora_vpn.Tun.Packet.Parse.{parse-IsParsed, parse_total, IsHeader}
use aurora_vpn.Tun.Packet.Valid.{Layout, segment_sum, region_sum, region-le, written_lem}
use aurora_vpn.Prelude.Put.{drop-put_after, All-put}
use aurora_vpn.Tun.Packet.Rewrite.{
  word, rewritten, get_elem?-byte_at, rewrite-eq, header_fixed, length-rewritten,
}
use aurora_vpn.Tun.Packet.Regions.{region}
use aurora_vpn.Tun.Packet.Sums.{fold_full, sum_words-words}
use aurora_vpn.Tun.Packet.Front.{header_sum, header_pos}

-- What a receiver folds to check the IPv4 header.
pub header_check : List ℕ → Parsed → ℕ
header_check p r = fold (sum_words (take r.l4 p) 0)

-- What a receiver folds to check the segment: the pseudo header and the segment.
pub segment_check : List ℕ → Parsed → ℕ
segment_check p r =
    let addrs = if is_ipv4 r.src then take 8 (drop 12 p) else take 32 (drop 8 p) in
    fold (
      sum_words (take (r.total - r.l4) (drop r.l4 p))
        (sum_words addrs (proto_tcp + (r.total - r.l4))))

Layout-v4 :
    (p : List ℕ) (r : Parsed) (s d s' d' sport dport : ℕ)
    → All IsByte p
    → parse p ≡ some r
    → r.proto ≡ proto_tcp
    → r.src ≡ v4 s
    → r.dst ≡ v4 d
    → sport ≤ 65535
    → dport ≤ 65535
    → Layout true 12 4 p r.l4 (r.total - r.l4) (to_be 4 s') (to_be 4 d') sport dport
Layout-v4 p r s d s' d' sport dport bytes e tcp es ed hs hd =
    let v = parse-IsParsed p r e in
    let i : IsHeader p (v4 s) (v4 d) r.l4 = rw (es, ed) at v.header in
    record {
      bytes = bytes;
      src_bytes = to_be-IsByte 4 s';
      dst_bytes = to_be-IsByte 4 d';
      length_src = refl;
      length_dst = refl;
      even_src = refl;
      even_len = refl;
      even_l4 = omega arith;
      addrs_inside = omega arith;
      short_addrs = omega arith;
      header_room = omega arith;
      port_room = ground (arith, v.transport);
      fits = ground (arith, v.transport, v.within);
      small = omega (arith, parse_total p r bytes e);
      sport_u16 = hs;
      dport_u16 = hd;
      keeps = λ old new j m h.
          ap (take m) (drop-put_after p j 10 (to_be 2 (adjust (word p 10) old new)) (omega arith));
    }

Layout-v6 :
    (p : List ℕ) (r : Parsed) (s d s' d' sport dport : ℕ)
    → All IsByte p
    → parse p ≡ some r
    → r.proto ≡ proto_tcp
    → r.src ≡ v6 s
    → r.dst ≡ v6 d
    → sport ≤ 65535
    → dport ≤ 65535
    → Layout false 8 16 p r.l4 (r.total - r.l4) (to_be 16 s') (to_be 16 d') sport dport
Layout-v6 p r s d s' d' sport dport bytes e tcp es ed hs hd =
    let v = parse-IsParsed p r e in
    let i : IsHeader p (v6 s) (v6 d) r.l4 = rw (es, ed) at v.header in
    record {
      bytes = bytes;
      src_bytes = to_be-IsByte 16 s';
      dst_bytes = to_be-IsByte 16 d';
      length_src = refl;
      length_dst = refl;
      even_src = refl;
      even_len = refl;
      even_l4 = omega arith;
      addrs_inside = omega arith;
      short_addrs = omega arith;
      header_room = omega arith;
      port_room = ground (arith, v.transport);
      fits = ground (arith, v.transport, v.within);
      small = omega (arith, parse_total p r bytes e);
      sport_u16 = hs;
      dport_u16 = hd;
      keeps = λ old new j m h. refl;
    }

-- The result of the rewriting, for addresses `s'` and `d'` of four octets.
unfoldable pub out_v4 : List ℕ → ℕ → ℕ → ℕ → ℕ → ℕ → List ℕ
out_v4 p l4 s' sport d' dport = rewritten true 12 16 4 p l4 (to_be 4 s') sport (to_be 4 d') dport

unfoldable pub out_v6 : List ℕ → ℕ → ℕ → ℕ → ℕ → ℕ → List ℕ
out_v6 p l4 s' sport d' dport = rewritten false 8 24 16 p l4 (to_be 16 s') sport (to_be 16 d') dport

pub rewrite_tcp-v4 :
    (p : List ℕ) (r : Parsed) (s d s' d' sport dport : ℕ)
    → parse p ≡ some r
    → r.proto ≡ proto_tcp
    → r.src ≡ v4 s
    → r.dst ≡ v4 d
    → rewrite_tcp p r (v4 s') sport (v4 d') dport ≡ some (true, out_v4 p r.l4 s' sport d' dport)
unfolding rewrite_tcp out_v4
rewrite_tcp-v4 p r s d s' d' sport dport e tcp es ed =
    let v = parse-IsParsed p r e in
    let i : IsHeader p (v4 s) (v4 d) r.l4 = rw (es, ed) at v.header in
    let four : (byte_at p 0 / 16 == 4) ≡ true = ground arith in
    rw (
      get_elem?-byte_at p 0 (ground (arith, v.transport, v.within)),
      four,
      rewrite-eq true 12 16 4 p r.l4 (to_be 4 s') sport (to_be 4 d') dport (omega arith)
          (ground (arith, v.transport, v.within)) refl refl (omega arith) (omega arith),
    )

pub rewrite_tcp-v6 :
    (p : List ℕ) (r : Parsed) (s d s' d' sport dport : ℕ)
    → parse p ≡ some r
    → r.proto ≡ proto_tcp
    → r.src ≡ v6 s
    → r.dst ≡ v6 d
    → rewrite_tcp p r (v6 s') sport (v6 d') dport ≡ some (true, out_v6 p r.l4 s' sport d' dport)
unfolding rewrite_tcp out_v6
rewrite_tcp-v6 p r s d s' d' sport dport e tcp es ed =
    let v = parse-IsParsed p r e in
    let i : IsHeader p (v6 s) (v6 d) r.l4 = rw (es, ed) at v.header in
    let six : (byte_at p 0 / 16 == 4) ≡ false = ground arith in
    rw (
      get_elem?-byte_at p 0 (ground (arith, v.transport, v.within)),
      six,
      rewrite-eq false 8 24 16 p r.l4 (to_be 16 s') sport (to_be 16 d') dport (omega arith)
          (ground (arith, v.transport, v.within)) refl refl (omega arith) (omega arith),
    )

-- The sums that the two checks fold, with no wrap-around.
header_check-words :
    (p : List ℕ) (r : Parsed)
    → All IsByte p
    → r.l4 ≤ 70000
    → (header_check p r ≡ 65535) ↔ ((0 < region p 0 r.l4) × (region p 0 r.l4 % 65535 ≡ 0))
unfolding header_check
header_check-words p r bytes small =
    rw (region_sum p 0 r.l4 bytes (omega arith))
      (fold_full (region p 0 r.l4) (omega (arith, region-le p 0 r.l4 bytes)))

segment_check-words :
    (p : List ℕ) (r : Parsed) (at_src len : ℕ)
    → All IsByte p
    → r.total ≤ 70000
    → (if is_ipv4 r.src then take 8 (drop 12 p) else take 32 (drop 8 p))
      ≡ take (2 * len) (drop at_src p)
    → 2 * len ≤ 32
    → (segment_check p r ≡ 65535) ↔ (
        (region p at_src (2 * len) + region p r.l4 (r.total - r.l4) + (6 + (r.total - r.l4)))
          % 65535
        ≡ 0)
unfolding segment_check
segment_check-words p r at_src len bytes small same short =
    let n : ℕ = r.total - r.l4 in
    let a : ℕ = region p at_src (2 * len) in
    let la : a ≤ 32768 * 33 = omega (arith, region-le p at_src (2 * len) bytes) in
    let ln : region p r.l4 n ≤ 32768 * 70001 = omega (arith, region-le p r.l4 n bytes) in
    let e1 : sum_words (take (2 * len) (drop at_src p)) (6 + n) ≡ 6 + n + a =
      sum_words-words (take (2 * len) (drop at_src p)) (6 + n) (omega arith) in
    let e2 : sum_words (take n (drop r.l4 p)) (6 + n + a) ≡ 6 + n + a + region p r.l4 n =
      sum_words-words (take n (drop r.l4 p)) (6 + n + a) (omega arith) in
    let (to, from) = fold_full (6 + n + a + region p r.l4 n) (omega arith) in
    rw (same, e1, e2) (λ h. omega (arith, to h), λ h. from (omega arith))

header_fixed-IsByte :
    (is4 : Bool) (p : List ℕ) (old new : ℕ) → All IsByte p → All IsByte (header_fixed is4 p old new)
header_fixed-IsByte false p old new h = h
header_fixed-IsByte true p old new h = All-put IsByte p 10 _ h (to_be-IsByte 2 _)

rewritten-IsByte :
    (is4 : Bool) (at_src at_dst len : ℕ) (p : List ℕ) (l4 : ℕ) (src : List ℕ) (sport : ℕ)
    (dst : List ℕ) (dport : ℕ)
    → All IsByte p
    → All IsByte src
    → All IsByte dst
    → All IsByte (rewritten is4 at_src at_dst len p l4 src sport dst dport)
rewritten-IsByte is4 at_src at_dst len p l4 src sport dst dport hp hs hd =
    All-put IsByte _ (l4 + 2) (to_be 2 dport)
      (All-put IsByte _ l4 (to_be 2 sport)
        (All-put IsByte _ at_dst dst
          (All-put IsByte _ at_src src
            (All-put IsByte _ (l4 + 16) (to_be 2 _) (header_fixed-IsByte is4 p _ _ hp)
              (to_be-IsByte 2 _))
            hs)
          hd)
        (to_be-IsByte 2 sport))
      (to_be-IsByte 2 dport)

-- What `rewrite_tcp` does to a valid segment: the new packet has the old length and both checks
-- still hold, the header's in IPv4 alone.
pub record IsRewritten (p : List ℕ) (r : Parsed) (p' : List ℕ) : Type 0 where
  pub same_length : length p' ≡ length p
  pub segment_kept : segment_check p r ≡ 65535 → segment_check p' r ≡ 65535
  pub header_kept : is_ipv4 r.src ≡ true → header_check p r ≡ 65535 → header_check p' r ≡ 65535

module _ (p : List ℕ) (r : Parsed) (sport dport : ℕ) (bytes : All IsByte p) (e : parse p ≡ some r)
    (tcp : r.proto ≡ proto_tcp) (hs : sport ≤ 65535) (hd : dport ≤ 65535) where
  small : r.total ≤ 65575
  small = parse_total p r bytes e

  inner : r.l4 + 20 ≤ r.total
  inner = let v = parse-IsParsed p r e in ground (arith, v.transport)

  out_v4-IsRewritten :
      (s d s' d' : ℕ)
      → r.src ≡ v4 s
      → r.dst ≡ v4 d
      → IsRewritten p r (out_v4 p r.l4 s' sport d' dport)
  unfolding out_v4
  out_v4-IsRewritten s d s' d' es ed =
      let v = parse-IsParsed p r e in
      let i : IsHeader p (v4 s) (v4 d) r.l4 = rw (es, ed) at v.header in
      let n : ℕ = r.total - r.l4 in
      let src : List ℕ = to_be 4 s' in
      let dst : List ℕ = to_be 4 d' in
      let lay = Layout-v4 p r s d s' d' sport dport bytes e tcp es ed hs hd in
      let out : List ℕ = rewritten true 12 16 4 p r.l4 src sport dst dport in
      let out_bytes : All IsByte out =
        rewritten-IsByte true 12 16 4 p r.l4 src sport dst dport bytes (to_be-IsByte 4 s')
          (to_be-IsByte 4 d') in
      let seg : (region out 12 8 + region out r.l4 n) % 65535
          ≡ (region p 12 8 + region p r.l4 n) % 65535 =
        rw (← written_lem true 12 4 p r.l4 n src dst sport dport lay)
          (segment_sum true 12 4 p r.l4 n src dst sport dport lay) in
      let hdr : region out 0 r.l4 % 65535 ≡ region p 0 r.l4 % 65535 =
        rw (← written_lem true 12 4 p r.l4 n src dst sport dport lay)
          (header_sum p r.l4 n src dst sport dport lay) in
      let pos : 0 < region out 0 r.l4 =
        rw (← written_lem true 12 4 p r.l4 n src dst sport dport lay)
          (header_pos p r.l4 n src dst sport dport lay (omega arith)) in
      let addrs : (if is_ipv4 r.src then take 8 (drop 12 p) else take 32 (drop 8 p))
          ≡ take 8 (drop 12 p) =
        rw es in
      let addrs' : (if is_ipv4 r.src then take 8 (drop 12 out) else take 32 (drop 8 out))
          ≡ take 8 (drop 12 out) =
        rw es in
      let was = segment_check-words p r 12 4 bytes (omega (arith, small)) addrs (omega arith) in
      let now =
        segment_check-words out r 12 4 out_bytes (omega (arith, small)) addrs' (omega arith) in
      let h_was = header_check-words p r bytes (omega (arith, small, inner)) in
      let h_now = header_check-words out r out_bytes (omega (arith, small, inner)) in
      record {
        same_length = length-rewritten true 12 16 4 p r.l4 src sport dst dport;
        segment_kept = λ h. now.1 (omega (arith, was.0 h, seg));
        header_kept = λ _ h. h_now.1 (pos, hdr ∙ (h_was.0 h).1);
      }

  out_v6-IsRewritten :
      (s d s' d' : ℕ)
      → r.src ≡ v6 s
      → r.dst ≡ v6 d
      → IsRewritten p r (out_v6 p r.l4 s' sport d' dport)
  unfolding out_v6
  out_v6-IsRewritten s d s' d' es ed =
      let n : ℕ = r.total - r.l4 in
      let src : List ℕ = to_be 16 s' in
      let dst : List ℕ = to_be 16 d' in
      let lay = Layout-v6 p r s d s' d' sport dport bytes e tcp es ed hs hd in
      let out : List ℕ = rewritten false 8 24 16 p r.l4 src sport dst dport in
      let out_bytes : All IsByte out =
        rewritten-IsByte false 8 24 16 p r.l4 src sport dst dport bytes (to_be-IsByte 16 s')
          (to_be-IsByte 16 d') in
      let seg : (region out 8 32 + region out r.l4 n) % 65535
          ≡ (region p 8 32 + region p r.l4 n) % 65535 =
        rw (← written_lem false 8 16 p r.l4 n src dst sport dport lay)
          (segment_sum false 8 16 p r.l4 n src dst sport dport lay) in
      let addrs : (if is_ipv4 r.src then take 8 (drop 12 p) else take 32 (drop 8 p))
          ≡ take 32 (drop 8 p) =
        rw es in
      let addrs' : (if is_ipv4 r.src then take 8 (drop 12 out) else take 32 (drop 8 out))
          ≡ take 32 (drop 8 out) =
        rw es in
      let was = segment_check-words p r 8 16 bytes (omega (arith, small)) addrs (omega arith) in
      let now =
        segment_check-words out r 8 16 out_bytes (omega (arith, small)) addrs' (omega arith) in
      record {
        same_length = length-rewritten false 8 24 16 p r.l4 src sport dst dport;
        segment_kept = λ h. now.1 (omega (arith, was.0 h, seg));
        header_kept = λ four. absurd (ground arith);
      }

  IsRewritten-cases :
      (rs rd src dst : IpAddr)
      → r.src ≡ rs
      → r.dst ≡ rd
      → is_ipv4 src ≡ is_ipv4 rs
      → is_ipv4 dst ≡ is_ipv4 rs
      → (p' : List ℕ) × (rewrite_tcp p r src sport dst dport ≡ some (true, p')) × IsRewritten p r p'
  IsRewritten-cases (v4 s) (v4 d) (v4 s') (v4 d') es ed hs hd = (
    out_v4 p r.l4 s' sport d' dport,
    rewrite_tcp-v4 p r s d s' d' sport dport e tcp es ed,
    out_v4-IsRewritten s d s' d' es ed,
  )
  IsRewritten-cases (v6 s) (v6 d) (v6 s') (v6 d') es ed hs hd = (
    out_v6 p r.l4 s' sport d' dport,
    rewrite_tcp-v6 p r s d s' d' sport dport e tcp es ed,
    out_v6-IsRewritten s d s' d' es ed,
  )
  IsRewritten-cases (v4 s) (v6 d) src dst es ed hs hd =
      elim (rw (es, ed) at (parse-IsParsed p r e).header) [ ]
  IsRewritten-cases (v6 s) (v4 d) src dst es ed hs hd =
      elim (rw (es, ed) at (parse-IsParsed p r e).header) [ ]
  IsRewritten-cases (v4 s) (v4 d) (v6 s') dst es ed hs hd = cc
  IsRewritten-cases (v4 s) (v4 d) (v4 s') (v6 d') es ed hs hd = cc
  IsRewritten-cases (v6 s) (v6 d) (v4 s') dst es ed hs hd = cc
  IsRewritten-cases (v6 s) (v6 d) (v6 s') (v4 d') es ed hs hd = cc

-- For every byte string that parse accepts as TCP and new addresses of its family with 16-bit ports,
-- rewrite_tcp returns true without leaving the buffer, the packet keeps its length, a valid segment
-- checksum stays valid, and so does a valid IPv4 header checksum.
pub rewrite_tcp-IsRewritten :
    (p : List ℕ) (r : Parsed) (src : IpAddr) (sport : ℕ) (dst : IpAddr) (dport : ℕ)
    → All IsByte p
    → parse p ≡ some r
    → r.proto ≡ proto_tcp
    → is_ipv4 src ≡ is_ipv4 r.src
    → is_ipv4 dst ≡ is_ipv4 r.src
    → sport ≤ 65535
    → dport ≤ 65535
    → (p' : List ℕ) × (rewrite_tcp p r src sport dst dport ≡ some (true, p')) × IsRewritten p r p'
rewrite_tcp-IsRewritten p r src sport dst dport bytes e tcp fs fd hs hd =
    IsRewritten-cases p r sport dport bytes e tcp hs hd r.src r.dst src dst refl refl fs fd
