-- ===== src/Xudp/Frames.antt =====
-- engine/src/outbound/xudp.rs: the datagrams that are sent over a session are received.
use aurora_vpn.Prelude.{
  ℕ, zero, suc, ◌≤◌, ◌<◌, min, ◌≡◌, refl, ap, ◌∙◌, ◌≢◌, inl, inr, Bool, true, false, not, some,
  List, [], ◌∷◌, ◌++◌, append_assoc, arith, ltb, leb, ◌==◌, if◌then◌else◌, Bool-cases, length, drop,
  length-append, length-take, nat_eq, list_eq, pair_eq, All, to_be, length-to_be, if_intro,
}
use aurora_vpn.Prelude.Slices.{drop-length-append, take-length-append, from_be_back}
use aurora_vpn.Net.{v4, v6}
use aurora_vpn.Target.{Host, ip_host, domain_host, Target, vless_host, write_vless}
use aurora_vpn.Target.Wire.{IsTarget, read_vless-write_vless}
use aurora_vpn.Xudp.{
  zeros, meta_of, encode, Meta, send, read_exact, packet, invalid, ended, done, nowhere, parse_meta,
  read_data, read_frame, recv_loop, recv,
}

read_exact-append :
    (n : ℕ) (a rest : List ℕ) → n ≡ length a → read_exact n (a ++ rest) ≡ some (a, rest)
unfolding read_exact
read_exact-append n a rest e =
    let l = length-append a rest in
    let t : leb n (length (a ++ rest)) ≡ true = ground arith in
    rw (read_exact, t, e)
      (ap (λ x. some (x, drop (length a) (a ++ rest))) (take-length-append a rest)
        ∙ ap (λ x. some (a, x)) (drop-length-append a rest))

length-vless_host : (h : Host) → (1 ≤ length (vless_host h)) × (length (vless_host h) ≤ 257)
unfolding vless_host
length-vless_host (ip_host (v4 a)) = let l = length-to_be 4 a in (omega arith, omega arith)
length-vless_host (ip_host (v6 a)) = let l = length-to_be 16 a in (omega arith, omega arith)
length-vless_host (domain_host d) =
    let l = length-take (min (length d) 255) d in (omega arith, omega arith)

length-meta_of :
    (first : Bool) (to : Target)
    → (6 ≤ length (meta_of first to)) × (length (meta_of first to) ≤ 512)
unfolding write_vless
length-meta_of first to =
    let (l, h) = length-vless_host to.host in
    let a = length-append (to_be 2 to.port) (vless_host to.host) in
    let b = length-append (write_vless to) (if first then zeros 8 else []) in
    elim (Bool-cases first) [
      | inl t ↦ (ground arith, ground arith)
      | inr t ↦ (ground arith, ground arith)
    ]

module _ (is_utf8 : List ℕ → Bool) where
  abbrev meta : Bool → Target → Meta
  meta first to = record { status = if first then 1 else 2; has_data = true; from = some to }

  parse_meta-meta_of :
      (first : Bool) (to : Target)
      → IsTarget is_utf8 to
      → parse_meta is_utf8 (meta_of first to) ≡ some (meta first to)
  unfolding parse_meta
  parse_meta-meta_of first to h =
      let (l, u) = length-meta_of first to in
      let e = read_vless-write_vless is_utf8 to (if first then zeros 8 else []) h in
      let t : ltb 5 (length (meta_of first to)) ≡ true = ground arith in rw (t, e) refl

  read_data_front :
      (limit status : ℕ) (from : Target) (bytes rest : List ℕ)
      → status ≢ 3
      → length bytes < 65536
      → length bytes ≤ limit
      → read_data is_utf8 limit status from (to_be 2 (length bytes) ++ (bytes ++ rest))
        ≡ done (packet bytes from rest)
  unfolding read_data
  read_data_front limit status from bytes rest hs hn hc =
      let e = read_exact-append 2 (to_be 2 (length bytes)) (bytes ++ rest) refl in
      let n = from_be_back 2 (length bytes) hn in
      let f = read_exact-append (length bytes) bytes rest refl in
      let t : ltb limit (length bytes) ≡ false = ground arith in
      let s : (status == 3) ≡ false = ground arith in rw (read_data, e, n, t, f, s) refl

  read_frame_front :
      (limit : ℕ) (last to : Target) (first : Bool) (behind : List ℕ)
      → IsTarget is_utf8 to
      → read_frame is_utf8 limit last
          (to_be 2 (length (meta_of first to)) ++ (meta_of first to ++ behind))
        ≡ read_data is_utf8 limit (if first then 1 else 2) to behind
  unfolding read_frame
  read_frame_front limit last to first behind h =
      let (l, u) = length-meta_of first to in
      let m = meta_of first to in
      let e = read_exact-append 2 (to_be 2 (length m)) (m ++ behind) refl in
      let n = from_be_back 2 (length m) (omega arith) in
      let t1 : leb 4 (length m) ≡ true = ground arith in
      let t2 : leb (length m) 512 ≡ true = ground arith in
      let f = read_exact-append (length m) m behind refl in
      let p = parse_meta-meta_of first to h in rw (read_frame, e, n, t1, t2, f, p) refl

  read_frame-encode :
      (limit : ℕ) (last to : Target) (first : Bool) (bytes rest : List ℕ)
      → IsTarget is_utf8 to
      → length bytes < 65536
      → length bytes ≤ limit
      → read_frame is_utf8 limit last (encode first bytes to ++ rest) ≡ done (packet bytes to rest)
  unfolding encode
  read_frame-encode limit last to first bytes rest h hn hc =
      let m = meta_of first to in
      let tail = to_be 2 (length bytes) ++ bytes in
      let behind = to_be 2 (length bytes) ++ (bytes ++ rest) in
      let whole : encode first bytes to ++ rest ≡ to_be 2 (length m) ++ (m ++ behind) =
        append_assoc (to_be 2 (length m)) (m ++ tail) rest
        ∙ ap (λ x. to_be 2 (length m) ++ x) (append_assoc m tail rest) in
      let s : ℕ = if first then 1 else 2 in
      let status : s ≢ 3 =
        if_intro (λ (k : ℕ). k ≢ 3) first _ _ (λ t. λ q. omega arith) (λ t. λ q. omega arith) in
      ap (read_frame is_utf8 limit last) whole
      ∙ read_frame_front limit last to first behind h
      ∙ read_data_front limit s to bytes rest status hn hc

  -- What the calls of `send` put on the stream.
  abbrev pub sent : Bool → List (List ℕ × Target) → List ℕ
  sent started [] = []
  sent started ((bytes, to) ∷ ps) = (send bytes to started).0 ++ sent (send bytes to started).1 ps

  -- As many calls of `recv`: the datagrams with their senders, and the rest of the stream.
  abbrev pub recvs : ℕ → ℕ → List ℕ → List (List ℕ × Target) × List ℕ
  recvs zero limit bytes = ([], bytes)
  recvs (suc n) limit bytes = elim (recv is_utf8 limit bytes) [
    | packet datagram from rest ↦
        ((datagram, from) ∷ (recvs n limit rest).0, (recvs n limit rest).1)
    | invalid ↦ ([], bytes)
    | ended ↦ ([], bytes)
  ]

  -- A destination and a datagram that fits its size and the buffer.
  abbrev pub IsPacket : ℕ → List ℕ × Target → Type 0
  IsPacket limit (bytes, to) = IsTarget is_utf8 to × (length bytes < 65536) × (length bytes ≤ limit)

  recv-encode :
      (limit : ℕ) (to : Target) (first : Bool) (bytes rest : List ℕ)
      → IsPacket limit (bytes, to)
      → recv is_utf8 limit (encode first bytes to ++ rest) ≡ packet bytes to rest
  unfolding recv recv_loop
  recv-encode limit to first bytes rest (h, hn, hc) =
      rw (recv, recv_loop, read_frame-encode limit nowhere to first bytes rest h hn hc) refl

  recvs_more :
      (n limit : ℕ) (all bytes : List ℕ) (from : Target) (rest : List ℕ)
      → recv is_utf8 limit all ≡ packet bytes from rest
      → recvs (suc n) limit all ≡ ((bytes, from) ∷ (recvs n limit rest).0, (recvs n limit rest).1)
  recvs_more n limit all bytes from rest e = rw (recvs, e) refl

  -- For datagrams of fewer than 65536 bytes that fit the buffer, each to a destination with a 16-bit
  -- port that is an address of its family's width or a name of at most 255 bytes, valid UTF-8 and in
  -- lower case: as many calls of recv as there were calls of send give the datagrams with their
  -- destinations in their order, and leave the bytes that follow them.
  pub recvs-sent :
      (limit : ℕ) (started : Bool) (ps : List (List ℕ × Target)) (rest : List ℕ)
      → All (IsPacket limit) ps
      → recvs (length ps) limit (sent started ps ++ rest) ≡ (ps, rest)
  unfolding send
  recvs-sent limit started [] rest h = refl
  recvs-sent limit started ((bytes, to) ∷ ps) rest (h, hs) =
      let frame = encode (not started) bytes to in
      let first : recv is_utf8 limit ((frame ++ sent true ps) ++ rest)
          ≡ packet bytes to (sent true ps ++ rest) =
        ap (recv is_utf8 limit) (append_assoc frame (sent true ps) rest)
        ∙ recv-encode limit to (not started) bytes (sent true ps ++ rest) h in
      recvs_more (length ps) limit ((frame ++ sent true ps) ++ rest) bytes to (sent true ps ++ rest)
        first
      ∙ ap (λ (r : List (List ℕ × Target) × List ℕ). ((bytes, to) ∷ r.0, r.1))
          (recvs-sent limit true ps rest hs)
