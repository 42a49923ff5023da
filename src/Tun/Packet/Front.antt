-- ===== src/Tun/Packet/Front.antt =====
-- The IPv4 header before and after `rewrite_tcp`.
use aurora_vpn.Prelude.{
  ℕ, ◌+◌, ◌-◌, ◌%◌, ◌≤◌, ◌<◌, ◌≡◌, ◌∙◌, refl, ap, true, List, arith, length, byte_at, to_be, take,
  drop, put,
}
use aurora_vpn.Tun.Packet.{adjust, sum_words}
use aurora_vpn.Tun.Packet.Sums.{words, adjust_lem}
use aurora_vpn.Tun.Packet.Regions.{region, region-put_inside, region-put_before, region-split}
use aurora_vpn.Tun.Packet.Rewrite.{word}
use aurora_vpn.Tun.Packet.Valid.{
  Layout, fixed, written, written_before, written_front, old_addrs, new_addrs, words-src-le,
  words-dst-le, words-to_be, region-two, region-le, word-le,
}

module _ (p : List ℕ) (l4 n : ℕ) (src dst : List ℕ) (sport dport : ℕ)
    (lay : Layout true 12 4 p l4 n src dst sport dport) where
  abbrev pub out : List ℕ
  out = written true 12 4 p l4 n src dst sport dport lay

  q : List ℕ
  q = fixed true 12 4 p l4 n src dst sport dport lay

  old : ℕ
  old = sum_words (take (12 + 4 + 4 - 12) (drop 12 p)) 0

  new : ℕ
  new = sum_words dst (sum_words src 0)

  c : ℕ
  c = adjust (word p 10) old new

  fits : 12 ≤ length p
  fits = omega (arith, lay.fits, lay.header_room)

  c_lem :
      (c ≤ 65535)
      × ((c + words src + words dst) % 65535
          ≡ (region p 10 2 + region p 12 4 + region p 16 4) % 65535)
  unfolding c
  c_lem =
      let a : old ≡ region p 12 4 + region p 16 4 =
        unfold old in old_addrs true 12 4 p l4 n src dst sport dport lay in
      let b : new ≡ words src + words dst =
        unfold new in new_addrs true 12 4 p l4 n src dst sport dport lay in
      let ls : words src ≤ 600000 = words-src-le true 12 4 p l4 n src dst sport dport lay in
      let ld : words dst ≤ 600000 = words-dst-le true 12 4 p l4 n src dst sport dport lay in
      omega (
        arith,
        a,
        b,
        ls,
        ld,
        region-two p 10 fits,
        adjust_lem (word p 10) old new (word-le p 10 lay.bytes)
            (omega (arith, region-le p 12 4 lay.bytes, region-le p 16 4 lay.bytes)) (omega arith),
      )

  q_written : q ≡ put p 10 (to_be 2 c)
  unfolding q fixed c old new
  q_written = refl

  q_sum : region q 0 l4 + region p 10 2 ≡ region p 0 l4 + c
  q_sum = omega (
    arith,
    ap (λ x. region x 0 l4) q_written,
    region-put_inside p 0 l4 10 (to_be 2 c) (omega arith) (omega (arith, lay.header_room))
        (omega (arith, lay.fits)) refl refl,
    words-to_be c c_lem.0,
  )

  -- The header's words keep their sum modulo 65535.
  pub header_sum : region out 0 l4 % 65535 ≡ region p 0 l4 % 65535
  unfolding q
  header_sum = omega (
    arith,
    c_lem,
    q_sum,
    written_before true 12 4 p l4 n src dst sport dport lay 0 l4 (omega arith)
        (omega (arith, lay.addrs_inside)) (omega arith) refl,
  )

  -- The first word is left alone, so a sum that was positive by its version byte stays positive.
  pub header_pos : 16 ≤ byte_at p 0 → 0 < region out 0 l4
  unfolding q
  header_pos h =
      let e : 2 + (l4 - 2) ≡ l4 = omega (arith, lay.header_room) in
      let split : region out 0 (2 + (l4 - 2)) ≡ region out 0 2 + region out 2 (l4 - 2) =
        region-split out 0 2 (l4 - 2) refl in
      let same : region out 0 2 ≡ region p 0 2 =
        written_front true 12 4 p l4 n src dst sport dport lay 0 2 (omega arith)
        ∙ ap (λ x. region x 0 2) q_written
        ∙ region-put_before p 0 2 10 (to_be 2 c) (omega arith) in
      omega (arith, split, ap (region out 0) e, same, region-two p 0 (omega (arith, fits)))
