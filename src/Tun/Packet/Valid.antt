-- ===== src/Tun/Packet/Valid.antt =====
-- The sums of a packet before and after `rewrite_tcp`: they differ by a multiple of 65535.
use aurora_vpn.Prelude.{
  ℕ, zero, suc, ◌+◌, ◌-◌, ◌*◌, ◌%◌, ◌≤◌, ◌≡◌, ◌∙◌, refl, ap, Bool, List, [], ◌∷◌, arith, length,
  to_be, take, drop, put, All, IsByte, length-put, length-take, sym, byte_at-IsByte,
}
use aurora_vpn.Tun.Packet.{adjust, add32, sum_words}
use aurora_vpn.Tun.Packet.Sums.{words, adjust_lem, sum_words-words, words-le}
use aurora_vpn.Tun.Packet.Regions.{
  region, region-put_inside, region-put_before, region-put_after, region-split,
}
use aurora_vpn.Tun.Packet.Rewrite.{word, header_fixed, rewritten, length-header_fixed}

pub region-two : (p : List ℕ) (i : ℕ) → i + 2 ≤ length p → region p i 2 ≡ word p i
region-two [] i h = absurd (omega arith)
region-two (x ∷ []) zero h = absurd (omega arith)
region-two (x ∷ y ∷ p) zero h = omega arith
region-two (x ∷ p) (suc i) h =
    let e : suc i + 1 ≡ suc (i + 1) = omega arith in rw e (region-two p i (omega arith))

pub word-le : (p : List ℕ) (i : ℕ) → All IsByte p → word p i ≤ 65535
word-le p i h = omega (arith, byte_at-IsByte p i h, byte_at-IsByte p (i + 1) h)

pub words-to_be : (x : ℕ) → x ≤ 65535 → words (to_be 2 x) ≡ x
words-to_be x h = omega arith

take-drop-IsByte : (p : List ℕ) (i n : ℕ) → All IsByte p → All IsByte (take n (drop i p))
take-drop-IsByte p zero zero h = tt
take-drop-IsByte [] zero (suc n) h = tt
take-drop-IsByte (x ∷ p) zero (suc n) h = (h.0, take-drop-IsByte p zero n h.1)
take-drop-IsByte [] (suc i) zero h = tt
take-drop-IsByte [] (suc i) (suc n) h = tt
take-drop-IsByte (x ∷ p) (suc i) n h = take-drop-IsByte p i n h.1

pub region-le : (p : List ℕ) (i n : ℕ) → All IsByte p → region p i n ≤ 32768 * (n + 1)
region-le p i n h =
    omega (arith, words-le (take n (drop i p)) (take-drop-IsByte p i n h), length-take n (drop i p))

pub region_sum :
    (p : List ℕ) (i n : ℕ)
    → All IsByte p
    → n ≤ 100000
    → sum_words (take n (drop i p)) 0 ≡ region p i n
region_sum p i n h small =
    sum_words-words (take n (drop i p)) 0 (omega (arith, region-le p i n h)) ∙ omega arith

-- The writes of `rewrite` after the header checksum, on any packet `q` that the layout fits.
module _ (q : List ℕ) (l4 at_src len c sport dport : ℕ) (src dst : List ℕ)
    (length_src : length src ≡ len) (length_dst : length dst ≡ len) (inside : at_src + 2 * len ≤ l4)
    (fits : l4 + 20 ≤ length q) (even_len : len % 2 ≡ 0) (even_l4 : l4 % 2 ≡ 0) where
  w2 : List ℕ
  w2 = put q (l4 + 16) (to_be 2 c)

  w3 : List ℕ
  w3 = put w2 at_src src

  w4 : List ℕ
  w4 = put w3 (at_src + len) dst

  w5 : List ℕ
  w5 = put w4 l4 (to_be 2 sport)

  pub w6 : List ℕ
  w6 = put w5 (l4 + 2) (to_be 2 dport)

  n2 : length w2 ≡ length q
  unfolding w2
  n2 = length-put q (l4 + 16) (to_be 2 c)

  n3 : length w3 ≡ length q
  unfolding w3
  n3 = length-put w2 at_src src ∙ n2

  n4 : length w4 ≡ length q
  unfolding w4
  n4 = length-put w3 (at_src + len) dst ∙ n3

  n5 : length w5 ≡ length q
  unfolding w5
  n5 = length-put w4 l4 (to_be 2 sport) ∙ n4

  -- A part in front of the transport header that holds both addresses.
  pub before_lem :
      (i m : ℕ)
      → i ≤ at_src
      → at_src + 2 * len ≤ i + m
      → i + m ≤ l4
      → (at_src - i) % 2 ≡ 0
      → region w6 i m + region q at_src len + region q (at_src + len) len
        ≡ region q i m + words src + words dst
  unfolding w6 w5 w4 w3 w2
  before_lem i m lo hi end even = omega (
    arith,
    region-put_before w5 i m (l4 + 2) (to_be 2 dport) (omega arith),
    region-put_before w4 i m l4 (to_be 2 sport) (omega arith),
    region-put_inside w3 i m (at_src + len) dst (omega arith) (omega arith) (omega (arith, n3))
        (omega arith) (omega arith),
    ap (region w3 (at_src + len)) length_dst,
    region-put_after w2 (at_src + len) len at_src src (omega arith),
    region-put_before q (at_src + len) len (l4 + 16) (to_be 2 c) (omega arith),
    region-put_inside w2 i m at_src src (omega arith) (omega arith) (omega (arith, n2))
        (omega arith) (omega arith),
    ap (region w2 at_src) length_src,
    region-put_before q at_src len (l4 + 16) (to_be 2 c) (omega arith),
    region-put_before q i m (l4 + 16) (to_be 2 c) (omega arith),
  )

  -- A part in front of the addresses.
  pub front_lem : (i m : ℕ) → i + m ≤ at_src → region w6 i m ≡ region q i m
  unfolding w6 w5 w4 w3 w2
  front_lem i m h = omega (
    arith,
    region-put_before w5 i m (l4 + 2) (to_be 2 dport) (omega arith),
    region-put_before w4 i m l4 (to_be 2 sport) (omega arith),
    region-put_before w3 i m (at_src + len) dst (omega arith),
    region-put_before w2 i m at_src src (omega arith),
    region-put_before q i m (l4 + 16) (to_be 2 c) (omega arith),
  )

  -- The transport header and what follows it.
  pub segment_lem :
      (n : ℕ)
      → 20 ≤ n
      → l4 + n ≤ length q
      → region w6 l4 n + region q (l4 + 16) 2 + region q l4 2 + region q (l4 + 2) 2
        ≡ region q l4 n + words (to_be 2 c) + words (to_be 2 sport) + words (to_be 2 dport)
  unfolding w6 w5 w4 w3 w2
  segment_lem n room end = omega (
    arith,
    region-put_inside w5 l4 n (l4 + 2) (to_be 2 dport) (omega arith) (omega arith)
        (omega (arith, n5)) (omega arith) refl,
    region-put_after w4 (l4 + 2) 2 l4 (to_be 2 sport) (omega arith),
    region-put_after w3 (l4 + 2) 2 (at_src + len) dst (omega arith),
    region-put_after w2 (l4 + 2) 2 at_src src (omega arith),
    region-put_before q (l4 + 2) 2 (l4 + 16) (to_be 2 c) (omega arith),
    region-put_inside w4 l4 n l4 (to_be 2 sport) (omega arith) (omega arith) (omega (arith, n4))
        (omega arith) refl,
    region-put_after w3 l4 2 (at_src + len) dst (omega arith),
    region-put_after w2 l4 2 at_src src (omega arith),
    region-put_before q l4 2 (l4 + 16) (to_be 2 c) (omega arith),
    region-put_after w3 l4 n (at_src + len) dst (omega arith),
    region-put_after w2 l4 n at_src src (omega arith),
    region-put_inside q l4 n (l4 + 16) (to_be 2 c) (omega arith) (omega arith) (omega arith)
        (omega arith) refl,
  )

-- What the layout of either family gives. `keeps`: the header correction stays before `at_src`.
pub record Layout (is4 : Bool) (at_src len : ℕ) (p : List ℕ) (l4 n : ℕ) (src dst : List ℕ)
    (sport dport : ℕ) : Type 0 where
  pub bytes : All IsByte p
  pub src_bytes : All IsByte src
  pub dst_bytes : All IsByte dst
  pub length_src : length src ≡ len
  pub length_dst : length dst ≡ len
  pub even_src : at_src % 2 ≡ 0
  pub even_len : len % 2 ≡ 0
  pub even_l4 : l4 % 2 ≡ 0
  pub addrs_inside : at_src + 2 * len ≤ l4
  pub short_addrs : len ≤ 16
  pub header_room : 20 ≤ l4
  pub port_room : 20 ≤ n
  pub fits : l4 + n ≤ length p
  pub small : n ≤ 70000
  pub sport_u16 : sport ≤ 65535
  pub dport_u16 : dport ≤ 65535
  pub keeps :
      (old new i m : ℕ)
      → at_src ≤ i
      → take m (drop i (header_fixed is4 p old new)) ≡ take m (drop i p)

module _ (is4 : Bool) (at_src len : ℕ) (p : List ℕ) (l4 n : ℕ) (src dst : List ℕ) (sport dport : ℕ)
    (lay : Layout is4 at_src len p l4 n src dst sport dport) where
  abbrev at_dst : ℕ
  at_dst = at_src + len

  abbrev addrs : List ℕ
  addrs = take (at_dst + len - at_src) (drop at_src p)

  pub old_addrs : sum_words addrs 0 ≡ region p at_src len + region p at_dst len
  old_addrs =
      let e : at_src + len + len - at_src ≡ len + len = omega arith in
      ap (λ m. sum_words (take m (drop at_src p)) 0) e
      ∙ region_sum p at_src (len + len) lay.bytes (omega (arith, lay.short_addrs))
      ∙ region-split p at_src len len lay.even_len

  pub words-src-le : words src ≤ 600000
  words-src-le = omega (arith, words-le src lay.src_bytes, lay.length_src, lay.short_addrs)

  pub words-dst-le : words dst ≤ 600000
  words-dst-le = omega (arith, words-le dst lay.dst_bytes, lay.length_dst, lay.short_addrs)

  pub new_addrs : sum_words dst (sum_words src 0) ≡ words src + words dst
  new_addrs =
      let e : sum_words src 0 ≡ 0 + words src =
        sum_words-words src 0 (omega (arith, words-src-le)) in
      ap (sum_words dst) e
      ∙ sum_words-words dst (0 + words src) (omega (arith, words-src-le, words-dst-le))
      ∙ omega arith

  unfoldable pub fixed : List ℕ
  fixed = header_fixed is4 p (sum_words addrs 0) (sum_words dst (sum_words src 0))

  fixed_keeps : (i m : ℕ) → at_src ≤ i → region fixed i m ≡ region p i m
  unfolding fixed
  fixed_keeps i m h = ap words (lay.keeps _ _ i m h)

  length-fixed : length fixed ≡ length p
  unfolding fixed
  length-fixed = length-header_fixed is4 p _ _

  check_word : word fixed (l4 + 16) ≡ region p (l4 + 16) 2
  check_word =
      sym (region-two fixed (l4 + 16) (omega (arith, length-fixed, lay.fits, lay.port_room)))
      ∙ fixed_keeps (l4 + 16) 2 (omega (arith, lay.addrs_inside))

  old_ports : sum_words (take 4 (drop l4 fixed)) 0 ≡ region p l4 2 + region p (l4 + 2) 2
  unfolding fixed
  old_ports =
      ap (λ m. sum_words m 0) (lay.keeps _ _ l4 4 (omega (arith, lay.addrs_inside)))
      ∙ region_sum p l4 4 lay.bytes (omega arith)
      ∙ region-split p l4 2 2 refl

  check : ℕ
  check =
      adjust (word fixed (l4 + 16))
        (add32 (sum_words addrs 0) (sum_words (take 4 (drop l4 fixed)) 0))
        (add32 (sum_words dst (sum_words src 0)) (sport + dport))

  check_lem :
      (check ≤ 65535)
      × ((check + words src + words dst + sport + dport) % 65535
          ≡ (region p (l4 + 16) 2
              + region p at_src len
              + region p at_dst len
              + region p l4 2
              + region p (l4 + 2) 2)
            % 65535)
  unfolding check
  check_lem =
      let old : ℕ = add32 (sum_words addrs 0) (sum_words (take 4 (drop l4 fixed)) 0) in
      let new : ℕ = add32 (sum_words dst (sum_words src 0)) (sport + dport) in
      let small_len : (4 ≤ 100000) × (len ≤ 100000) = omega (arith, lay.short_addrs) in
      omega (
        arith,
        adjust_lem (word fixed (l4 + 16)) old new
            (omega (
              arith,
              check_word,
              region-two p (l4 + 16) (omega (arith, lay.fits, lay.port_room)),
              word-le p (l4 + 16) lay.bytes,
            ))
            (omega arith) (omega arith),
        check_word,
        old_addrs,
        new_addrs,
        old_ports,
        words-src-le,
        words-dst-le,
        lay.sport_u16,
        lay.dport_u16,
        region-le p at_src len lay.bytes,
        region-le p at_dst len lay.bytes,
        region-le p l4 2 lay.bytes,
        region-le p (l4 + 2) 2 lay.bytes,
        lay.short_addrs,
      )

  room : l4 + 20 ≤ length fixed
  room = omega (arith, length-fixed, lay.fits, lay.port_room)

  pub written : List ℕ
  written =
      w6 fixed l4 at_src len check sport dport src dst lay.length_src lay.length_dst
        lay.addrs_inside room lay.even_len lay.even_l4

  pub written_before :
      (i m : ℕ)
      → i ≤ at_src
      → at_src + 2 * len ≤ i + m
      → i + m ≤ l4
      → (at_src - i) % 2 ≡ 0
      → region written i m + region p at_src len + region p at_dst len
        ≡ region fixed i m + words src + words dst
  unfolding written
  written_before i m lo hi end even = omega (
    arith,
    before_lem fixed l4 at_src len check sport dport src dst lay.length_src lay.length_dst
        lay.addrs_inside room lay.even_len lay.even_l4 i m lo hi end even,
    fixed_keeps at_src len (omega arith),
    fixed_keeps at_dst len (omega arith),
  )

  written_segment :
      region written l4 n + region p (l4 + 16) 2 + region p l4 2 + region p (l4 + 2) 2
      ≡ region p l4 n + check + sport + dport
  unfolding written
  written_segment =
      let near : at_src ≤ l4 = omega (arith, lay.addrs_inside) in
      omega (
        arith,
        segment_lem fixed l4 at_src len check sport dport src dst lay.length_src lay.length_dst
            lay.addrs_inside room lay.even_len lay.even_l4 n lay.port_room
            (omega (arith, length-fixed, lay.fits)),
        fixed_keeps l4 n near,
        fixed_keeps (l4 + 16) 2 (omega arith),
        fixed_keeps l4 2 near,
        fixed_keeps (l4 + 2) 2 (omega arith),
        words-to_be check check_lem.0,
        words-to_be sport lay.sport_u16,
        words-to_be dport lay.dport_u16,
      )

  -- The pseudo header's addresses and the segment: the sum keeps its value modulo 65535.
  pub segment_sum :
      (region written at_src (2 * len) + region written l4 n) % 65535
      ≡ (region p at_src (2 * len) + region p l4 n) % 65535
  segment_sum =
      let even : (at_src - at_src) % 2 ≡ 0 = omega arith in
      omega (
        arith,
        check_lem,
        written_segment,
        fixed_keeps at_src (2 * len) (omega arith),
        written_before at_src (2 * len) (omega arith) (omega arith) lay.addrs_inside even,
      )

  pub written_front : (i m : ℕ) → i + m ≤ at_src → region written i m ≡ region fixed i m
  unfolding written
  written_front i m h =
      front_lem fixed l4 at_src len check sport dport src dst lay.length_src lay.length_dst
        lay.addrs_inside room lay.even_len lay.even_l4 i m h

  -- It is what `rewrite` returns.
  pub written_lem : written ≡ rewritten is4 at_src at_dst len p l4 src sport dst dport
  unfolding written w6 w5 w4 w3 w2 check fixed
  written_lem = refl
