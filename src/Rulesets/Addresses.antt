-- ===== src/Rulesets/Addresses.antt =====
-- engine/src/ruleset.rs: the set of IPv4 addresses that is read contains what the file lists.
use aurora_vpn.Prelude.{
  ℕ, ◌+◌, ◌%◌, ◌^◌, ◌≤◌, ◌<◌, ◌≡◌, refl, ap, ◌∙◌, true, false, some, List, [], ◌∷◌, ◌++◌,
  append_assoc, arith, ltb, length, drop, nat_eq, list_eq, pair_eq, All, to_be, from_be,
}
use aurora_vpn.Prelude.Slices.{from_be_back, slice?-append, drop-length-append}
use aurora_vpn.Net.{v4}
use aurora_vpn.Ranges.{Range, range_le, insert_range, sort_ranges, in_any}
use aurora_vpn.Ranges.Search.{After, Apart, find-in_any}
use aurora_vpn.Rulesets.{
  max_items, read_exact, uvarint_loop, read_uvarint, flag, read_addr, is_v4_range, read_ranges,
  IpSet, read_ip_set, contains,
}

-- The format of a set: its version, the number of its ranges, and their ends, each behind its length.
abbrev pub encode_range : Range → List ℕ
encode_range r = 4 ∷ (to_be 4 r.0 ++ (4 ∷ to_be 4 r.1))

abbrev pub encode_ranges : List Range → List ℕ
encode_ranges [] = []
encode_ranges (r ∷ rs) = encode_range r ++ encode_ranges rs

abbrev pub encode_set : List Range → List ℕ
encode_set rs = 1 ∷ (to_be 8 (length rs) ++ encode_ranges rs)

abbrev pub IsRange : Range → Type 0
IsRange r = (r.0 < 2 ^ 32) × (r.1 < 2 ^ 32)

read_exact-append :
    (bytes p : List ℕ) (n : ℕ) → n ≡ length bytes → read_exact n (bytes ++ p) ≡ some (bytes, p)
read_exact-append bytes p n h =
    let e = slice?-append [] bytes p 0 n refl h in
    let d : drop n (bytes ++ p) ≡ p =
      ap (λ k. drop k (bytes ++ p)) h ∙ drop-length-append bytes p in
    rw e (ap (λ r. some (bytes, r)) d)

read_addr_v4 :
    (a : ℕ) (p : List ℕ) → a < 2 ^ 32 → read_addr (4 ∷ (to_be 4 a ++ p)) ≡ some (a + flag, p)
unfolding read_addr read_uvarint uvarint_loop
read_addr_v4 a p h =
    let e = read_exact-append (to_be 4 a) p 4 refl in
    let back = from_be_back 4 a h in rw (read_addr, e) (ap (λ v. some (v + flag, p)) back)

marked : (a b : ℕ) → a < 2 ^ 32 → b < 2 ^ 32 → is_v4_range (a + flag) (b + flag) ≡ true
marked a b ha hb = ground arith

read_ranges-encode_ranges :
    (rs : List Range) (p : List ℕ)
    → All IsRange rs
    → read_ranges (length rs) (encode_ranges rs ++ p) ≡ some (rs, [], p)
unfolding read_ranges
read_ranges-encode_ranges [] p h = refl
read_ranges-encode_ranges (r ∷ rs) p ((ha, hb), h) =
    let rest = encode_ranges rs ++ p in
    let e1 = read_addr_v4 r.0 (4 ∷ (to_be 4 r.1 ++ rest)) ha in
    let e2 = read_addr_v4 r.1 rest hb in
    let ih = read_ranges-encode_ranges rs p h in
    let m = marked r.0 r.1 ha hb in
    let low1 : (r.0 + flag) % 2 ^ 32 ≡ r.0 = omega arith in
    let low2 : (r.1 + flag) % 2 ^ 32 ≡ r.1 = omega arith in
    rw (read_ranges, e1, e2, ih, m, low1, low2) refl

insert_first : (r : Range) (rs : List Range) → After r.1 rs → r.0 ≤ r.1 → insert_range r rs ≡ r ∷ rs
unfolding insert_range
insert_first r [] h o = refl
insert_first r (s ∷ rs) h o =
    let t : range_le r s ≡ true = ground (arith, h.0) in rw (insert_range, t) refl

-- Ranges that stand apart and in order are sorted.
sort_ranges-Apart : (rs : List Range) → Apart rs → sort_ranges rs ≡ rs
unfolding sort_ranges
sort_ranges-Apart [] h = refl
sort_ranges-Apart (r ∷ rs) (o, after, h) = rw (sort_ranges-Apart rs h) (insert_first r rs after o)

-- For at most 2^28 IPv4 ranges that stand apart and in order, a set in its file format is read, up
-- to its end and whatever bytes follow, and the set contains an IPv4 address exactly if one of the
-- ranges does.
pub read_ip_set-encode_set :
    (rs : List Range) (p : List ℕ)
    → All IsRange rs
    → Apart rs
    → length rs ≤ max_items
    → (s : IpSet) × (read_ip_set (encode_set rs ++ p) ≡ some (s, p))
      × ((x : ℕ) → contains s (v4 x) ≡ in_any x rs)
unfolding read_ip_set contains sort_ranges
read_ip_set-encode_set rs p h o small =
    let n = length rs in
    let e0 = append_assoc (to_be 8 n) (encode_ranges rs) p in
    let e1 = read_exact-append (to_be 8 n) (encode_ranges rs ++ p) 8 refl in
    let back : from_be (to_be 8 n) ≡ n = from_be_back 8 n (omega arith) in
    let t : ltb max_items n ≡ false = ground arith in
    let e2 = read_ranges-encode_ranges rs p h in
    let s : IpSet = record { v4 = rs; v6 = [] } in
    let same = sort_ranges-Apart rs o in
    (s, rw (read_ip_set, e1, back, t, e2, same) refl, λ x. find-in_any rs x o)
