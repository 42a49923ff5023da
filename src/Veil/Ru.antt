-- ===== src/Veil/Ru.antt =====
-- veil/src/ru.rs: the Russian domains and addresses that the server does not let out.
-- The lines of a list are given as the standard library reads them: the address, if it is one, and
-- the number of bits. A number of a width `w` is below `2 ^ w`.
pub mod Merge
pub mod Networks
pub mod Domains
mod Tests
use aurora_vpn.Prelude.{
  ℕ, zero, suc, ◌+◌, ◌-◌, ◌*◌, ◌/◌, ◌%◌, ◌^◌, ◌≤◌, ◌<◌, min, max, ◌≡◌, refl, sym, ap, ◌∙◌, ◌≢◌, ◌↔◌,
  ◌⊎◌, inl, inr, Bool, true, false, ◌&&◌, ◌||◌, not, Option, none, some, List, [], ◌∷◌, ◌++◌, map,
  append_assoc, append-nil, arith, ltb, leb, ◌==◌, if◌then◌else◌, ltb→lt, lt→ltb, leb→le, ==_iff,
  tests, Bool-cases, Option-cases, length, get_elem?, get_or, take, drop, replicate, length-append,
  length-take, length-drop, take-append-drop, length-map, length-replicate, Eq, ◌=?◌, =?_iff,
  nat_eq, list_beq, list_beq_iff, list_eq, pair_eq, is_some, get, remove, insert, get-remove,
  get-insert, All, IsByte, All-append, to_be, from_be, length-to_be, to_be-IsByte, byte_at,
  byte_at-IsByte, u16_be, slice?, put, length-put, ◌>>=◌, >>=-eq-some, if_intro, insert_by, sort_by,
  min_by, length-insert_by, length-sort_by,
}
use aurora_vpn.Net.{IpAddr, v4, v6}
use aurora_vpn.Ranges.{Range, find, sort_ranges, insert_range}

-- `x.checked_add(1)` below the limit of the width.
abbrev pub next_of : ℕ → ℕ → Option ℕ
next_of limit x = if ltb (x + 1) limit then some (x + 1) else none

abbrev pub meets : ℕ → ℕ → ℕ → Bool
meets limit end start =
    elim (next_of limit end) [ none ↦ false | some n ↦ leb start n ] || leb start end

-- The loop of `merge`: `last` is the last range put out so far.
unfoldable pub merge_loop : ℕ → Range → List Range → List Range
merge_loop limit last [] = last ∷ []
merge_loop limit last (r ∷ rs) =
    let wider = merge_loop limit (last.0, max last.1 r.1) rs in
    let apart = last ∷ merge_loop limit r rs in if meets limit last.1 r.0 then wider else apart

abbrev pub merge_sorted : ℕ → List Range → List Range
merge_sorted limit [] = []
merge_sorted limit (r ∷ rs) = merge_loop limit r rs

unfoldable pub merge : ℕ → List Range → List Range
unfolding merge_loop
merge limit rs = merge_sorted limit (sort_ranges rs)

-- What stands behind the slash of a line.
pub data Bits : Type 0 where
  absent : Bits
  number : ℕ → Bits
  garbage : Bits

-- `bits.parse().ok().or(bits.is_empty().then_some(width)).filter(|b| *b <= width)`
abbrev pub bits_of : ℕ → Bits → Option ℕ
bits_of width absent = some width
bits_of width (number n) = if leb n width then some n else none
bits_of width garbage = none

-- `start = ip & mask` and `start | !mask`
abbrev pub network : ℕ → ℕ → ℕ → Range
network width a bits =
    let size = 2 ^ (width - bits) in (a / size * size, a / size * size + (size - 1))

pub record Line : Type 0 where
  pub addr : Option IpAddr
  pub bits : Bits

pub record CidrSet : Type 0 where
  pub v4 : List Range
  pub v6 : List Range

-- The loop of `parse`: the two lists and the number of bad lines.
unfoldable pub read_lines : List Line → List Range × List Range × ℕ
read_lines [] = ([], [], 0)
read_lines (l ∷ ls) =
    let (a, b, bad) = read_lines ls in
    elim l.addr [
      | none ↦ (a, b, bad + 1)
      | some (v4 ip) ↦ elim (bits_of 32 l.bits) [
        | none ↦ (a, b, bad + 1)
        | some n ↦ (network 32 ip n ∷ a, b, bad)
      ]
      | some (v6 ip) ↦ elim (bits_of 128 l.bits) [
        | none ↦ (a, b, bad + 1)
        | some n ↦ (a, network 128 ip n ∷ b, bad)
      ]
    ]

unfoldable pub parse : List Line → CidrSet × ℕ
unfolding read_lines merge
parse ls =
    let (a, b, bad) = read_lines ls in
    (record { v4 = merge (2 ^ 32) a; v6 = merge (2 ^ 128) b }, bad)

-- `to_ipv4_mapped`: ::ffff:0:0/96
unfoldable pub ipv4_mapped : ℕ → Option ℕ
ipv4_mapped a = if a / 2 ^ 32 == 65535 then some (a % 2 ^ 32) else none

unfoldable pub contains : CidrSet → IpAddr → Bool
unfolding ipv4_mapped
contains s (v4 a) = find s.v4 a
contains s (v6 a) = elim (ipv4_mapped a) [ none ↦ find s.v6 a | some b ↦ find s.v4 b ]
