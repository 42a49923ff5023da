-- ===== src/Rulesets.antt =====
-- engine/src/ruleset.rs: the reading of a set of addresses and the matching of a rule set. A reader takes
-- bytes from the front of what it is given; an end that comes too early and an invalid value are `none`.
-- A set of domains and a regular expression are what they answer to a name.
pub mod Addresses
mod Tests
use aurora_vpn.Prelude.{
  ℕ, zero, suc, ◌+◌, ◌-◌, ◌*◌, ◌/◌, ◌%◌, ◌^◌, ◌≤◌, ◌<◌, min, max, ◌≡◌, refl, sym, ap, ◌∙◌, ◌≢◌, ◌↔◌,
  ◌⊎◌, inl, inr, Bool, true, false, ◌&&◌, ◌||◌, not, Option, none, some, List, [], ◌∷◌, ◌++◌, map,
  append_assoc, append-nil, arith, ltb, leb, ◌==◌, if◌then◌else◌, ltb→lt, lt→ltb, leb→le, ==_iff,
  tests, Bool-cases, Option-cases, length, get_elem?, get_or, take, drop, replicate, length-append,
  length-take, length-drop, take-append-drop, length-map, length-replicate, Eq, ◌=?◌, =?_iff,
  nat_eq, list_beq, list_beq_iff, list_eq, pair_eq, is_some, get, remove, insert, get-remove,
  get-insert, All, IsByte, All-append, to_be, from_be, length-to_be, to_be-IsByte, byte_at,
  byte_at-IsByte, u16_be, slice?, put, length-put, ◌>>=◌, >>=-eq-some, if_intro, insert_by, sort_by,
  min_by, length-insert_by, length-sort_by,
}
use aurora_vpn.Net.{IpAddr, v4, v6}
use aurora_vpn.Router.{Text, any, none_in, is_some_and, has_part}
use aurora_vpn.Ranges.{Range, find, sort_ranges}

abbrev pub max_items : ℕ
max_items = 2 ^ 28

abbrev pub read_exact : ℕ → List ℕ → Option (List ℕ × List ℕ)
read_exact n p = slice? p 0 n >>= (λ bytes. some (bytes, drop n p))

-- `value |= u64::from(b & 0x7f) << shift`: the bits from `shift` on are clear before.
unfoldable pub uvarint_loop : ℕ → ℕ → ℕ → List ℕ → Option (ℕ × List ℕ)
uvarint_loop zero shift value p = none
uvarint_loop (suc rounds) shift value [] = none
uvarint_loop (suc rounds) shift value (b ∷ p) =
    let sum = value + b % 128 * 2 ^ shift % 2 ^ 64 in
    let longer = uvarint_loop rounds (shift + 7) sum p in
    if ltb b 128 then some (sum, p) else longer

-- The shifts 0, 7, ..., 63.
unfoldable pub read_uvarint : List ℕ → Option (ℕ × List ℕ)
unfolding uvarint_loop
read_uvarint p = uvarint_loop 10 0 0 p

unfoldable pub read_len : List ℕ → Option (ℕ × List ℕ)
unfolding read_uvarint
read_len p = read_uvarint p >>= (λ r. if ltb max_items r.0 then none else some r)

abbrev pub read_texts : (List ℕ → List ℕ) → ℕ → List ℕ → Option (List Text × List ℕ)
read_texts lossy zero p = some ([], p)
read_texts lossy (suc n) p = read_len p >>= (λ l.
    read_exact l.0 l.1
    >>= (λ s. read_texts lossy n s.1 >>= (λ rest. some (lossy s.0 ∷ rest.0, rest.1))))

unfoldable pub read_strings : (List ℕ → List ℕ) → List ℕ → Option (List Text × List ℕ)
unfolding read_len
read_strings lossy p = read_len p >>= (λ n. read_texts lossy n.0 n.1)

-- An address with its family: bit 127 marks an IPv4 address.
abbrev pub flag : ℕ
flag = 2 ^ 127

abbrev pub addr_of_len : ℕ → List ℕ → Option (ℕ × List ℕ)
addr_of_len len p =
    if len == 4
    then (read_exact 4 p >>= (λ a. some (from_be a.0 + flag, a.1)))
    else if len == 16
    then read_exact 16 p >>= (λ a. some (from_be a.0, a.1))
    else none

unfoldable pub read_addr : List ℕ → Option (ℕ × List ℕ)
unfolding read_uvarint
read_addr p = read_uvarint p >>= (λ l. addr_of_len l.0 l.1)

abbrev pub is_v4_range : ℕ → ℕ → Bool
is_v4_range from to = leb flag from && leb flag to && from / 2 ^ 32 == 2 ^ 95

-- The ranges of both families, and what is left of the bytes.
abbrev pub add_range : ℕ → ℕ → List Range × List Range × List ℕ → List Range × List Range × List ℕ
add_range from to (a, b, p) =
    if is_v4_range from to then ((from % 2 ^ 32, to % 2 ^ 32) ∷ a, b, p) else (a, (from, to) ∷ b, p)

unfoldable pub read_ranges : ℕ → List ℕ → Option (List Range × List Range × List ℕ)
unfolding read_addr
read_ranges zero p = some ([], [], p)
read_ranges (suc n) p = read_addr p >>= (λ from.
    read_addr from.1 >>= (λ to. read_ranges n to.1 >>= (λ s. some (add_range from.0 to.0 s))))

pub record IpSet : Type 0 where
  pub v4 : List Range
  pub v6 : List Range

abbrev pub sorted : List Range × List Range × List ℕ → IpSet × List ℕ
sorted (a, b, p) = (record { v4 = sort_ranges a; v6 = sort_ranges b }, p)

unfoldable pub read_ip_set : List ℕ → Option (IpSet × List ℕ)
unfolding read_ranges
read_ip_set [] = none
read_ip_set (version ∷ p) =
    if not (version == 1)
    then none
    else (read_exact 8 p >>= (λ n.
        if ltb max_items (from_be n.0)
        then none
        else read_ranges (from_be n.0) n.1 >>= (λ s. some (sorted s))))

unfoldable pub contains : IpSet → IpAddr → Bool
contains s (v4 a) = find s.v4 a
contains s (v6 a) = find s.v6 a

pub record HeadlessRule : Type 0 where
  pub domains : Option (Text → Bool)
  pub keywords : List Text
  pub regexes : List (Text → Bool)
  pub ips : Option IpSet
  pub invert : Bool
  pub unsupported : Bool

abbrev pub differ : Bool → Bool → Bool
differ true b = not b
differ false b = b

abbrev pub domain_hit : HeadlessRule → Text → Bool
domain_hit r d =
    is_some_and r.domains (λ set. set d)
    || any (λ k. has_part k d) r.keywords
    || any (λ re. re d) r.regexes

abbrev pub hit : HeadlessRule → Option Text → Option IpAddr → Bool
hit r domain ip =
    is_some_and domain (domain_hit r) || is_some_and r.ips (λ set. is_some_and ip (contains set))

-- A rule without conditions hits nothing.
abbrev pub has_items : HeadlessRule → Bool
has_items r =
    is_some r.domains || not (none_in r.keywords) || not (none_in r.regexes) || is_some r.ips

unfoldable pub rule_matches : HeadlessRule → Option Text → Option IpAddr → Bool
unfolding contains
rule_matches r domain ip =
    if r.unsupported then false else differ (has_items r && hit r domain ip) r.invert

unfoldable pub set_matches : List HeadlessRule → Option Text → Option IpAddr → Bool
unfolding rule_matches
set_matches rules domain ip = any (λ r. rule_matches r domain ip) rules
