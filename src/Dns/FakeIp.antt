-- ===== src/Dns/FakeIp.antt =====
-- engine/src/dns.rs: the pool of addresses that stand for names. A call holds the locks from its first
-- look at the maps to its last change of them, so it is one step.
pub mod Pool
use aurora_vpn.Prelude.{
  ℕ, zero, suc, ◌+◌, ◌-◌, ◌*◌, ◌/◌, ◌%◌, ◌^◌, ◌≤◌, ◌<◌, min, max, ◌≡◌, refl, sym, ap, ◌∙◌, ◌≢◌, ◌↔◌,
  ◌⊎◌, inl, inr, Bool, true, false, ◌&&◌, ◌||◌, not, Option, none, some, List, [], ◌∷◌, ◌++◌, map,
  append_assoc, append-nil, arith, ltb, leb, ◌==◌, if◌then◌else◌, ltb→lt, lt→ltb, leb→le, ==_iff,
  tests, Bool-cases, Option-cases, length, get_elem?, get_or, take, drop, replicate, length-append,
  length-take, length-drop, take-append-drop, length-map, length-replicate, Eq, ◌=?◌, =?_iff,
  nat_eq, list_beq, list_beq_iff, list_eq, pair_eq, is_some, get, remove, insert, get-remove,
  get-insert, All, IsByte, All-append, to_be, from_be, length-to_be, to_be-IsByte, byte_at,
  byte_at-IsByte, u16_be, slice?, put, length-put, ◌>>=◌, >>=-eq-some, if_intro, insert_by, sort_by,
  min_by, length-insert_by, length-sort_by,
}
use aurora_vpn.Net.{IpAddr, v4, v6}
use aurora_vpn.Dns.Wire.{qtype_aaaa}

pub record FakeIp : Type 0 where
  pub v4_base : ℕ
  pub v4_size : ℕ
  pub v6_base : ℕ
  pub next : ℕ
  pub by_name : List (List ℕ × ℕ)
  pub by_index : List (ℕ × List ℕ)

-- `1u32 << (32 - bits.clamp(8, 30))`, of the addresses that the options give.
unfoldable pub fake_new : ℕ → ℕ → ℕ → FakeIp
fake_new base bits base6 = record {
  v4_base = base;
  v4_size = 2 ^ (32 - min (max bits 8) 30);
  v6_base = base6;
  next = 2;
  by_name = [];
  by_index = [];
}

abbrev pub forget : Option (List ℕ) → List (List ℕ × ℕ) → List (List ℕ × ℕ)
forget none names = names
forget (some old) names = remove old names

-- The entry that an index had goes, with its name.
unfoldable pub take_index : List ℕ → ℕ → FakeIp → FakeIp
take_index name index s = record {
  v4_base = s.v4_base;
  v4_size = s.v4_size;
  v6_base = s.v6_base;
  next = (s.next + 1) % 2 ^ 32;
  by_name = insert name index (forget (get index s.by_index) s.by_name);
  by_index = insert index name s.by_index;
}

abbrev pub indexed : Option ℕ → List ℕ → FakeIp → ℕ × FakeIp
indexed (some index) name s = (index, s)
indexed none name s = (s.next % max s.v4_size 4, take_index name (s.next % max s.v4_size 4) s)

unfoldable pub index_for : List ℕ → FakeIp → ℕ × FakeIp
index_for name s = indexed (get name s.by_name) name s

-- The sums are of machine integers.
abbrev pub fake_address : FakeIp → ℕ → ℕ → IpAddr
fake_address s qtype index =
    if qtype == qtype_aaaa
    then v6 ((s.v6_base + index) % 2 ^ 128)
    else v4 ((s.v4_base + index) % 2 ^ 32)

unfoldable pub allocate : List ℕ → ℕ → FakeIp → IpAddr × FakeIp
allocate name qtype s = let (index, s2) = index_for name s in (fake_address s2 qtype index, s2)

unfoldable pub lookup : IpAddr → FakeIp → Option (List ℕ)
lookup (v4 v) s =
    let found = get (v - s.v4_base) s.by_index in
    if ltb v s.v4_base || leb s.v4_size (v - s.v4_base) then none else found
lookup (v6 v) s =
    let found = get ((v - s.v6_base) % 2 ^ 32) s.by_index in
    if ltb v s.v6_base || leb s.v4_size (v - s.v6_base) then none else found
