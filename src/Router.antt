-- ===== src/Router.antt =====
-- engine/src/router.rs: the rules of routing and of DNS, in the order of the settings. Texts are
-- bytes. A rule set is what it answers to a domain and an address; the look-up of a process in the
-- system and the parsing of an address from text are parameters.
pub mod Rules
pub mod Match
mod Tests
use aurora_vpn.Prelude.{
  ℕ, zero, suc, ◌+◌, ◌-◌, ◌*◌, ◌/◌, ◌%◌, ◌^◌, ◌≤◌, ◌<◌, min, max, ◌≡◌, refl, sym, ap, ◌∙◌, ◌≢◌, ◌↔◌,
  ◌⊎◌, inl, inr, Bool, true, false, ◌&&◌, ◌||◌, not, Option, none, some, List, [], ◌∷◌, ◌++◌, map,
  append_assoc, append-nil, arith, ltb, leb, ◌==◌, if◌then◌else◌, ltb→lt, lt→ltb, leb→le, ==_iff,
  tests, Bool-cases, Option-cases, length, get_elem?, get_or, take, drop, replicate, length-append,
  length-take, length-drop, take-append-drop, length-map, length-replicate, Eq, ◌=?◌, =?_iff,
  nat_eq, list_beq, list_beq_iff, list_eq, pair_eq, is_some, get, remove, insert, get-remove,
  get-insert, All, IsByte, All-append, to_be, from_be, length-to_be, to_be-IsByte, byte_at,
  byte_at-IsByte, u16_be, slice?, put, length-put, ◌>>=◌, >>=-eq-some, if_intro, insert_by, sort_by,
  min_by, length-insert_by, length-sort_by,
}
use aurora_vpn.Net.{IpAddr, v4, v6, SocketAddr}
use aurora_vpn.Target.{Target, ip, to_lower}

abbrev pub Text : Type 0
Text = List ℕ

pub record Process : Type 0 where
  pub name_lower : Text
  pub path_lower : Text
  pub path : Text

pub record Meta : Type 0 where
  pub network : Text
  pub inbound : Option Text
  pub source : Option SocketAddr
  pub destination : Option Target
  pub domain : Option Text
  pub protocol : Option Text
  pub query_type : Option ℕ
  pub resolved_ip : Option IpAddr
  pub process : Option (Option Process)

abbrev pub or_else {ℓ} : {A : Type ℓ} → Option A → Option A → Option A
or_else (some a) b = some a
or_else none b = b

unfoldable pub dest_ip : Meta → Option IpAddr
dest_ip m = or_else (m.destination >>= ip) m.resolved_ip

-- The process is looked up once and remembered, a failure too.
unfoldable pub process : (Text → SocketAddr → Option Process) → Meta → Meta × Option Process
process lookup m = elim m.process [
  | some found ↦ (m, found)
  | none ↦ (let found = m.source >>= lookup m.network in (record m { process = some found }, found))
]

-- `a & mask` for the mask of the first `bits` of a width: the last bits are cleared.
abbrev pub masked : ℕ → ℕ → ℕ → ℕ
masked width bits a = a / 2 ^ (width - bits) * 2 ^ (width - bits)

-- A network: its address, which tells the family, and how many bits its mask sets.
pub record Cidr : Type 0 where
  pub addr : IpAddr
  pub bits : ℕ

-- `Cidr::parse`, given the address and the number of bits that the text holds.
unfoldable pub new_cidr : IpAddr → Option ℕ → Cidr
new_cidr (v4 a) bits =
    let n = min (elim bits [ none ↦ 32 | some b ↦ b ]) 32 in
    record { addr = v4 (masked 32 n a); bits = n }
new_cidr (v6 a) bits =
    let n = min (elim bits [ none ↦ 128 | some b ↦ b ]) 128 in
    record { addr = v6 (masked 128 n a); bits = n }

unfoldable pub contains : Cidr → IpAddr → Bool
contains c (v4 a) = elim c.addr [ v4 b ↦ masked 32 c.bits a == b | v6 b ↦ false ]
contains c (v6 a) = elim c.addr [ v6 b ↦ masked 128 c.bits a == b | v4 b ↦ false ]

abbrev pub within : ℕ → ℕ → ℕ → Bool
within lo a hi = leb lo a && leb a hi

-- The tests of std::net on an IPv4 address and the two networks of the code, by their first octets.
abbrev pub private_v4 : ℕ → ℕ → ℕ → Bool
private_v4 a b whole =
    a == 10
    || a == 172 && within 16 b 31
    || a == 192 && b == 168
    || a == 127
    || a == 169 && b == 254
    || whole == 4294967295
    || within 224 a 239
    || whole == 0
    || a == 100 && b / 64 == 1
    || a == 198 && b / 2 == 9

-- The same for IPv6, by the first segment.
abbrev pub private_v6 : ℕ → ℕ → Bool
private_v6 s whole = whole == 1 || s / 256 == 255 || whole == 0 || s / 512 == 126 || s / 64 == 1018

unfoldable pub is_private : IpAddr → Bool
is_private (v4 a) = private_v4 (a / 2 ^ 24 % 256) (a / 2 ^ 16 % 256) a
is_private (v6 a) = private_v6 (a / 2 ^ 112 % 65536) a

abbrev pub member : Text → List Text → Bool
member t [] = false
member t (x ∷ xs) = list_beq ◌==◌ x t || member t xs

-- `trim_start_matches('.')`
abbrev pub trim_dots : Text → Text
trim_dots [] = []
trim_dots (c ∷ t) = let rest = trim_dots t in if c == 46 then rest else c ∷ t

abbrev pub suffix_set : List Text → List Text
suffix_set = map (λ s. to_lower (trim_dots s))

-- The parts of a name behind its dots, the nearest first: the tails that `split_once` leaves.
abbrev pub parents : Text → List Text
parents [] = []
parents (c ∷ t) = let rest = parents t in if c == 46 then t ∷ rest else rest

abbrev pub any_member : List Text → List Text → Bool
any_member [] set = false
any_member (t ∷ ts) set = member t set || any_member ts set

unfoldable pub suffix_matches : List Text → Text → Bool
suffix_matches set name = any_member (name ∷ parents name) set

abbrev pub starts_with : Text → Text → Bool
starts_with [] t = true
starts_with (k ∷ ks) [] = false
starts_with (k ∷ ks) (c ∷ t) = k == c && starts_with ks t

-- `d.contains(k)`
abbrev pub has_part : Text → Text → Bool
has_part k [] = starts_with k []
has_part k (c ∷ t) = starts_with k (c ∷ t) || has_part k t

abbrev pub any {ℓ} : {A : Type ℓ} → (A → Bool) → List A → Bool
any p [] = false
any p (x ∷ xs) = p x || any p xs

abbrev pub none_in {ℓ} : {A : Type ℓ} → List A → Bool
none_in [] = true
none_in (x ∷ xs) = false

abbrev pub is_some_and {ℓ} : {A : Type ℓ} → Option A → (A → Bool) → Bool
is_some_and none p = false
is_some_and (some a) p = p a

pub record Matcher : Type 0 where
  pub process_name : List Text
  pub process_path : List Text
  pub domain : List Text
  pub suffix : List Text
  pub keyword : List Text
  pub cidr : List Cidr
  pub rule_sets : List (Option Text → Option IpAddr → Bool)
  pub ip_is_private : Bool
  pub protocols : List Text
  pub query_types : List ℕ
  pub inbounds : List Text
  pub clash_mode : Option Text
  pub broken : Bool

-- `eq_ignore_ascii_case`
abbrev pub same_text : Text → Text → Bool
same_text a b = list_beq ◌==◌ (to_lower a) (to_lower b)

-- The conditions before the address: the rule is broken, the mode, protocol, query type and inbound.
unfoldable pub passes : Matcher → Meta → Text → Bool
passes r m mode =
    not r.broken
    && elim r.clash_mode [ none ↦ true | some wanted ↦ same_text wanted mode ]
    && (none_in r.protocols || is_some_and m.protocol (λ p. member p r.protocols))
    && (none_in r.query_types || is_some_and m.query_type (λ q. any (λ w. w == q) r.query_types))
    && (none_in r.inbounds || is_some_and m.inbound (λ i. member i r.inbounds))

unfoldable pub has_address_items : Matcher → Bool
has_address_items r =
    not (none_in r.domain)
    || not (none_in r.suffix)
    || not (none_in r.keyword)
    || not (none_in r.cidr)
    || not (none_in r.rule_sets)
    || r.ip_is_private

unfoldable pub domain_hit : Matcher → Text → Bool
unfolding suffix_matches
domain_hit r d = member d r.domain || suffix_matches r.suffix d || any (λ k. has_part k d) r.keyword

unfoldable pub ip_hit : Matcher → IpAddr → Bool
unfolding contains is_private
ip_hit r a = any (λ c. contains c a) r.cidr || r.ip_is_private && is_private a

-- The address conditions, joined by OR.
unfoldable pub address_hit : Matcher → Meta → Bool
unfolding domain_hit ip_hit dest_ip
address_hit r m =
    is_some_and m.domain (domain_hit r)
    || is_some_and (dest_ip m) (ip_hit r)
    || any (λ set. set m.domain (dest_ip m)) r.rule_sets

unfoldable pub process_hit : Matcher → Process → Bool
process_hit r p = member p.name_lower r.process_name || member p.path_lower r.process_path

module _ (lookup : Text → SocketAddr → Option Process) where
  -- `Matcher::matches`: the process is looked up only when the rest has matched.
  unfoldable pub matches : Matcher → Meta → Text → Meta × Bool
  unfolding passes has_address_items address_hit process process_hit
  matches r m mode =
      if not (passes r m mode)
      then (m, false)
      else if has_address_items r && not (address_hit r m)
      then (m, false)
      else if none_in r.process_name && none_in r.process_path
      then (m, true)
      else (let (m', found) = process lookup m in (m', is_some_and found (process_hit r)))
