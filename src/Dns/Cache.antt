-- ===== src/Dns/Cache.antt =====
-- engine/src/dns.rs: the cache of a server's answers. Time counts seconds; the three instants of a call
-- are those at which it asks the clock. What comes over the network is an argument, `none` for an error.
pub mod Kept
use aurora_vpn.Prelude.{
  ℕ, zero, suc, ◌+◌, ◌-◌, ◌*◌, ◌/◌, ◌%◌, ◌^◌, ◌≤◌, ◌<◌, min, max, ◌≡◌, refl, sym, ap, ◌∙◌, ◌≢◌, ◌↔◌,
  ◌⊎◌, inl, inr, Bool, true, false, ◌&&◌, ◌||◌, not, Option, none, some, List, [], ◌∷◌, ◌++◌, map,
  append_assoc, append-nil, arith, ltb, leb, ◌==◌, if◌then◌else◌, ltb→lt, lt→ltb, leb→le, ==_iff,
  tests, Bool-cases, Option-cases, length, get_elem?, get_or, take, drop, replicate, length-append,
  length-take, length-drop, take-append-drop, length-map, length-replicate, Eq, ◌=?◌, =?_iff,
  nat_eq, list_beq, list_beq_iff, list_eq, pair_eq, is_some, get, remove, insert, get-remove,
  get-insert, All, IsByte, All-append, to_be, from_be, length-to_be, to_be-IsByte, byte_at,
  byte_at-IsByte, u16_be, slice?, put, length-put, ◌>>=◌, >>=-eq-some, if_intro, insert_by, sort_by,
  min_by, length-insert_by, length-sort_by,
}
use aurora_vpn.Net.{IpAddr}
use aurora_vpn.Dns.Wire.{parse_answers}

abbrev pub cache_max : ℕ
cache_max = 4096

abbrev pub min_ttl : ℕ
min_ttl = 10

abbrev pub max_ttl : ℕ
max_ttl = 3600

-- The name and the type, the answer and the instant until which it holds.
abbrev pub Cache : Type 0
Cache = List ((List ℕ × ℕ) × (List ℕ × ℕ))

unfoldable pub retain : ℕ → Cache → Cache
retain now [] = []
retain now (e ∷ c) = let kept = retain now c in if ltb now e.1.1 then e ∷ kept else kept

unfoldable pub make_room : ℕ → Cache → Cache
unfolding retain
make_room now c =
    if leb cache_max (length c)
    then (let kept = retain now c in if leb cache_max (length kept) then [] else kept)
    else c

-- `reply.get(3).is_some_and(|rc| rc & 0x0f == 0)`
abbrev pub no_error : List ℕ → Bool
no_error reply = elim (get_elem? reply 3) [ none ↦ false | some rc ↦ rc % 16 == 0 ]

-- The time to live of an answer that may be kept.
abbrev pub keep_for : List ℕ → Option ℕ
keep_for reply = parse_answers reply >>= (λ a.
    if not (a.1 == 2 ^ 32 - 1) && no_error reply
    then some (min (max a.1 min_ttl) max_ttl)
    else none)

abbrev pub store : List ℕ × ℕ → List ℕ → ℕ → ℕ → Option ℕ → Cache → Cache
store key reply mid later none c = c
store key reply mid later (some ttl) c = insert key (reply, later + ttl) (make_room mid c)

abbrev pub fetched : List ℕ × ℕ → Option (List ℕ) → ℕ → ℕ → Cache → Option (List ℕ) × Cache
fetched key none mid later c = (none, c)
fetched key (some reply) mid later c = (some reply, store key reply mid later (keep_for reply) c)

-- The entry that still holds, under the new query's identifier.
abbrev pub fresh : List ℕ → ℕ → Option (List ℕ × ℕ) → Option (List ℕ)
fresh query now none = none
fresh query now (some (cached, until)) =
    if ltb now until then some (put cached 0 (take 2 query)) else none

abbrev pub cached_or :
    Option (List ℕ) → List ℕ × ℕ → Option (List ℕ) → ℕ → ℕ → Cache → Option (List ℕ) × Cache
cached_or (some reply) key exchanged mid later c = (some reply, c)
cached_or none key exchanged mid later c = fetched key exchanged mid later c

unfoldable pub exchange_cached :
    List ℕ × ℕ → List ℕ → Option (List ℕ) → ℕ → ℕ → ℕ → Cache → Option (List ℕ) × Cache
unfolding make_room
exchange_cached key query exchanged now mid later c =
    cached_or (fresh query now (get key c)) key exchanged mid later c
