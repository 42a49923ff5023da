-- ===== src/Dns/Cache/Kept.antt =====
-- engine/src/dns.rs: what the cache keeps, and for how long.
use aurora_vpn.Prelude.{
  ℕ, ◌+◌, ◌≤◌, ◌<◌, ◌≡◌, refl, inl, inr, true, Option, none, some, List, arith, ltb, Bool-cases,
  Option-cases, length, take, =?_iff, nat_eq, list_eq, pair_eq, get, insert, get-insert, put,
  length-remove-le,
}
use aurora_vpn.Dns.Cache.{Cache, cache_max, make_room, keep_for, fetched, fresh, exchange_cached}

length-make_room : (now : ℕ) (c : Cache) → length (make_room now c) < cache_max
unfolding make_room
length-make_room now c = ground arith

fetched_bound :
    (key : List ℕ × ℕ) (exchanged : Option (List ℕ)) (mid later : ℕ) (c : Cache)
    → length c ≤ cache_max
    → length (fetched key exchanged mid later c).1 ≤ cache_max
unfolding insert
fetched_bound key none mid later c h = h
fetched_bound key (some reply) mid later c h = elim (Option-cases (keep_for reply)) [
  | inl e ↦ rw e h
  | inr (ttl, e) ↦
      (let room = make_room mid c in
        let small = length-make_room mid c in
        let fewer = length-remove-le key room in rw e (omega arith))
]

-- A cache of at most 4096 entries has at most 4096 entries after a question, whatever the network
-- brings.
pub exchange_cached_bound :
    (key : List ℕ × ℕ) (query : List ℕ) (exchanged : Option (List ℕ)) (now mid later : ℕ)
    (c : Cache)
    → length c ≤ cache_max
    → length (exchange_cached key query exchanged now mid later c).1 ≤ cache_max
unfolding exchange_cached insert
exchange_cached_bound key query exchanged now mid later c h =
    elim (Option-cases (fresh query now (get key c))) [
      | inr (r, e) ↦ rw (exchange_cached, e) h
      | inl e ↦ rw (exchange_cached, e) (fetched_bound key exchanged mid later c h)
    ]

-- If a question is not in the cache and the network brings a reply that may be kept, the same
-- question is answered with this reply under the new query's identifier, whatever the network brings
-- then, before the time of the reply has run out.
pub exchange_cached_again :
    (key : List ℕ × ℕ) (query query' reply : List ℕ) (exchanged : Option (List ℕ))
    (now mid later now' mid' later' ttl : ℕ) (c : Cache)
    → fresh query now (get key c) ≡ none
    → keep_for reply ≡ some ttl
    → now' < later + ttl
    → (exchange_cached key query' exchanged now' mid' later'
        (exchange_cached key query (some reply) now mid later c).1).0
      ≡ some (put reply 0 (take 2 query'))
unfolding exchange_cached
exchange_cached_again key query query' reply exchanged now mid later now' mid' later' ttl c miss
      keep h =
    let first : exchange_cached key query (some reply) now mid later c
        ≡ (some reply, insert key (reply, later + ttl) (make_room mid c)) =
      rw (exchange_cached, miss, keep) refl in
    let same = (=?_iff key key).1 refl in
    let live : ltb now' (later + ttl) ≡ true = ground arith in
    let found : get key (insert key (reply, later + ttl) (make_room mid c))
        ≡ some (reply, later + ttl) =
      rw (get-insert key key (reply, later + ttl) (make_room mid c), same) refl in
    rw first (rw (exchange_cached, found, live) refl)

-- An answer that is given while the network fails is one that the cache holds for this question and
-- that has not run out, under the query's identifier.
pub exchange_cached_offline :
    (key : List ℕ × ℕ) (query reply : List ℕ) (now mid later : ℕ) (c : Cache)
    → (exchange_cached key query none now mid later c).0 ≡ some reply
    → (cached : List ℕ) × (until : ℕ) × (get key c ≡ some (cached, until))
      × (now < until)
      × (reply ≡ put cached 0 (take 2 query))
unfolding exchange_cached
exchange_cached_offline key query reply now mid later c e = elim (Option-cases (get key c)) [
  | inl h ↦ (let e2 = rw (exchange_cached, h) at e in absurd (cc))
  | inr ((cached, until), h) ↦ elim (Bool-cases (ltb now until)) [
    | inl t ↦ (let e2 = rw (exchange_cached, h, t) at e in (cached, until, h, ground arith, cc))
    | inr t ↦ (let e2 = rw (exchange_cached, h, t) at e in absurd (cc))
  ]
]
