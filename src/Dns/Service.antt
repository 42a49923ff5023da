-- ===== src/Dns/Service.antt =====
-- engine/src/dns.rs: the answer to an intercepted query, and the addresses of a name. What the transports
-- bring back is a parameter, `none` for an error or the end of the time.
pub mod Replies
use aurora_vpn.Prelude.{
  ℕ, zero, suc, ◌+◌, ◌-◌, ◌*◌, ◌/◌, ◌%◌, ◌^◌, ◌≤◌, ◌<◌, min, max, ◌≡◌, refl, sym, ap, ◌∙◌, ◌≢◌, ◌↔◌,
  ◌⊎◌, inl, inr, Bool, true, false, ◌&&◌, ◌||◌, not, Option, none, some, List, [], ◌∷◌, ◌++◌, map,
  append_assoc, append-nil, arith, ltb, leb, ◌==◌, if◌then◌else◌, ltb→lt, lt→ltb, leb→le, ==_iff,
  tests, Bool-cases, Option-cases, length, get_elem?, get_or, take, drop, replicate, length-append,
  length-take, length-drop, take-append-drop, length-map, length-replicate, Eq, ◌=?◌, =?_iff,
  nat_eq, list_beq, list_beq_iff, list_eq, pair_eq, is_some, get, remove, insert, get-remove,
  get-insert, All, IsByte, All-append, to_be, from_be, length-to_be, to_be-IsByte, byte_at,
  byte_at-IsByte, u16_be, slice?, put, length-put, ◌>>=◌, >>=-eq-some, if_intro, insert_by, sort_by,
  min_by, length-insert_by, length-sort_by,
}
use aurora_vpn.Net.{IpAddr, v4, v6, is_ipv4, SocketAddr}
use aurora_vpn.Target.{Target}
use aurora_vpn.Router.{Text, Process, Meta}
use aurora_vpn.Router.Rules.{DnsRule, DnsAction, evaluate}
use aurora_vpn.Dns.Wire.{
  parse_question, empty_reply, answer_with_ip, parse_answers, encode_query, qtype_a, qtype_aaaa,
}
use aurora_vpn.Dns.FakeIp.{FakeIp, allocate, lookup}
use aurora_vpn.Dns.Cache.{Cache, exchange_cached}

pub data Upstream : Type 0 where
  udp : SocketAddr → Upstream
  tcp : Target → Option Text → Upstream
  tls : Target → Text → Option Text → Upstream
  https : Target → Text → Text → Option Text → Upstream
  local : Upstream
  fake_ip : FakeIp → Upstream

pub record Server : Type 0 where
  pub upstream : Upstream
  pub cache : Cache

pub record Dns : Type 0 where
  pub servers : List (Text × Server)
  pub rules : List DnsRule
  pub mode : Text
  pub final_server : Text
  pub ipv4_only : Bool
  pub prefer_ipv4 : Bool
  pub next_id : ℕ

-- The instants at which a call asks the clock.
pub record Clock : Type 0 where
  pub asked : ℕ
  pub swept : ℕ
  pub stored : ℕ

-- `exchange`: only four kinds of server forward a query.
abbrev pub exchange : (Upstream → List ℕ → Option (List ℕ)) → Upstream → List ℕ → Option (List ℕ)
exchange wire local query = none
exchange wire (fake_ip s) query = none
exchange wire u query = wire u query

abbrev pub chosen : Text → DnsAction → Option Text
chosen final_tag DnsAction.refuse = none
chosen final_tag (DnsAction.server tag) = some tag
chosen final_tag DnsAction.rest = some final_tag

abbrev pub replied : List ℕ → ℕ → Option (List ℕ) → List ℕ
replied query end none = empty_reply query end 2
replied query end (some reply) = reply

module _ (wire : Upstream → List ℕ → Option (List ℕ)) (clock : Clock) where
  unfoldable pub ask : Server → List ℕ → List ℕ → ℕ → Option (List ℕ) × Server
  ask s query name qtype =
      let (reply, c) =
        exchange_cached (name, qtype) query (exchange wire s.upstream query) clock.asked clock.swept
          clock.stored s.cache in
      (reply, record s { cache = c })

  -- The answer of a server that the rules have chosen.
  unfoldable pub serve : List ℕ → List ℕ → ℕ → ℕ → Server → List ℕ × Server
  unfolding ask
  serve query name qtype end s = elim s.upstream [
    | fake_ip pool ↦
        (let (ip, pool') = allocate name qtype pool in
          if qtype == qtype_a || qtype == qtype_aaaa
          then (answer_with_ip query end ip 1, record s { upstream = fake_ip pool' })
          else (empty_reply query end 0, s))
    | _ ↦ (let (reply, s') = ask s query name qtype in (replied query end reply, s'))
  ]

  abbrev pub served : List ℕ → List ℕ → ℕ → ℕ → Text → Option Server → Dns → List ℕ × Dns
  served query name qtype end tag none d = (empty_reply query end 2, d)
  served query name qtype end tag (some s) d =
      let (reply, s') = serve query name qtype end s in
      (reply, record d { servers = insert tag s' d.servers })

  abbrev pub dispatch : List ℕ → List ℕ → ℕ → ℕ → Option Text → Dns → List ℕ × Dns
  dispatch query name qtype end none d = (empty_reply query end 3, d)
  dispatch query name qtype end (some tag) d = served query name qtype end tag (get tag d.servers) d

  module _ (lossy : List ℕ → List ℕ) (processes : Text → SocketAddr → Option Process) where
    abbrev pub handle_question : Option (List ℕ × ℕ × ℕ) → List ℕ → Meta → Dns → List ℕ × Meta × Dns
    handle_question none query m d = (empty_reply query (min (length query) 12) 1, m, d)
    handle_question (some (name, qtype, end)) query m d =
        let m1 : Meta = record m { domain = some name; query_type = some qtype } in
        let (m2, action) = evaluate processes d.rules d.mode m1 in
        let (reply, d') = dispatch query name qtype end (chosen d.final_server action) d in
        if d.ipv4_only && qtype == qtype_aaaa
        then (empty_reply query end 0, m1, d)
        else (reply, m2, d')

    unfoldable pub handle_query : List ℕ → Meta → Dns → List ℕ × Meta × Dns
    unfolding serve
    handle_query query m d = handle_question (parse_question lossy query) query m d

abbrev pub server_lookup : IpAddr → Server → Option (List ℕ)
server_lookup a s = elim s.upstream [ fake_ip pool ↦ lookup a pool | _ ↦ none ]

-- `fake_lookup`: the first pool that knows the address.
unfoldable pub fake_lookup : IpAddr → List (Text × Server) → Option (List ℕ)
fake_lookup a [] = none
fake_lookup a ((tag, s) ∷ rest) =
    let later = fake_lookup a rest in
    elim (server_lookup a s) [ some name ↦ some name | none ↦ later ]

-- The addresses that the replies hold, and whether one of the questions failed.
unfoldable pub gather : List (Option (List ℕ)) → List IpAddr
gather [] = []
gather (none ∷ replies) = gather replies
gather (some reply ∷ replies) =
    let rest = gather replies in elim (parse_answers reply) [ none ↦ rest | some a ↦ a.0 ++ rest ]

-- `sort_by_key(|ip| !ip.is_ipv4())`, which is stable.
abbrev pub v4_first : List IpAddr → List IpAddr
v4_first = sort_by (λ a. if is_ipv4 a then 0 else 1)

-- The end of `lookup`: none found is an error.
abbrev pub ordered : Bool → List IpAddr → Option (List IpAddr)
ordered prefer [] = none
ordered prefer (a ∷ ips) = some (if prefer then v4_first (a ∷ ips) else a ∷ ips)

unfoldable pub resolved : Bool → List (Option (List ℕ)) → Option (List IpAddr)
unfolding gather
resolved prefer replies = ordered prefer (gather replies)
