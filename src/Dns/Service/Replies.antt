-- ===== src/Dns/Service/Replies.antt =====
-- engine/src/dns.rs: what an intercepted query is answered with.
use aurora_vpn.Prelude.{
  ℕ, ◌≤◌, ◌≡◌, refl, inl, inr, true, false, ◌&&◌, ◌||◌, Option, some, List, [], ◌∷◌, arith, ◌==◌,
  Bool-cases, length, =?_iff, nat_eq, list_eq, pair_eq, get, insert, get-insert,
}
use aurora_vpn.Net.{IpAddr, IsIp, SocketAddr}
use aurora_vpn.Router.{Text, Process, Meta}
use aurora_vpn.Router.Rules.{evaluate}
use aurora_vpn.Dns.Wire.{u16_at, parse_question, answer_with_ip, parse_answers, qtype_a, qtype_aaaa}
use aurora_vpn.Dns.Wire.Answers.{parse_answers-answer_with_ip}
use aurora_vpn.Dns.FakeIp.{FakeIp, allocate, lookup}
use aurora_vpn.Dns.FakeIp.Pool.{IsPool, lookup-allocate}
use aurora_vpn.Dns.Service.{Upstream, Server, Dns, Clock, chosen, serve, handle_query, fake_ip}

allocate-IsIp : (name : List ℕ) (qtype : ℕ) (s : FakeIp) → IsIp (allocate name qtype s).0
unfolding allocate
allocate-IsIp name qtype s = elim (Bool-cases (qtype == qtype_aaaa)) [
  | inl t ↦ rw t (omega arith)
  | inr t ↦ rw t (omega arith)
]

-- The server that the rules choose for a question.
abbrev pub server_for : (Text → SocketAddr → Option Process) → List ℕ → ℕ → Meta → Dns → Option Text
server_for processes name qtype m d =
    chosen d.final_server
      (evaluate processes d.rules d.mode
        (record m { domain = some name; query_type = some qtype })).1

-- The address that a pool at `tag` gives away leads back to the name.
abbrev pub Leads : Text → List ℕ → IpAddr → Dns → Type 0
Leads tag name a d =
    (s : Server) × (pool : FakeIp) × (get tag d.servers ≡ some s)
    × (s.upstream ≡ fake_ip pool)
    × (lookup a pool ≡ some name)

-- If the one question of a query is read with its end inside the query, it asks for an address that
-- the settings allow, and the rules give it to a server with a valid pool, then the answer holds
-- exactly one address, for one second, and in that server's pool afterwards this address leads back
-- to the name that was asked for.
pub handle_query_fake :
    (wire : Upstream → List ℕ → Option (List ℕ)) (clock : Clock) (lossy : List ℕ → List ℕ)
    (processes : Text → SocketAddr → Option Process) (query name : List ℕ) (qtype end : ℕ)
    (m : Meta) (d : Dns) (tag : Text) (s : Server) (pool : FakeIp)
    → parse_question lossy query ≡ some (name, qtype, end)
    → u16_at query 4 ≡ some 1
    → end ≤ length query
    → (qtype == qtype_a || qtype == qtype_aaaa) ≡ true
    → (d.ipv4_only && qtype == qtype_aaaa) ≡ false
    → server_for processes name qtype m d ≡ some tag
    → get tag d.servers ≡ some s
    → s.upstream ≡ fake_ip pool
    → IsPool pool
    → (a : IpAddr) × (parse_answers (handle_query wire clock lossy processes query m d).0
        ≡ some (a ∷ [], 1))
      × Leads tag name a (handle_query wire clock lossy processes query m d).2
unfolding handle_query serve insert
handle_query_fake wire clock lossy processes query name qtype end m d tag s pool hq one fits kind
      free by at up p =
    let a = (allocate name qtype pool).0 in
    let pool' = (allocate name qtype pool).1 in
    let s' : Server = record s { upstream = fake_ip pool' } in
    let back = lookup-allocate name qtype pool p in
    let same = (=?_iff tag tag).1 refl in
    let found : get tag (insert tag s' d.servers) ≡ some s' =
      rw (get-insert tag tag s' d.servers, same) refl in
    let answer =
      parse_answers-answer_with_ip lossy query name qtype end a 1 hq one fits
        (allocate-IsIp name qtype pool) (omega arith) in
    let step : handle_query wire clock lossy processes query m d ≡ (
      answer_with_ip query end a 1,
      (evaluate processes d.rules d.mode
          (record m { domain = some name; query_type = some qtype })).0,
      record d { servers = insert tag s' d.servers },
    ) =
      rw (handle_query, hq, free, by, at, serve, up, kind) refl in
    (a, rw step answer, rw step (s', pool', found, refl, back))
