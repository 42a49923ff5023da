-- ===== src/Dns/Tests.antt =====
-- engine/src/dns.rs: the theorems at concrete messages.
use aurora_vpn.Prelude.{
  ℕ, ◌*◌, ◌^◌, ◌≤◌, ◌<◌, ◌≡◌, refl, true, false, Option, none, some, List, [], ◌∷◌, arith, length,
  nat_eq, list_eq, pair_eq, get, put,
}
use aurora_vpn.Net.{IpAddr, v4}
use aurora_vpn.Router.Rules.{evaluate}
use aurora_vpn.Router.{Meta}
use aurora_vpn.Dns.Wire.{parse_question, encode_query, answer_with_ip, parse_answers, trim_end}
use aurora_vpn.Dns.Wire.Queries.{parse_question-encode_query}
use aurora_vpn.Dns.Wire.Answers.{parse_answers-answer_with_ip}
use aurora_vpn.Dns.FakeIp.{FakeIp, fake_new, index_for}
use aurora_vpn.Dns.FakeIp.Pool.{IsPool, index_for-IsPool}
use aurora_vpn.Dns.Cache.{Cache, cache_max, exchange_cached}
use aurora_vpn.Dns.Cache.Kept.{
  exchange_cached_bound, exchange_cached_again, exchange_cached_offline,
}
use aurora_vpn.Dns.Service.{Upstream, Server, Dns, Clock, handle_query, fake_ip}
use aurora_vpn.Dns.Service.Replies.{Leads, handle_query_fake}

abbrev same : List ℕ → List ℕ
same l = l

-- ya.ru
abbrev name : List ℕ
name = 121 ∷ 97 ∷ 46 ∷ 114 ∷ 117 ∷ []

abbrev query : List ℕ
query =
    0 ∷ 7 ∷ 1 ∷ 0 ∷ 0 ∷ 1 ∷ 0 ∷ 0 ∷ 0 ∷ 0 ∷ 0 ∷ 0 ∷ 2 ∷ 121 ∷ 97 ∷ 2 ∷ 114 ∷ 117 ∷ 0 ∷ 0 ∷ 1 ∷ 0 ∷ 1
    ∷ []

encoded : encode_query name 1 7 ≡ query
unfolding encode_query
encoded = refl

parse_question-encode_query_example :
    parse_question same (encode_query name 1 7)
    ≡ some (trim_end name, 1, length (encode_query name 1 7))
parse_question-encode_query_example =
    parse_question-encode_query same name 1 7
      (((omega arith, omega arith, refl), ((omega arith, omega arith, refl), tt)), omega arith)
      (omega arith)

question : parse_question same query ≡ some (name, 1, 23)
unfolding parse_question
question = refl

parse_answers-answer_with_ip_example :
    parse_answers (answer_with_ip query 23 (v4 134744072) 60) ≡ some (v4 134744072 ∷ [], 60)
parse_answers-answer_with_ip_example =
    parse_answers-answer_with_ip same query name 1 23 (v4 134744072) 60 question refl (omega arith)
      (omega arith) (omega arith)

-- 198.18.0.0/15 and fc00::
abbrev pool : FakeIp
pool = record {
  v4_base = 3323068416;
  v4_size = 131072;
  v6_base = 252 * 2 ^ 120;
  next = 2;
  by_name = [];
  by_index = [];
}

pool_new : fake_new 3323068416 15 (252 * 2 ^ 120) ≡ pool
unfolding fake_new
pool_new = refl

pool-IsPool : IsPool pool
unfolding get
pool-IsPool = record {
  forth = λ name i e. absurd (cc);
  back = λ name i e. absurd (cc);
  within = λ name i e. absurd (cc);
  sized = (omega arith, omega arith);
  room4 = omega arith;
  room6 = omega arith;
}

index_for-IsPool_example : IsPool (index_for name pool).1
index_for-IsPool_example = index_for-IsPool name pool pool-IsPool

abbrev good_reply : List ℕ
good_reply =
    0 ∷ 7 ∷ 129 ∷ 128 ∷ 0 ∷ 0 ∷ 0 ∷ 1 ∷ 0 ∷ 0 ∷ 0 ∷ 0 ∷ 192 ∷ 12 ∷ 0 ∷ 1 ∷ 0 ∷ 1 ∷ 0 ∷ 0 ∷ 0 ∷ 60
    ∷ 0 ∷ 4 ∷ 8 ∷ 8 ∷ 8 ∷ 8 ∷ []

exchange_cached_bound_example :
    length (exchange_cached (name, 1) query (some good_reply) 5 6 7 []).1 ≤ cache_max
exchange_cached_bound_example =
    exchange_cached_bound (name, 1) query (some good_reply) 5 6 7 [] (omega arith)

exchange_cached_again_example :
    (exchange_cached
      (name, 1)
      (1 ∷ 9 ∷ [])
      none
      20
      20
      20
      (exchange_cached (name, 1) query (some good_reply) 5 6 7 []).1).0
    ≡ some (put good_reply 0 (1 ∷ 9 ∷ []))
unfolding parse_answers get
exchange_cached_again_example =
    exchange_cached_again (name, 1) query (1 ∷ 9 ∷ []) good_reply none 5 6 7 20 20 20 60 [] refl
      refl (omega arith)

abbrev kept : Cache
kept = ((name, 1), (good_reply, 67)) ∷ []

offline :
    (exchange_cached (name, 1) (1 ∷ 9 ∷ []) none 20 20 20 kept).0
    ≡ some (put good_reply 0 (1 ∷ 9 ∷ []))
unfolding exchange_cached get
offline = refl

exchange_cached_offline_example :
    (cached : List ℕ) × (until : ℕ) × (get (name, 1) kept ≡ some (cached, until))
    × (20 < until)
    × (put good_reply 0 (1 ∷ 9 ∷ []) ≡ put cached 0 (1 ∷ 9 ∷ []))
exchange_cached_offline_example =
    exchange_cached_offline (name, 1) (1 ∷ 9 ∷ []) (put good_reply 0 (1 ∷ 9 ∷ [])) 20 20 20 kept
      offline

abbrev server : Server
server = record { upstream = fake_ip pool; cache = [] }

abbrev dns : Dns
dns = record {
  servers = ([], server) ∷ [];
  rules = [];
  mode = [];
  final_server = [];
  ipv4_only = false;
  prefer_ipv4 = true;
  next_id = 1;
}

abbrev meta : Meta
meta = record {
  network = [];
  inbound = none;
  source = none;
  destination = none;
  domain = none;
  protocol = none;
  query_type = none;
  resolved_ip = none;
  process = none;
}

abbrev silent : Upstream → List ℕ → Option (List ℕ)
silent u q = none

abbrev clock : Clock
clock = record { asked = 1; swept = 1; stored = 1 }

handle_query_fake_example :
    (a : IpAddr) × (parse_answers (handle_query silent clock same (λ t s. none) query meta dns).0
      ≡ some (a ∷ [], 1))
    × Leads [] name a (handle_query silent clock same (λ t s. none) query meta dns).2
unfolding get evaluate
handle_query_fake_example =
    handle_query_fake silent clock same (λ t s. none) query name 1 23 meta dns [] server pool
      question refl (omega arith) refl refl refl refl refl pool-IsPool
