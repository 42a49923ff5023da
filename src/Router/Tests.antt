-- ===== src/Router/Tests.antt =====
-- A router of one rule that sends everything of the suffix "ru" directly.
use aurora_vpn.Prelude.{◌≡◌, false, Option, none, some, [], ◌∷◌, drop, nat_eq, list_eq, pair_eq}
use aurora_vpn.Net.{SocketAddr}
use aurora_vpn.Router.{Text, Meta, Process, Matcher}
use aurora_vpn.Router.Rules.{Router, route, next}
use aurora_vpn.Router.Match.{first_match, next_lem}

abbrev ru : Text
ru = 114 ∷ 117 ∷ []

abbrev matcher : Matcher
matcher = record {
  process_name = [];
  process_path = [];
  domain = [];
  suffix = ru ∷ [];
  keyword = [];
  cidr = [];
  rule_sets = [];
  ip_is_private = false;
  protocols = [];
  query_types = [];
  inbounds = [];
  clash_mode = none;
  broken = false;
}

abbrev router : Router
router = record {
  rules = record { matcher = matcher; action = route (100 ∷ []) } ∷ [];
  final_outbound = 112 ∷ [];
  mode = [];
}

-- A connection to "a.ru".
abbrev connection : Meta
connection = record {
  network = [];
  inbound = none;
  source = none;
  destination = none;
  domain = some (97 ∷ 46 ∷ ru);
  protocol = none;
  query_type = none;
  resolved_ip = none;
  process = none;
}

abbrev no_process : Text → SocketAddr → Option Process
no_process network source = none

next_lem_example :
    (next no_process router connection 0).1
    ≡ first_match no_process (drop 0 router.rules) 0 router.final_outbound router.mode connection
next_lem_example = next_lem no_process router connection 0
