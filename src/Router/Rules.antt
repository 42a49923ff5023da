-- ===== src/Router/Rules.antt =====
-- engine/src/router.rs: the lists of rules, and the first rule that matches.
use aurora_vpn.Prelude.{
  ℕ, ◌+◌, Bool, false, ◌||◌, not, Option, none, some, List, [], ◌∷◌, map, if◌then◌else◌, drop,
  nat_eq, list_eq, pair_eq, is_some, get,
}
use aurora_vpn.Net.{IpAddr, SocketAddr}
use aurora_vpn.Target.{to_lower}
use aurora_vpn.Router.{Text, Process, Meta, new_cidr, Matcher, suffix_set, matches, none_in}

-- A rule of the settings; its addresses are read already, those that are none left out.
pub record RuleOpts : Type 0 where
  pub action : Text
  pub outbound : Text
  pub server : Text
  pub protocol : List Text
  pub clash_mode : Text
  pub ip_is_private : Bool
  pub process_name : List Text
  pub process_path : List Text
  pub domain : List Text
  pub domain_suffix : List Text
  pub domain_keyword : List Text
  pub ip_cidr : List (IpAddr × Option ℕ)
  pub rule_set : List Text
  pub query_type : List ℕ
  pub inbound : List Text

abbrev pub RuleSet : Type 0
RuleSet = Option Text → Option IpAddr → Bool

abbrev pub known_sets : List (Text × RuleSet) → List Text → List RuleSet
known_sets sets [] = []
known_sets sets (tag ∷ tags) =
    let rest = known_sets sets tags in elim (get tag sets) [ none ↦ rest | some s ↦ s ∷ rest ]

abbrev pub missing_set : List (Text × RuleSet) → List Text → Bool
missing_set sets [] = false
missing_set sets (tag ∷ tags) = not (is_some (get tag sets)) || missing_set sets tags

unfoldable pub new_matcher : RuleOpts → List (Text × RuleSet) → Matcher
new_matcher r sets = record {
  process_name = map to_lower r.process_name;
  process_path = map to_lower r.process_path;
  domain = map to_lower r.domain;
  suffix = suffix_set r.domain_suffix;
  keyword = map to_lower r.domain_keyword;
  cidr = map (λ c. new_cidr c.0 c.1) r.ip_cidr;
  rule_sets = known_sets sets r.rule_set;
  ip_is_private = r.ip_is_private;
  protocols = r.protocol;
  query_types = r.query_type;
  inbounds = r.inbound;
  clash_mode = if none_in r.clash_mode then none else some r.clash_mode;
  broken = missing_set sets r.rule_set;
}

pub data Action : Type 0 where
  sniff resolve hijack_dns reject : Action
  route : Text → Action

pub data Decision : Type 0 where
  step : Action → ℕ → Decision
  final : Text → Decision

pub record Rule : Type 0 where
  pub matcher : Matcher
  pub action : Action

pub record Router : Type 0 where
  pub rules : List Rule
  pub final_outbound : Text
  pub mode : Text

pub data DnsAction : Type 0 where
  server : Text → DnsAction
  refuse : DnsAction
  rest : DnsAction

pub record DnsRule : Type 0 where
  pub matcher : Matcher
  pub reject : Bool
  pub server : Text

module _ (lookup : Text → SocketAddr → Option Process) where
  -- The loop of `next`: the rules from the one numbered `i`.
  unfoldable pub next_from : List Rule → ℕ → Text → Text → Meta → Meta × Decision
  next_from [] i out mode m = (m, final out)
  next_from (r ∷ rs) i out mode m =
      let (m', hit) = matches lookup r.matcher m mode in
      let tail = next_from rs (i + 1) out mode m' in
      if hit then (m', step r.action (i + 1)) else tail

  unfoldable pub next : Router → Meta → ℕ → Meta × Decision
  unfolding next_from
  next r m from = next_from (drop from r.rules) from r.final_outbound r.mode m

  unfoldable pub evaluate : List DnsRule → Text → Meta → Meta × DnsAction
  evaluate [] mode m = (m, rest)
  evaluate (r ∷ rs) mode m =
      let (m', hit) = matches lookup r.matcher m mode in
      let tail = evaluate rs mode m' in
      if hit then (m', (if r.reject then refuse else server r.server)) else tail
