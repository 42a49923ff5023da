-- ===== src/Rulesets/Tests.antt =====
-- engine/src/ruleset.rs: the theorem at a set of two networks, and runs of the rules.
use aurora_vpn.Prelude.{
  ℕ, ◌≡◌, refl, true, false, none, some, List, [], ◌∷◌, ◌++◌, arith, nat_eq, list_eq, pair_eq,
}
use aurora_vpn.Net.{v4}
use aurora_vpn.Ranges.{Range, in_any, find}
use aurora_vpn.Rulesets.{IpSet, HeadlessRule, read_uvarint, read_ip_set, contains, set_matches}
use aurora_vpn.Rulesets.Addresses.{encode_set, read_ip_set-encode_set}

-- 10.0.0.0/8 and 192.168.0.0/16
abbrev networks : List Range
networks = (167772160, 184549375) ∷ (3232235520, 3232301055) ∷ []

read_ip_set-encode_set_example :
    (s : IpSet) × (read_ip_set (encode_set networks ++ (255 ∷ 0 ∷ [])) ≡ some (s, 255 ∷ 0 ∷ []))
    × ((x : ℕ) → contains s (v4 x) ≡ in_any x networks)
read_ip_set-encode_set_example =
    read_ip_set-encode_set networks (255 ∷ 0 ∷ [])
      ((omega arith, omega arith), ((omega arith, omega arith), tt))
      (omega arith, (omega arith, tt), (omega arith, tt, tt)) (omega arith)

three_hundred : read_uvarint (172 ∷ 2 ∷ []) ≡ some (300, [])
unfolding read_uvarint
three_hundred = refl

abbrev home : HeadlessRule
home = record {
  domains = none;
  keywords = [];
  regexes = [];
  ips = some (record { v4 = networks; v6 = [] });
  invert = false;
  unsupported = false;
}

abbrev abroad : HeadlessRule
abroad = record home { invert = true }

home_matches : set_matches (home ∷ []) none (some (v4 167838211)) ≡ true
unfolding set_matches find
home_matches = refl

abroad_misses : set_matches (abroad ∷ []) none (some (v4 167838211)) ≡ false
unfolding set_matches find
abroad_misses = refl
