-- ===== src/Veil/Ru/Tests.antt =====
-- veil/src/ru.rs: the theorems at concrete addresses and names.
use aurora_vpn.Prelude.{
  ℕ, ◌*◌, ◌^◌, ◌≡◌, refl, true, none, some, List, [], ◌∷◌, arith, nat_eq, list_eq, pair_eq,
}
use aurora_vpn.Ranges.{find, sort_ranges}
use aurora_vpn.Net.{v4, v6}
use aurora_vpn.Router.{suffix_matches}
use aurora_vpn.Veil.Ru.{Line, number, absent, parse, contains}
use aurora_vpn.Veil.Ru.Networks.{covered, contains-parse}
use aurora_vpn.Veil.Ru.Domains.{suffixes, trim_end, is_ru_domain, is_ru_domain-suffix_matches}

-- 10.0.0.0/8, a line without an address, and fc00:: as it is.
abbrev lines : List Line
lines =
    record { addr = some (v4 167772160); bits = number 8 }
    ∷ record { addr = none; bits = absent }
    ∷ record { addr = some (v6 (252 * 2 ^ 120)); bits = absent }
    ∷ []

contains-parse_example : contains (parse lines).0 (v4 167838211) ≡ covered lines (v4 167838211)
contains-parse_example = contains-parse lines (v4 167838211) (omega arith, (tt, (omega arith, tt)))

ten_is_inside : contains (parse lines).0 (v4 167838211) ≡ true
unfolding contains parse find sort_ranges
ten_is_inside = refl

-- m.vk.com.
abbrev name : List ℕ
name = 109 ∷ 46 ∷ 118 ∷ 107 ∷ 46 ∷ 99 ∷ 111 ∷ 109 ∷ 46 ∷ []

is_ru_domain-suffix_matches_example : is_ru_domain name ≡ suffix_matches suffixes (trim_end name)
is_ru_domain-suffix_matches_example = is_ru_domain-suffix_matches name

name_is_russian : is_ru_domain name ≡ true
unfolding is_ru_domain
name_is_russian = refl
