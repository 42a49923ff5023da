-- ===== src/Group/Tests.antt =====
-- The groups at concrete inputs: three members, of which the first two answer.
use aurora_vpn.Prelude.{
  ℕ, ◌≡◌, refl, true, Option, none, some, [], ◌∷◌, arith, ◌==◌, if◌then◌else◌, nat_eq, list_beq,
  list_eq, pair_eq,
}
use aurora_vpn.Group.{Tag, UrlTest, measure, round, member}
use aurora_vpn.Group.Best.{Small, IsClose, IsChosen, round-IsChosen}
use aurora_vpn.Group.Rounds.{rounds, rounds_keep}

abbrev a : Tag
a = 97 ∷ []

abbrev b : Tag
b = 98 ∷ []

abbrev c : Tag
c = 99 ∷ []

abbrev delays : Tag → Option ℕ
delays t = if list_beq ◌==◌ t a then some 150 else if list_beq ◌==◌ t b then some 90 else none

abbrev group : UrlTest
group = record {
  members = a ∷ b ∷ c ∷ [];
  idle = 1800;
  tolerance = 50;
  best = none;
  last_used = 0;
  running = true;
}

abbrev chosen : UrlTest
chosen = record group { best = some (c, 120) }

first_round : (round delays group).best ≡ some (b, 90)
unfolding round measure
first_round = refl

small : Small delays group
small = (
  λ d q. (let z : 150 ≡ d = cc in omega arith),
  ((λ d q. (let z : 90 ≡ d = cc in omega arith)), ((λ d q. absurd (cc)), tt)),
)

close : IsClose delays chosen (some (c, 120))
close = (
  λ d q. (let z : 150 ≡ d = cc in omega arith),
  ((λ d q. (let z : 90 ≡ d = cc in omega arith)), ((λ d q. absurd (cc)), tt)),
)

round-IsChosen_example : IsChosen delays chosen (round delays chosen).best
round-IsChosen_example = round-IsChosen delays chosen small

-- Nobody answers, and the best member stays.
no_answer : (round (λ t. none) chosen).best ≡ some (c, 120)
unfolding round measure
no_answer = refl

rounds_keep_example : (member 7 (rounds (delays ∷ delays ∷ []) chosen)).0 ≡ some c
rounds_keep_example =
    rounds_keep (delays ∷ delays ∷ []) 7 chosen c 120 refl ((small, close), ((small, close), tt))
