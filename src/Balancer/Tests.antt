-- ===== src/Balancer/Tests.antt =====
-- The automaton at concrete inputs: a primary `a`, candidates `a`, `b`, `c`.
use aurora_vpn.Prelude.{
  ◌≡◌, refl, true, ◌&&◌, not, none, some, [], ◌∷◌, arith, nat_eq, list_eq, pair_eq, get, remove,
  insert,
}
use aurora_vpn.Balancer.{
  Tag, tag_eq, Strategy, manual, failover, Config, Brain, new, contains, health_of, routed_down,
  mark_dead, report,
}
use aurora_vpn.Balancer.Judge.{alternatives}
use aurora_vpn.Balancer.Drive.{next}
use aurora_vpn.Balancer.Queues.{is_clean, contains-alternatives}
use aurora_vpn.Balancer.Invariant.{IsValid, new-IsValid}
use aurora_vpn.Balancer.Decide.{IsNext}
use aurora_vpn.Balancer.Runs.{next-IsNext, Run-IsValid, done, more, asked, fell}
use aurora_vpn.Balancer.Reports.{report-routed_down, first_step, next_dead, IsQuiet, next_manual}

abbrev tag_a : Tag
tag_a = 97 ∷ []

abbrev tag_b : Tag
tag_b = 98 ∷ []

abbrev tag_c : Tag
tag_c = 99 ∷ []

abbrev config : Strategy → Config
config s = record { strategy = s; tolerance = 50; interval = 180000 }

abbrev start : Strategy → Brain
start s = new (config s) tag_a (tag_a ∷ tag_b ∷ tag_c ∷ [])

-- The primary fell at second 1.
abbrev fallen : Brain
fallen = mark_dead tag_a 1000 (report tag_b (some 40) 900 (start failover))

next-IsNext_example : IsNext (start failover) (next 0 (start failover))
next-IsNext_example =
    next-IsNext 0 (start failover)
      (new-IsValid (config failover) tag_a (tag_a ∷ tag_b ∷ tag_c ∷ []))

Run-IsValid_example : IsValid (next 2000 (mark_dead tag_a 1000 (start failover))).0
Run-IsValid_example =
    Run-IsValid (config failover) tag_a (tag_a ∷ tag_b ∷ tag_c ∷ [])
      (next 2000 (mark_dead tag_a 1000 (start failover))).0
      (more (more done (fell tag_a 1000)) (asked 2000))

contains-alternatives_example : contains (alternatives fallen) tag_b ≡ (
    contains fallen.candidates tag_b && not (tag_eq tag_b fallen.routed) && is_clean tag_b fallen)
contains-alternatives_example = contains-alternatives fallen tag_b

next_dead_example : (next 1000 fallen).1 ≡ first_step fallen 1000 (alternatives fallen)
unfolding new mark_dead report health_of get insert remove
next_dead_example = next_dead fallen 1000 refl refl (omega arith) refl

report-routed_down_example :
    routed_down
      (report (start manual).routed none 2 (report (start manual).routed none 1 (start manual)))
    ≡ true
report-routed_down_example = report-routed_down (start manual) 1 2

next_manual_example : ((next 0 (start manual)).0.pending ≡ none) × IsQuiet (next 0 (start manual)).1
unfolding new
next_manual_example = next_manual (start manual) 0 refl refl
