-- ===== src/Balancer/Judge.antt =====
-- src-tauri/src/core/balancer.rs: the candidates of a switch, and the decision.
use aurora_vpn.Prelude.{
  ℕ, ◌+◌, ◌-◌, ◌*◌, ◌%◌, ◌^◌, Bool, true, false, ◌&&◌, ◌||◌, not, Option, none, some, List, [], ◌∷◌,
  ◌++◌, drop, take, ltb, leb, ◌==◌, if◌then◌else◌, get, list_eq, nat_eq, sort_by, min_by, min,
}
use aurora_vpn.Balancer.{
  Tag, tag_eq, Strategy, manual, failover, fastest, rotate, Health, Reason, initial, dead, faster,
  recovered, rotation, Pending, Brain, alive, delay, latest, health_of, is_safe, is_empty,
  fail_limit, streak_limit, recover_base,
}

abbrev pub is_failover : Strategy → Bool
is_failover failover = true
is_failover _ = false

abbrev pub u32_max : ℕ
u32_max = 2 ^ 32 - 1

abbrev pub or_default : Option ℕ → ℕ → ℕ
or_default none d = d
or_default (some x) d = x

-- The two piles of `alternatives`: the living with their delays, and those never measured.
unfoldable pub living : Brain → List Tag → List (Tag × ℕ)
unfolding alive delay
living b [] = []
living b (tag ∷ tags) =
    let rest = living b tags in
    if tag_eq tag b.routed then rest else elim (get tag b.health) [
      | none ↦ rest
      | some h ↦ if alive h then (tag, or_default (delay h) u32_max) ∷ rest else rest
    ]

unfoldable pub unmeasured : Brain → List Tag → List Tag
unfolding alive
unmeasured b [] = []
unmeasured b (tag ∷ tags) =
    let rest = unmeasured b tags in
    if tag_eq tag b.routed then rest else elim (get tag b.health) [
      | none ↦ tag ∷ rest
      | some h ↦ if alive h || ltb 0 h.fails then rest else tag ∷ rest
    ]

abbrev pub firsts : List (Tag × ℕ) → List Tag
firsts [] = []
firsts ((tag, d) ∷ rest) = tag ∷ firsts rest

-- `queue.retain(|t| *t != tag)`
abbrev pub without : Tag → List Tag → List Tag
without tag [] = []
without tag (t ∷ ts) = let rest = without tag ts in if tag_eq t tag then rest else t ∷ rest

unfoldable pub alternatives : Brain → List Tag
unfolding living unmeasured is_safe
alternatives b =
    let queue = firsts (sort_by (λ p. p.1) (living b b.candidates)) ++ unmeasured b b.candidates in
    let clean : Bool = elim (get b.primary b.health) [ none ↦ true | some h ↦ h.fails == 0 ] in
    if is_failover b.cfg.strategy && not (tag_eq b.routed b.primary) && is_safe b.primary b && clean
    then b.primary ∷ without b.primary queue
    else queue

unfoldable pub timed : Brain → List Tag → List (Tag × ℕ)
unfolding alive latest
timed b [] = []
timed b (tag ∷ tags) =
    let rest = timed b tags in
    if tag_eq tag b.routed then rest else elim (get tag b.health) [
      | none ↦ rest
      | some h ↦
          if alive h then (elim (latest h) [ none ↦ rest | some ms ↦ (tag, ms) ∷ rest ]) else rest
    ]

unfoldable pub fastest_alternative : Brain → Option (Tag × ℕ)
unfolding timed
fastest_alternative b = min_by (λ p. p.1) (timed b b.candidates)

-- Position of the current server in the list, counted from `i`.
unfoldable pub position : Tag → ℕ → List Tag → Option ℕ
position tag i [] = none
position tag i (t ∷ ts) = if tag_eq t tag then some i else position tag (i + 1) ts

unfoldable pub living_others : Brain → List Tag → List Tag
unfolding alive
living_others b [] = []
living_others b (tag ∷ tags) =
    let rest = living_others b tags in
    if tag_eq tag b.routed
    then rest
    else elim (get tag b.health) [ none ↦ rest | some h ↦ if alive h then tag ∷ rest else rest ]

-- `(start + k) % n` for `k` from 0 is the list turned by `start`, which is at most its length.
unfoldable pub rotation_queue : Brain → List Tag
unfolding position living_others
rotation_queue b =
    let start : ℕ = elim (position b.routed 0 b.candidates) [ none ↦ 0 | some i ↦ i + 1 ] in
    living_others b (drop start b.candidates ++ take start b.candidates)

-- `RECOVER_BASE << primary_deaths.saturating_sub(1).min(5)`
unfoldable pub recover_needed : Brain → ℕ
recover_needed b = recover_base * 2 ^ min (b.primary_deaths - 1) 5

-- One decision for each finished sweep.
unfoldable pub take_round : Brain → Brain × Bool
take_round b =
    if b.judged == b.sweeps
    then (b, false)
    else (record b { judged = b.sweeps; rounds = b.rounds + 1 }, true)

-- How many sweeps in a row `best` has been ahead.
unfoldable pub streak_of : Tag → Option (Tag × ℕ) → ℕ
streak_of best none = 1
streak_of best (some (tag, n)) = if tag_eq tag best then n + 1 else 1

abbrev pub plan : Reason → List Tag → ℕ → Option Pending
plan reason queue now = some (record { reason = reason; queue = queue; since = now })

-- The branch of `Fastest` once there is a candidate and a delay of one's own.
unfoldable pub judge_best : ℕ → ℕ → Tag → ℕ → Brain → Brain × Option Pending
unfolding streak_of
judge_best now mine best theirs b =
    let gain = mine - theirs in
    let streak = streak_of best b.ahead in
    let first = b.rounds == 1 in
    if leb mine ((theirs + b.cfg.tolerance) % 2 ^ 32)
    then (record b { ahead = none }, none)
    else if first || leb streak_limit streak
    then (
      record b { ahead = none },
      plan (if first then initial gain else faster gain) (best ∷ []) now,
    )
    else (record b { ahead = some (best, streak) }, none)

unfoldable pub judge_fastest : ℕ → Health → Brain → Brain × Option Pending
unfolding judge_best fastest_alternative delay
judge_fastest now routed b = elim (delay routed) [
  | none ↦ (b, none)
  | some mine ↦ elim (fastest_alternative b) [
    | none ↦ (record b { ahead = none }, none)
    | some (best, theirs) ↦ judge_best now mine best theirs b
  ]
]

unfoldable pub judge_rotate : ℕ → Brain → Brain × Option Pending
unfolding rotation_queue
judge_rotate now b =
    let queue = rotation_queue b in
    if ltb b.rounds 2 || is_empty queue then (b, none) else (b, plan rotation queue now)

-- The current server lives: what each strategy makes of it.
unfoldable pub judge_by : Strategy → ℕ → Health → Brain → Brain × Option Pending
unfolding recover_needed take_round judge_fastest judge_rotate
judge_by manual now routed b = (b, none)
judge_by failover now routed b =
    if not (tag_eq b.routed b.primary) && leb (recover_needed b) b.primary_ok
    then (b, plan recovered (b.primary ∷ []) now)
    else (b, none)
judge_by fastest now routed b =
    let (b', due) = take_round b in if due then judge_fastest now routed b' else (b', none)
judge_by rotate now routed b =
    let (b', due) = take_round b in if due then judge_rotate now b' else (b', none)

abbrev pub same_sweep : Option ℕ → ℕ → Bool
same_sweep none n = false
same_sweep (some m) n = m == n

abbrev pub is_manual : Strategy → Bool
is_manual manual = true
is_manual _ = false

unfoldable pub judge : ℕ → Brain → Brain × Option Pending
unfolding judge_by alternatives health_of alive
judge now b =
    let routed = health_of b.routed b in
    if is_manual b.cfg.strategy
    then (b, none)
    else if leb fail_limit routed.fails
    then (if same_sweep b.stranded_at b.sweeps
        then (b, none)
        else (b, plan (dead routed.fails) (alternatives b) now))
    else if alive routed
    then judge_by b.cfg.strategy now routed b
    else (b, none)
