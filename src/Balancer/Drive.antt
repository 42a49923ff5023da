-- ===== src/Balancer/Drive.antt =====
-- src-tauri/src/core/balancer.rs: the schedule of probes and the next step.
use aurora_vpn.Prelude.{
  ℕ, ◌-◌, Bool, true, false, ◌&&◌, ◌||◌, not, Option, none, some, List, [], ◌∷◌, drop, take, ltb,
  leb, ◌==◌, if◌then◌else◌, get, list_eq, nat_eq, max, min,
}
use aurora_vpn.Balancer.{
  Tag, tag_eq, Reason, dead, recovered, Step, idle, probe, switch, stranded, Pending, Brain, alive,
  health_of, is_safe, is_empty, contains, finish_sweep, probe_every, retry_after, fresh_for,
  idle_cap, chunk,
}
use aurora_vpn.Balancer.Judge.{judge, is_failover}

unfoldable pub watched : Brain → List Tag
unfolding is_safe
watched b =
    if is_failover b.cfg.strategy && not (tag_eq b.routed b.primary) && is_safe b.primary b
    then b.routed ∷ b.primary ∷ []
    else b.routed ∷ []

unfoldable pub probe_wait : Tag → ℕ → Brain → ℕ
probe_wait tag now b = elim (get tag b.health) [
  | none ↦ 0
  | some h ↦ elim h.probed_at [
    | none ↦ 0
    | some at ↦ (if ltb 0 h.fails then retry_after else probe_every) - (now - at)
  ]
]

unfoldable pub due : ℕ → Brain → List Tag → List Tag
unfolding probe_wait
due now b [] = []
due now b (tag ∷ tags) =
    let rest = due now b tags in if probe_wait tag now b == 0 then tag ∷ rest else rest

unfoldable pub watched_due : ℕ → Brain → List Tag
unfolding due watched
watched_due now b = due now b (watched b)

unfoldable pub sweep_wait : ℕ → Brain → ℕ
sweep_wait now b = elim b.last_sweep [ none ↦ 0 | some at ↦ b.cfg.interval - (now - at) ]

unfoldable pub sweep_due : ℕ → Brain → Bool
unfolding sweep_wait
sweep_due now b = sweep_wait now b == 0

unfoldable pub least_wait : ℕ → Brain → ℕ → List Tag → ℕ
unfolding probe_wait
least_wait now b wait [] = wait
least_wait now b wait (tag ∷ tags) = least_wait now b (min wait (probe_wait tag now b)) tags

unfoldable pub until_next : ℕ → Brain → ℕ
unfolding least_wait sweep_wait watched
until_next now b = min (max (least_wait now b (sweep_wait now b) (watched b)) 1000) idle_cap

-- The queue is used up: the switch is given up.
unfoldable pub give_up : Reason → Brain → Brain × Option Step
give_up (dead fails) b = (record b { pending = none; stranded_at = some b.sweeps }, some stranded)
give_up recovered b = (record b { pending = none; primary_ok = 0 }, none)
give_up reason b = (record b { pending = none }, none)

abbrev pub since_checked : Option ℕ → ℕ → Bool
since_checked none since = false
since_checked (some t) since = leb since t

abbrev pub within : Option ℕ → ℕ → Bool
within none now = false
within (some t) now = leb (now - t) fresh_for

-- The loop of `pending_step`: `queue` is what is left of the pending queue.
unfoldable pub pending_loop : ℕ → Pending → List Tag → Brain → Brain × Option Step
unfolding give_up health_of alive
pending_loop now p [] b = give_up p.reason b
pending_loop now p (tag ∷ queue) b =
    let h = health_of tag b in
    let checked = since_checked h.probed_at p.since in
    let skip =
      pending_loop now p queue (record b { pending = some (record p { queue = queue }) }) in
    if checked && ltb 0 h.fails
    then skip
    else if checked || alive h && within h.ok_at now
    then (b, some (switch b.routed tag p.reason))
    else (record b { sweeping = false }, some (probe (tag ∷ [])))

unfoldable pub pending_step : ℕ → Brain → Brain × Option Step
unfolding pending_loop
pending_step now b = elim b.pending [ none ↦ (b, none) | some p ↦ pending_loop now p p.queue b ]

unfoldable pub others : List Tag → List Tag → List Tag
others skip [] = []
others skip (tag ∷ tags) =
    let rest = others skip tags in if contains skip tag then rest else tag ∷ rest

-- The sweep is filled when it is due; an empty one is finished at once.
unfoldable pub fill_sweep : ℕ → Brain → Brain
unfolding others watched finish_sweep sweep_due
fill_sweep now b =
    let rest = others (watched b) b.candidates in
    let b' = record b { sweep = rest } in
    if is_empty b.sweep && sweep_due now b
    then (if is_empty rest then finish_sweep now b' else b')
    else b

unfoldable pub sweep_step : ℕ → Brain → Brain × Step
unfolding until_next
sweep_step now b =
    if is_empty b.sweep
    then (b, idle (until_next now b))
    else (record b { sweep = drop chunk b.sweep; sweeping = true }, probe (take chunk b.sweep))

unfoldable pub probe_step : ℕ → Brain → Brain × Step
unfolding watched_due fill_sweep sweep_step
probe_step now b =
    let tags = watched_due now b in
    if is_empty tags
    then sweep_step now (fill_sweep now b)
    else (record b { sweeping = false }, probe tags)

-- The decision, and the first step of what it begins.
unfoldable pub judge_step : ℕ → Brain → Brain × Step
unfolding judge pending_step probe_step
judge_step now b =
    let (b1, decided) = judge now b in
    elim decided [
      | none ↦ probe_step now b1
      | some p ↦
          let (b2, step) = pending_step now (record b1 { pending = some p }) in
          elim step [ none ↦ probe_step now b2 | some s ↦ (b2, s) ]
    ]

unfoldable pub next : ℕ → Brain → Brain × Step
unfolding judge_step pending_step
next now b =
    let (b1, step) = pending_step now b in elim step [ none ↦ judge_step now b1 | some s ↦ (b1, s) ]
