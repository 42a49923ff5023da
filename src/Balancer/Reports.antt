-- ===== src/Balancer/Reports.antt =====
-- What the results of probes make of the current server, and what the automaton then does.
use aurora_vpn.Prelude.{
  ℕ, ◌-◌, ◌≤◌, ◌≡◌, refl, true, false, ◌&&◌, ◌||◌, none, some, List, [], ◌∷◌, ◌++◌, arith,
  if◌then◌else◌, length, length-append, length-drop, nat_eq, list_eq, pair_eq, get, insert,
  get-insert,
}
use aurora_vpn.Balancer.{
  Tag, Health, alive, dead, Step, idle, probe, switch, stranded, Brain, contains, health_of,
  routed_down, routed_alive, measured, report, finish_sweep, fail_limit, samples_limit,
}
use aurora_vpn.Balancer.Judge.{alternatives, plan, same_sweep, is_manual, judge}
use aurora_vpn.Balancer.Drive.{
  give_up, since_checked, within, pending_loop, pending_step, fill_sweep, sweep_step, probe_step,
  judge_step, next,
}
use aurora_vpn.Balancer.Queues.{is_clean, contains-alternatives}
use aurora_vpn.Balancer.Invariant.{tag_refl}

health_of-insert : (t : Tag) (h : Health) (b : Brain) → get t (insert t h b.health) ≡ some h
health_of-insert t h b = let r = tag_refl t in let g = get-insert t t h b.health in ground arith

-- Two misses in a row on the current server mark it as down, whatever was known of it.
pub report-routed_down :
    (b : Brain) (t1 t2 : ℕ)
    → routed_down (report b.routed none t2 (report b.routed none t1 b)) ≡ true
unfolding routed_down report measured health_of
report-routed_down b t1 t2 =
    let one = report b.routed none t1 b in
    let g1 = health_of-insert b.routed (measured none t1 (health_of b.routed b)) b in
    let g2 = health_of-insert b.routed (measured none t2 (health_of b.routed one)) one in
    ground arith

-- One answer of the current server makes it alive and not down, whatever was known of it.
pub report-routed_alive :
    (b : Brain) (ms t : ℕ)
    → (routed_alive (report b.routed (some ms) t b) ≡ true)
      × (routed_down (report b.routed (some ms) t b) ≡ false)
unfolding routed_down routed_alive report measured health_of alive
report-routed_alive b ms t =
    let h = health_of b.routed b in
    let g1 = health_of-insert b.routed (measured (some ms) t h) b in
    let n = length-drop (length (h.samples ++ ms ∷ []) - samples_limit) (h.samples ++ ms ∷ []) in
    let m = length-append h.samples (ms ∷ []) in (ground arith, ground arith)

-- What becomes of the queue: its head is switched to if its last answer is fresh, and probed otherwise.
pub first_step : Brain → ℕ → List Tag → Step
unfolding health_of alive
first_step b now [] = stranded
first_step b now (t ∷ ts) =
    let h = health_of t b in
    if since_checked h.probed_at now || alive h && within h.ok_at now
    then switch b.routed t (dead (health_of b.routed b).fails)
    else probe (t ∷ [])

begin_clean :
    (b : Brain) (now : ℕ) (queue : List Tag)
    → ((t : Tag) → contains queue t ≡ true → is_clean t b ≡ true)
    → (pending_loop now
        (record { reason = dead (health_of b.routed b).fails; queue = queue; since = now })
        queue
        (record b { pending = plan (dead (health_of b.routed b).fails) queue now })).1
      ≡ some (first_step b now queue)
unfolding pending_loop give_up first_step health_of
begin_clean b now [] clean = refl
begin_clean b now (t ∷ ts) clean =
    let c = clean t (let r = tag_refl t in ground arith) in ground arith

-- If the strategy is not manual, no switch is pending, the current server has at least two misses
-- and the code has not given up on this sweep, the next step turns to the first of the alternatives,
-- by a switch if its last answer is fresh and by a probe if not, and it reports being stranded if
-- there is no alternative.
pub next_dead :
    (b : Brain) (now : ℕ)
    → is_manual b.cfg.strategy ≡ false
    → b.pending ≡ none
    → fail_limit ≤ (health_of b.routed b).fails
    → same_sweep b.stranded_at b.sweeps ≡ false
    → (next now b).1 ≡ first_step b now (alternatives b)
unfolding next judge_step judge pending_step
next_dead b now m p f s =
    let clean =
      begin_clean b now (alternatives b)
        (λ t e. let h = contains-alternatives b t in ground arith) in
    ground arith

abbrev pub IsQuiet : Step → Type 0
IsQuiet (idle d) = Unit
IsQuiet (probe tags) = Unit
IsQuiet (switch from to r) = ⊥
IsQuiet stranded = ⊥

probe_step-IsQuiet :
    (now : ℕ) (b : Brain)
    → b.pending ≡ none
    → ((probe_step now b).0.pending ≡ none) × IsQuiet (probe_step now b).1
unfolding probe_step sweep_step fill_sweep finish_sweep
probe_step-IsQuiet now b p = ground arith

-- Under the manual strategy, with no switch pending, the next step is a sleep or a probe, and no
-- switch is pending after it.
pub next_manual :
    (b : Brain) (now : ℕ)
    → is_manual b.cfg.strategy ≡ true
    → b.pending ≡ none
    → ((next now b).0.pending ≡ none) × IsQuiet (next now b).1
unfolding next judge_step judge pending_step
next_manual b now m p = let q = probe_step-IsQuiet now b p in ground arith
