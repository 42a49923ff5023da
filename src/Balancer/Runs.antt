-- ===== src/Balancer/Runs.antt =====
-- `Brain::next`, and the runs of the automaton under its driver.
use aurora_vpn.Prelude.{
  ℕ, zero, suc, ◌≤◌, ◌<◌, ◌≡◌, ◌∙◌, true, false, ◌&&◌, not, Option, none, some, List, [], ◌∷◌,
  arith, if◌then◌else◌, length, take, drop, length-take, nat_eq, list_eq, pair_eq, All, if_intro,
}
use aurora_vpn.Balancer.{
  Tag, tag_eq, Config, is_empty, Reason, Step, idle, probe, switch, stranded, Brain, new, contains,
  is_safe, knows, set_primary, mark_dead, finish_sweep, report_batch, commit, abort, chunk,
}
use aurora_vpn.Balancer.Judge.{is_failover, judge}
use aurora_vpn.Balancer.Drive.{
  watched, due, watched_due, sweep_due, until_next, pending_step, others, fill_sweep, sweep_step,
  probe_step, judge_step, next,
}
use aurora_vpn.Balancer.Invariant.{
  Holds, IsCandidate, IsValid, tag_refl, new-IsValid, report_batch-IsValid, finish_sweep-IsValid,
  mark_dead-IsValid, set_primary-IsValid, abort-IsValid, commit-IsValid,
}
use aurora_vpn.Balancer.Decide.{
  IsKnown, IsStep, IsStep?, IsFrame, IsDone, IsDecided, IsNext, same, pending_step-IsDone,
  judge-IsDecided,
}

-- `watched` names the current server and perhaps the primary, both known.
due-IsKnown :
    (now : ℕ) (b : Brain) (tags : List Tag)
    → All (IsKnown b) tags
    → All (IsKnown b) (due now b tags)
unfolding due
due-IsKnown now b [] h = tt
due-IsKnown now b (t ∷ tags) h = ground (arith, due-IsKnown now b tags h.1)

length-due : (now : ℕ) (b : Brain) (tags : List Tag) → length (due now b tags) ≤ length tags
unfolding due
length-due now b [] = omega arith
length-due now b (t ∷ tags) = ground (arith, length-due now b tags)

watched-IsKnown : (b : Brain) → IsValid b → All (IsKnown b) (watched b) × (length (watched b) ≤ 2)
unfolding watched
watched-IsKnown b v =
    if_intro (λ ts. All (IsKnown b) ts × (length ts ≤ 2))
      (is_failover b.cfg.strategy && not (tag_eq b.routed b.primary) && is_safe b.primary b)
      (b.routed ∷ b.primary ∷ []) (b.routed ∷ [])
      (λ _. ((v.routed, ((let r = tag_refl b.primary in ground arith), tt)), omega arith))
      (λ _. ((v.routed, tt), omega arith))

others-IsCandidate :
    (cs skip xs : List Tag)
    → ((t : Tag) → contains xs t ≡ true → contains cs t ≡ true)
    → All (IsCandidate cs) (others skip xs)
unfolding others
others-IsCandidate cs skip [] sub = tt
others-IsCandidate cs skip (x ∷ xs) sub =
    let rest = others-IsCandidate cs skip xs (λ t e. sub t (ground arith)) in
    let here = sub x (let r = tag_refl x in ground arith) in ground arith

fill_sweep-IsValid :
    (now : ℕ) (b : Brain) → IsValid b → IsValid (fill_sweep now b) × IsFrame b (fill_sweep now b)
unfolding fill_sweep finish_sweep
fill_sweep-IsValid now b v =
    let rest = others (watched b) b.candidates in
    let b' : Brain = record b { sweep = rest } in
    let v' : IsValid b' = record {
      routed = v.routed;
      pending = v.pending;
      samples = v.samples;
      sweep = others-IsCandidate b.candidates (watched b) b.candidates (λ t e. e);
    } in
    let done : Brain = finish_sweep now b' in
    if_intro {A = Brain} (λ r. IsValid r × IsFrame b r) (is_empty b.sweep && sweep_due now b)
      (if is_empty rest then done else b') b
      (λ _.
        if_intro {A = Brain} (λ r. IsValid r × IsFrame b r) (is_empty rest) done b'
          (λ _. (finish_sweep-IsValid now b' v', same b)) (λ _. (v', same b)))
      (λ _. (v, same b))

All-take {κ} : (P : Tag → Type κ) (n : ℕ) (xs : List Tag) → All P xs → All P (take n xs)
All-take P zero xs h = tt
All-take P (suc n) [] h = tt
All-take P (suc n) (x ∷ xs) h = (h.0, All-take P n xs h.1)

All-drop {κ} : (P : Tag → Type κ) (n : ℕ) (xs : List Tag) → All P xs → All P (drop n xs)
All-drop P zero xs h = h
All-drop P (suc n) [] h = tt
All-drop P (suc n) (x ∷ xs) h = All-drop P n xs h.1

candidates-IsKnown :
    (b : Brain) (xs : List Tag) → All (IsCandidate b.candidates) xs → All (IsKnown b) xs
candidates-IsKnown b [] h = tt
candidates-IsKnown b (x ∷ xs) h = (ground arith, candidates-IsKnown b xs h.1)

not_empty : (xs : List Tag) → is_empty xs ≡ false → 0 < length xs
not_empty xs h = ground arith

sweep_step-IsNext : (now : ℕ) (b : Brain) → IsValid b → IsNext b (sweep_step now b)
unfolding sweep_step until_next
sweep_step-IsNext now b v =
    let sleep : Brain × Step = (b, idle (until_next now b)) in
    let part : Brain × Step =
      (record b { sweep = drop chunk b.sweep; sweeping = true }, probe (take chunk b.sweep)) in
    if_intro {A = Brain × Step} (IsNext b) (is_empty b.sweep) sleep part
      (λ _. (v, same b, (omega arith, omega arith)))
      (λ e. (
        record {
          routed = v.routed;
          pending = v.pending;
          sweep = All-drop (IsCandidate b.candidates) chunk b.sweep v.sweep;
          samples = v.samples;
        },
        same b,
        (let some_left = not_empty b.sweep e in
            let n = length-take chunk b.sweep in
            (
              omega arith,
              omega arith,
              All-take (IsKnown b) chunk b.sweep (candidates-IsKnown b b.sweep v.sweep),
            )),
      ))

chain : (b b' : Brain) (r : Brain × Step) → IsFrame b b' → IsNext b' r → IsNext b r
chain b b' r f (v, (g1, g2, g3), q) = (v, (g1 ∙ f.0, g2 ∙ f.1, g3 ∙ f.2), q)

probe_step-IsNext : (now : ℕ) (b : Brain) → IsValid b → IsNext b (probe_step now b)
unfolding probe_step watched_due
probe_step-IsNext now b v =
    let tags = due now b (watched b) in
    let filled = fill_sweep-IsValid now b v in
    let w = watched-IsKnown b v in
    if_intro {A = Brain × Step} (IsNext b) (is_empty tags) (sweep_step now (fill_sweep now b))
      (record b { sweeping = false }, probe tags)
      (λ _.
        chain b (fill_sweep now b) (sweep_step now (fill_sweep now b)) filled.1
          (sweep_step-IsNext now (fill_sweep now b) filled.0))
      (λ e. (
        record { routed = v.routed; pending = v.pending; sweep = v.sweep; samples = v.samples },
        same b,
        (let some_left = not_empty tags e in
            let n = length-due now b (watched b) in
            (omega arith, omega arith, due-IsKnown now b (watched b) w.0)),
      ))

judge_step-IsNext : (now : ℕ) (b : Brain) → IsValid b → IsNext b (judge_step now b)
unfolding judge_step
judge_step-IsNext now b v =
    let (b1, decided) = judge now b in
    let k : IsDecided b (judge now b) = judge-IsDecided now b v in
    elim decided
        as (λ o.
          Holds b1.primary b1.routed b1.candidates o
          → IsNext b (elim o [
            | none ↦ probe_step now b1
            | some p ↦
                let (b2, step) = pending_step now (record b1 { pending = some p }) in
                elim step [ none ↦ probe_step now b2 | some s ↦ (b2, s) ]
          ])) [
            | none ↦ λ _. chain b b1 (probe_step now b1) k.1 (probe_step-IsNext now b1 k.0)
            | some p ↦ λ h. chain b b1 _ k.1 (
                begin-IsNext now (record b1 { pending = some p })
                  (record {
                    routed = k.0.routed;
                    pending = h;
                    sweep = k.0.sweep;
                    samples = k.0.samples;
                  }))
          ]
      k.2
  where
    begin-IsNext :
        (now : ℕ) (b : Brain)
        → IsValid b
        → IsNext b (
            let (b2, step) = pending_step now b in
            elim step [ none ↦ probe_step now b2 | some s ↦ (b2, s) ])
    begin-IsNext now b v =
        let (b2, step) = pending_step now b in
        let k : IsDone b (pending_step now b) = pending_step-IsDone now b v in
        elim step
            as (λ o.
              IsStep? b2 o → IsNext b (elim o [ none ↦ probe_step now b2 | some s ↦ (b2, s) ])) [
                | none ↦ λ _. chain b b2 (probe_step now b2) k.1 (probe_step-IsNext now b2 k.0)
                | some s ↦ λ h. (k.0, k.1, h)
              ]
          k.2

-- From a valid state next leads to a valid state with the same current server, primary and
-- candidates, and asks for a sleep of 1 to 30 seconds, for a probe of one to eight servers among the
-- primary and the candidates, for a switch from the current server to another one of these, or
-- reports that it is stranded.
pub next-IsNext : (now : ℕ) (b : Brain) → IsValid b → IsNext b (next now b)
unfolding next
next-IsNext now b v =
    let (b1, step) = pending_step now b in
    let k : IsDone b (pending_step now b) = pending_step-IsDone now b v in
    elim step
        as (λ o. IsStep? b1 o → IsNext b (elim o [ none ↦ judge_step now b1 | some s ↦ (b1, s) ])) [
          | none ↦ λ _. chain b b1 (judge_step now b1) k.1 (judge_step-IsNext now b1 k.0)
          | some s ↦ λ h. (k.0, k.1, h)
        ]
      k.2

-- What the driver does with the automaton: it asks for a step, reports what it measured or that
-- the core fell, and after a step `Switch` commits it or gives it up; the user may choose a server.
pub data Move : Brain → Brain → Type 0 where
  asked : {b : Brain} (now : ℕ) → Move b (next now b).0
  measured_all : {b : Brain} (rs : List (Tag × Option ℕ)) (now : ℕ) → Move b (report_batch rs now b)
  fell : {b : Brain} (tag : Tag) (now : ℕ) → Move b (mark_dead tag now b)
  switched :
      {b : Brain} (now : ℕ) (from to : Tag) (r : Reason)
      → (next now b).1 ≡ switch from to r
      → Move b (commit to (next now b).0)
  refused : {b : Brain} → Move b (abort b)
  chosen : {b : Brain} (tag : Tag) → Move b (set_primary tag b)

pub data Run : Brain → Brain → Type 0 where
  done : {b : Brain} → Run b b
  more : {b c d : Brain} → Run b c → Move c d → Run b d

switch_known :
    (b : Brain) (s : Step) (from to : Tag) (r : Reason)
    → IsStep b s
    → s ≡ switch from to r
    → knows to b ≡ true
unfolding knows is_safe
switch_known b (idle d) from to r h e = absurd (ground arith)
switch_known b (probe ts) from to r h e = absurd (ground arith)
switch_known b stranded from to r h e = absurd (ground arith)
switch_known b (switch f t q) from to r h e =
    let same_to : t ≡ to = ground arith in rw⁻¹ same_to h.1.0

Move-IsValid : {b c : Brain} → IsValid b → Move b c → IsValid c
Move-IsValid {b} v (asked now) = (next-IsNext now b v).0
Move-IsValid {b} v (measured_all rs now) = report_batch-IsValid rs now b v
Move-IsValid {b} v (fell tag now) = mark_dead-IsValid tag now b v
Move-IsValid {b} v (switched now from to r e) =
    let k = next-IsNext now b v in
    commit-IsValid to (next now b).0 (switch_known (next now b).0 (next now b).1 from to r k.2 e)
      k.0
Move-IsValid {b} v refused = abort-IsValid b v
Move-IsValid {b} v (chosen tag) = set_primary-IsValid tag b v

keeps-IsValid : {b c : Brain} → IsValid b → Run b c → IsValid c
keeps-IsValid v done = v
keeps-IsValid v (more r m) = Move-IsValid (keeps-IsValid v r) m

-- Whatever sequence of steps, results, falls of the core, committed and refused switches and choices
-- of the user follows on new, the state is valid: the current server is the primary or a candidate,
-- a pending switch goes only to such servers and not to the current one, the sweep holds candidates,
-- and no server has more than three samples.
pub Run-IsValid :
    (cfg : Config) (primary : Tag) (candidates : List Tag) (b : Brain)
    → Run (new cfg primary candidates) b
    → IsValid b
Run-IsValid cfg primary candidates b r = keeps-IsValid (new-IsValid cfg primary candidates) r
