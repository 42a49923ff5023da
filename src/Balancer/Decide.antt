-- ===== src/Balancer/Decide.antt =====
-- The decisions of `judge` and the switches of `pending_step`.
use aurora_vpn.Prelude.{
  ℕ, ◌+◌, ◌-◌, ◌%◌, ◌^◌, ◌≤◌, ◌<◌, ◌≡◌, refl, ◌∙◌, inl, inr, Bool, true, false, ◌&&◌, ◌||◌, not,
  Option, none, some, List, [], ◌∷◌, arith, ltb, leb, ◌==◌, if◌then◌else◌, Bool-cases, Option-cases,
  length, nat_eq, list_beq_iff, list_eq, pair_eq, All, if_intro, min_by,
}
use aurora_vpn.Balancer.{
  Tag, tag_eq, Strategy, manual, failover, fastest, rotate, Health, is_empty, alive, delay, Reason,
  initial, dead, faster, recovered, rotation, Step, idle, probe, switch, stranded, Pending, Brain,
  contains, health_of, fail_limit, streak_limit, chunk,
}
use aurora_vpn.Balancer.Judge.{
  alternatives, timed, fastest_alternative, rotation_queue, recover_needed, take_round, streak_of,
  plan, judge_best, judge_fastest, judge_rotate, judge_by, same_sweep, is_manual, judge,
}
use aurora_vpn.Balancer.Drive.{due, give_up, since_checked, within, pending_loop, pending_step}
use aurora_vpn.Balancer.Queues.{contains-alternatives, contains-rotation_queue, All-contains}
use aurora_vpn.Balancer.Invariant.{IsTarget, Holds, IsValid, tag_refl}

-- What a step may ask for: a sleep of 1 to 30 seconds; a probe of one to eight servers, each the
-- primary or a candidate or the current one; a switch from the current server to another, the primary or a candidate.
abbrev pub IsKnown : Brain → Tag → Type 0
IsKnown b t = (tag_eq t b.primary || contains b.candidates t) ≡ true

abbrev pub IsStep : Brain → Step → Type 0
IsStep b (idle d) = (1000 ≤ d) × (d ≤ 30000)
IsStep b (probe tags) = (0 < length tags) × (length tags ≤ chunk) × All (IsKnown b) tags
IsStep b (switch from to r) = (from ≡ b.routed) × IsTarget b.primary b.routed b.candidates to
IsStep b stranded = Unit

abbrev pub IsStep? : Brain → Option Step → Type 0
IsStep? b none = Unit
IsStep? b (some s) = IsStep b s

-- `next` leaves the current server, the primary and the candidates as they are.
abbrev pub IsFrame : Brain → Brain → Type 0
IsFrame b b' = (b'.primary ≡ b.primary) × (b'.routed ≡ b.routed) × (b'.candidates ≡ b.candidates)

abbrev pub IsDone : Brain → Brain × Option Step → Type 0
IsDone b r = IsValid r.0 × IsFrame b r.0 × IsStep? r.0 r.1

abbrev pub IsDecided : Brain → Brain × Option Pending → Type 0
IsDecided b r = IsValid r.0 × IsFrame b r.0 × Holds r.0.primary r.0.routed r.0.candidates r.1

abbrev pub IsNext : Brain → Brain × Step → Type 0
IsNext b r = IsValid r.0 × IsFrame b r.0 × IsStep r.0 r.1

tag_ne : (t u : Tag) → tag_eq u t ≡ false → tag_eq t u ≡ false
tag_ne t u h = ground (arith, list_beq_iff nat_eq t u, list_beq_iff nat_eq u t)

pub same : (b : Brain) → IsFrame b b
same b = (refl, refl, refl)

give_up-IsDone : (r : Reason) (b : Brain) → IsValid b → IsDone b (give_up r b)
unfolding give_up
give_up-IsDone (initial g) b v =
    (record { routed = v.routed; pending = tt; sweep = v.sweep; samples = v.samples }, same b, tt)
give_up-IsDone (dead f) b v =
    (record { routed = v.routed; pending = tt; sweep = v.sweep; samples = v.samples }, same b, tt)
give_up-IsDone (faster g) b v =
    (record { routed = v.routed; pending = tt; sweep = v.sweep; samples = v.samples }, same b, tt)
give_up-IsDone recovered b v =
    (record { routed = v.routed; pending = tt; sweep = v.sweep; samples = v.samples }, same b, tt)
give_up-IsDone rotation b v =
    (record { routed = v.routed; pending = tt; sweep = v.sweep; samples = v.samples }, same b, tt)

pending_loop-IsDone :
    (now : ℕ) (p : Pending) (queue : List Tag) (b : Brain)
    → IsValid b
    → All (IsTarget b.primary b.routed b.candidates) queue
    → IsDone b (pending_loop now p queue b)
unfolding pending_loop
pending_loop-IsDone now p [] b v h = give_up-IsDone p.reason b v
pending_loop-IsDone now p (tag ∷ queue) b v h =
    let b2 = record b { pending = some (record p { queue = queue }) } in
    let v2 : IsValid b2 = record {
      routed = v.routed;
      pending = h.1;
      sweep = v.sweep;
      samples = v.samples;
    } in
    let rest = pending_loop-IsDone now p queue b2 v2 h.1 in
    let e = health_of tag b in
    let checked = since_checked e.probed_at p.since in
    let ask : Brain × Option Step = (record b { sweeping = false }, some (probe (tag ∷ []))) in
    let go : Brain × Option Step = (b, some (switch b.routed tag p.reason)) in
    let fresh = checked || alive e && within e.ok_at now in
    if_intro (IsDone b) (checked && ltb 0 e.fails) (pending_loop now p queue b2)
      (if fresh then go else ask) (λ _. rest)
      (λ _.
        if_intro (IsDone b) fresh go ask (λ _. (v, same b, (refl, h.0)))
          (λ _. (
            record { routed = v.routed; pending = v.pending; sweep = v.sweep; samples = v.samples },
            same b,
            (omega arith, omega arith, (h.0.0, tt)),
          )))

pub pending_step-IsDone : (now : ℕ) (b : Brain) → IsValid b → IsDone b (pending_step now b)
unfolding pending_step
pending_step-IsDone now b v =
    elim b.pending
        as (λ o.
          Holds b.primary b.routed b.candidates o
          → IsDone b (elim o [ none ↦ (b, none) | some p ↦ pending_loop now p p.queue b ])) [
            | none ↦ λ h. (v, same b, tt)
            | some p ↦ λ h. pending_loop-IsDone now p p.queue b v h
          ]
      v.pending

alternatives_targets : (b : Brain) → All (IsTarget b.primary b.routed b.candidates) (alternatives b)
alternatives_targets b =
    All-contains (IsTarget b.primary b.routed b.candidates) (alternatives b)
      (λ t e. let h = contains-alternatives b t in (ground arith, ground arith))

rotation_targets : (b : Brain) → All (IsTarget b.primary b.routed b.candidates) (rotation_queue b)
rotation_targets b =
    All-contains (IsTarget b.primary b.routed b.candidates) (rotation_queue b)
      (λ t e. let h = contains-rotation_queue b t in (ground arith, ground arith))

All-min_by :
    (P : Tag × ℕ → Type 0) (xs : List (Tag × ℕ)) (a : Tag × ℕ)
    → All P xs
    → min_by (λ p. p.1) xs ≡ some a
    → P a
unfolding min_by
All-min_by P [] a h e = absurd (ground arith)
All-min_by P (x ∷ xs) a h e = elim (Option-cases (min_by (λ p. p.1) xs)) [
  | inl n ↦ (let s : x ≡ a = ground arith in rw⁻¹ s h.0)
  | inr (y, s) ↦ elim (Bool-cases (leb x.1 y.1)) [
    | inl c ↦ (let q : x ≡ a = ground arith in rw⁻¹ q h.0)
    | inr c ↦ (let q : y ≡ a = ground arith in rw⁻¹ q (All-min_by P xs y h.1 s))
  ]
]

timed_targets :
    (b : Brain) (cs : List Tag)
    → ((t : Tag) → contains cs t ≡ true → contains b.candidates t ≡ true)
    → All (λ p. IsTarget b.primary b.routed b.candidates p.0) (timed b cs)
unfolding timed
timed_targets b [] sub = tt
timed_targets b (c ∷ cs) sub =
    let rest = timed_targets b cs (λ t e. sub t (ground arith)) in
    let known = sub c (let r = tag_refl c in ground arith) in ground arith

fastest-IsTarget :
    (b : Brain) (best : Tag × ℕ)
    → fastest_alternative b ≡ some best
    → IsTarget b.primary b.routed b.candidates best.0
unfolding fastest_alternative
fastest-IsTarget b best e =
    All-min_by (λ p. IsTarget b.primary b.routed b.candidates p.0) (timed b b.candidates) best
      (timed_targets b b.candidates (λ t h. h)) e

judge_best-IsDecided :
    (now mine : ℕ) (best : Tag) (theirs : ℕ) (b : Brain)
    → IsValid b
    → IsTarget b.primary b.routed b.candidates best
    → IsDecided b (judge_best now mine best theirs b)
unfolding judge_best
judge_best-IsDecided now mine best theirs b v h =
    let gain = mine - theirs in
    let first = b.rounds == 1 in
    let streak = streak_of best b.ahead in
    let forget : Brain = record b { ahead = none } in
    let stay : Brain × Option Pending = (forget, none) in
    let go : Brain × Option Pending =
      (forget, plan (if first then initial gain else faster gain) (best ∷ []) now) in
    let wait : Brain × Option Pending = (record b { ahead = some (best, streak) }, none) in
    let kept : IsValid forget = record {
      routed = v.routed;
      pending = v.pending;
      sweep = v.sweep;
      samples = v.samples;
    } in
    if_intro (IsDecided b) (leb mine ((theirs + b.cfg.tolerance) % 2 ^ 32)) stay
      (if first || leb streak_limit streak then go else wait) (λ _. (kept, same b, tt))
      (λ _.
        if_intro (IsDecided b) (first || leb streak_limit streak) go wait
          (λ _. (kept, same b, (h, tt)))
          (λ _. (
            record { routed = v.routed; pending = v.pending; sweep = v.sweep; samples = v.samples },
            same b,
            tt,
          )))

judge_fastest-IsDecided :
    (now : ℕ) (h : Health) (b : Brain) → IsValid b → IsDecided b (judge_fastest now h b)
unfolding judge_fastest
judge_fastest-IsDecided now h b v =
    elim (delay h)
      as (λ o. IsDecided b (elim o [
        | none ↦ (b, none)
        | some mine ↦ elim (fastest_alternative b) [
          | none ↦ (record b { ahead = none }, none)
          | some (best, theirs) ↦ judge_best now mine best theirs b
        ]
      ])) [
        | none ↦ (v, same b, tt)
        | some mine ↦
            elim (fastest_alternative b)
                as (λ o.
                  fastest_alternative b ≡ o
                  → IsDecided b (elim o [
                    | none ↦ (record b { ahead = none }, none)
                    | some (best, theirs) ↦ judge_best now mine best theirs b
                  ])) [
                    | none ↦ λ _. (
                      record {
                        routed = v.routed;
                        pending = v.pending;
                        sweep = v.sweep;
                        samples = v.samples;
                      },
                      same b,
                      tt,
                    )
                    | some (best, theirs) ↦ λ e.
                        judge_best-IsDecided now mine best theirs b v
                          (fastest-IsTarget b (best, theirs) e)
                  ]
              refl
      ]

judge_rotate-IsDecided : (now : ℕ) (b : Brain) → IsValid b → IsDecided b (judge_rotate now b)
unfolding judge_rotate
judge_rotate-IsDecided now b v =
    if_intro (IsDecided b) (ltb b.rounds 2 || is_empty (rotation_queue b)) (b, none)
      (b, plan rotation (rotation_queue b) now) (λ _. (v, same b, tt))
      (λ _. (v, same b, rotation_targets b))

take_round-IsValid : (b : Brain) → IsValid b → IsValid (take_round b).0 × IsFrame b (take_round b).0
unfolding take_round
take_round-IsValid b v =
    if_intro {A = Brain × Bool} (λ r. IsValid r.0 × IsFrame b r.0) (b.judged == b.sweeps) (b, false)
      (record b { judged = b.sweeps; rounds = b.rounds + 1 }, true) (λ _. (v, same b))
      (λ _. (
        record { routed = v.routed; pending = v.pending; sweep = v.sweep; samples = v.samples },
        same b,
      ))

-- A decision on the state that `take_round` left is one on the state before it.
after : (b b' : Brain) (r : Brain × Option Pending) → IsFrame b b' → IsDecided b' r → IsDecided b r
after b b' r f (v, (g1, g2, g3), q) = (v, (g1 ∙ f.0, g2 ∙ f.1, g3 ∙ f.2), q)

judge_by-IsDecided :
    (s : Strategy) (now : ℕ) (h : Health) (b : Brain) → IsValid b → IsDecided b (judge_by s now h b)
unfolding judge_by
judge_by-IsDecided manual now h b v = (v, same b, tt)
judge_by-IsDecided failover now h b v =
    if_intro (IsDecided b) (not (tag_eq b.routed b.primary) && leb (recover_needed b) b.primary_ok)
      (b, plan recovered (b.primary ∷ []) now) (b, none)
      (λ e. (
        v,
        same b,
        (
          ((let r = tag_refl b.primary in ground arith), tag_ne b.primary b.routed (ground arith)),
          tt,
        ),
      ))
      (λ _. (v, same b, tt))
judge_by-IsDecided fastest now h b v =
    let (b', due) = take_round b in
    let k = take_round-IsValid b v in
    if_intro (IsDecided b) due (judge_fastest now h b') (b', none)
      (λ _. after b b' (judge_fastest now h b') k.1 (judge_fastest-IsDecided now h b' k.0))
      (λ _. (k.0, k.1, tt))
judge_by-IsDecided rotate now h b v =
    let (b', due) = take_round b in
    let k = take_round-IsValid b v in
    if_intro (IsDecided b) due (judge_rotate now b') (b', none)
      (λ _. after b b' (judge_rotate now b') k.1 (judge_rotate-IsDecided now b' k.0))
      (λ _. (k.0, k.1, tt))

pub judge-IsDecided : (now : ℕ) (b : Brain) → IsValid b → IsDecided b (judge now b)
unfolding judge
judge-IsDecided now b v =
    let h = health_of b.routed b in
    let away : Brain × Option Pending = (b, plan (dead h.fails) (alternatives b) now) in
    let stay : Brain × Option Pending = (b, none) in
    let lost = if same_sweep b.stranded_at b.sweeps then stay else away in
    let lives = if alive h then judge_by b.cfg.strategy now h b else stay in
    if_intro (IsDecided b) (is_manual b.cfg.strategy) stay
      (if leb fail_limit h.fails then lost else lives) (λ _. (v, same b, tt))
      (λ _.
        if_intro (IsDecided b) (leb fail_limit h.fails) lost lives
          (λ _.
            if_intro (IsDecided b) (same_sweep b.stranded_at b.sweeps) stay away
              (λ _. (v, same b, tt)) (λ _. (v, same b, alternatives_targets b)))
          (λ _.
            if_intro (IsDecided b) (alive h) (judge_by b.cfg.strategy now h b) stay
              (λ _. judge_by-IsDecided b.cfg.strategy now h b v) (λ _. (v, same b, tt))))
