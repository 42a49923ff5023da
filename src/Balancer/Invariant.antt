-- ===== src/Balancer/Invariant.antt =====
-- What holds of the automaton between its steps: whom it routes to and whom it may switch to.
use aurora_vpn.Prelude.{
  ℕ, ◌-◌, ◌≤◌, max, ◌≡◌, refl, inl, inr, true, false, ◌||◌, Option, none, some, List, [], ◌∷◌, ◌++◌,
  arith, if◌then◌else◌, Bool-cases, Option-cases, length, length-append, length-drop, nat_eq,
  list_beq_iff, list_eq, pair_eq, get, remove, insert, All, if_intro, if_intro,
}
use aurora_vpn.Balancer.{
  Tag, tag_eq, Config, Health, is_empty, Pending, Brain, new, contains, is_safe, knows, health_of,
  set_primary, mark_dead, measured, report, report_all, finish_sweep, end_chunk, report_batch,
  recheck, commit, abort, fail_limit, samples_limit,
}

-- A server a switch may go to: the primary or a candidate, and not the current one.
abbrev pub IsTarget : Tag → Tag → List Tag → Tag → Type 0
IsTarget primary routed candidates t =
    ((tag_eq t primary || contains candidates t) ≡ true) × (tag_eq t routed ≡ false)

abbrev pub queue_of : Option Pending → List Tag
queue_of none = []
queue_of (some p) = p.queue

abbrev pub Holds : Tag → Tag → List Tag → Option Pending → Type 0
Holds primary routed candidates pending =
    All (IsTarget primary routed candidates) (queue_of pending)

abbrev pub IsCandidate : List Tag → Tag → Type 0
IsCandidate candidates t = contains candidates t ≡ true

abbrev pub IsShort : Tag × Health → Type 0
IsShort e = length e.1.samples ≤ samples_limit

-- The current server is the primary or a candidate, a pending switch goes to such servers only
-- and never to the current one, the sweep holds candidates, and no server has over three samples.
pub record IsValid (b : Brain) : Type 0 where
  pub routed : (tag_eq b.routed b.primary || contains b.candidates b.routed) ≡ true
  pub pending : Holds b.primary b.routed b.candidates b.pending
  pub sweep : All (IsCandidate b.candidates) b.sweep
  pub samples : All IsShort b.health

pub tag_refl : (t : Tag) → tag_eq t t ≡ true
tag_refl t = (list_beq_iff nat_eq t t).1 refl

pub new-IsValid :
    (cfg : Config) (primary : Tag) (candidates : List Tag) → IsValid (new cfg primary candidates)
unfolding new
new-IsValid cfg primary candidates = record {
  routed = let h = tag_refl primary in ground arith;
  pending = tt;
  sweep = tt;
  samples = tt;
}

All-remove : (k : Tag) (m : List (Tag × Health)) → All IsShort m → All IsShort (remove k m)
unfolding remove
All-remove k [] h = tt
All-remove k ((j, v) ∷ m) h = ground (arith, All-remove k m h.1)

All-insert :
    (k : Tag) (v : Health) (m : List (Tag × Health))
    → IsShort (k, v)
    → All IsShort m
    → All IsShort (insert k v m)
unfolding insert
All-insert k v m hv h = (hv, All-remove k m h)

-- What a key finds is short, and so is the default.
get_short :
    (k : Tag) (m : List (Tag × Health)) (h : Health)
    → All IsShort m
    → get k m ≡ some h
    → length h.samples ≤ samples_limit
unfolding get
get_short k [] h hm e = absurd (ground arith)
get_short k ((j, v) ∷ m) h hm e =
    let rest = get_short k m h hm.1 in
    elim (Bool-cases (tag_eq j k)) [
      | inl t ↦ (let eq : some v ≡ some h = ground arith in let head = hm.0 in ground arith)
      | inr f ↦ rest (ground arith)
    ]

health_of_short :
    (t : Tag) (b : Brain) → All IsShort b.health → length (health_of t b).samples ≤ samples_limit
unfolding health_of
health_of_short t b h = elim (Option-cases (get t b.health)) [
  | inl e ↦ rw (e, length, health_of) (omega arith)
  | inr (v, e) ↦ rw (e, length) (get_short t b.health v h e)
]

measured_short :
    (r : Option ℕ) (now : ℕ) (h : Health)
    → length h.samples ≤ samples_limit
    → length (measured r now h).samples ≤ samples_limit
unfolding measured
measured_short none now h e = e
measured_short (some ms) now h e =
    let n = length-drop (length (h.samples ++ ms ∷ []) - samples_limit) (h.samples ++ ms ∷ []) in
    let m = length-append h.samples (ms ∷ []) in omega arith

pub report-IsValid :
    (tag : Tag) (r : Option ℕ) (now : ℕ) (b : Brain) → IsValid b → IsValid (report tag r now b)
unfolding report
report-IsValid tag r now b v = record {
  routed = v.routed;
  pending = v.pending;
  sweep = v.sweep;
  samples =
      All-insert tag (measured r now (health_of tag b)) b.health
        (measured_short r now (health_of tag b) (health_of_short tag b v.samples)) v.samples;
}

pub report_all-IsValid :
    (rs : List (Tag × Option ℕ)) (now : ℕ) (b : Brain) → IsValid b → IsValid (report_all rs now b)
unfolding report_all
report_all-IsValid [] now b v = v
report_all-IsValid ((tag, r) ∷ rs) now b v =
    report_all-IsValid rs now (report tag r now b) (report-IsValid tag r now b v)

pub finish_sweep-IsValid : (now : ℕ) (b : Brain) → IsValid b → IsValid (finish_sweep now b)
unfolding finish_sweep
finish_sweep-IsValid now b v = record {
  routed = v.routed;
  pending = v.pending;
  sweep = v.sweep;
  samples = v.samples;
}

end_chunk-IsValid : (now : ℕ) (b : Brain) → IsValid b → IsValid (end_chunk now b)
unfolding end_chunk finish_sweep
end_chunk-IsValid now b v =
    let still = record b { sweeping = false } in
    let keep : IsValid still = record {
      routed = v.routed;
      pending = v.pending;
      sweep = v.sweep;
      samples = v.samples;
    } in
    if_intro IsValid b.sweeping (if is_empty b.sweep then finish_sweep now still else still) b
      (λ e.
        if_intro IsValid (is_empty b.sweep) (finish_sweep now still) still
          (λ f. finish_sweep-IsValid now still keep) (λ f. keep))
      (λ e. v)

-- The results of a step keep what holds of the automaton.
pub report_batch-IsValid :
    (rs : List (Tag × Option ℕ)) (now : ℕ) (b : Brain) → IsValid b → IsValid (report_batch rs now b)
unfolding report_batch
report_batch-IsValid rs now b v =
    end_chunk-IsValid now (report_all rs now b) (report_all-IsValid rs now b v)

pub mark_dead-IsValid :
    (tag : Tag) (now : ℕ) (b : Brain) → IsValid b → IsValid (mark_dead tag now b)
unfolding mark_dead
mark_dead-IsValid tag now b v = record {
  routed = v.routed;
  pending = v.pending;
  sweep = v.sweep;
  samples =
      let h = health_of tag b in
      All-insert tag (record h { fails = max h.fails fail_limit; probed_at = some now }) b.health
        (health_of_short tag b v.samples) v.samples;
}

pub set_primary-IsValid : (tag : Tag) (b : Brain) → IsValid b → IsValid (set_primary tag b)
unfolding set_primary
set_primary-IsValid tag b v = record {
  routed = let h = tag_refl tag in ground arith;
  pending = tt;
  sweep = v.sweep;
  samples = v.samples;
}

pub abort-IsValid : (b : Brain) → IsValid b → IsValid (abort b)
unfolding abort
abort-IsValid b v = record { routed = v.routed; pending = tt; sweep = v.sweep; samples = v.samples }

recheck-IsShort : (to : Tag) (m : List (Tag × Health)) → All IsShort m → All IsShort (recheck to m)
unfolding recheck
recheck-IsShort to m h = elim (Option-cases (get to m)) [
  | inl e ↦ rw (e, All) h
  | inr (v, e) ↦
      rw (e, All) (All-insert to (record v { probed_at = none }) m (get_short to m v h e) h)
]

-- A switch to the primary or to a candidate.
pub commit-IsValid : (to : Tag) (b : Brain) → knows to b ≡ true → IsValid b → IsValid (commit to b)
unfolding commit knows is_safe
commit-IsValid to b k v = record {
  routed = k;
  pending = tt;
  sweep = v.sweep;
  samples = recheck-IsShort to b.health v.samples;
}
