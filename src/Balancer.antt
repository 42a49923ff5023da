-- ===== src/Balancer.antt =====
-- src-tauri/src/core/balancer.rs: the automaton that decides through which server traffic goes.
-- Times are milliseconds; `duration_since` and `saturating_sub` stop at 0, as `-` does. A tag is
-- the bytes of its text. The counters of misses, rounds and sweeps are unbounded numbers.
pub mod Judge
pub mod Drive
pub mod Queues
pub mod Invariant
pub mod Decide
pub mod Runs
pub mod Reports
mod Tests
use aurora_vpn.Prelude.{
  ℕ, ◌+◌, ◌-◌, ◌/◌, ◌%◌, ◌^◌, ◌≡◌, Bool, true, false, ◌&&◌, ◌||◌, not, Option, none, some, List, [],
  ◌∷◌, ◌++◌, length, drop, get_elem?, ltb, leb, ◌==◌, if◌then◌else◌, get, insert, is_some, list_eq,
  nat_eq, list_beq, sort_by, max, map,
}

abbrev pub Tag : Type 0
Tag = List ℕ

abbrev pub tag_eq : Tag → Tag → Bool
tag_eq = list_beq ◌==◌

abbrev pub probe_every : ℕ
probe_every = 20000

abbrev pub retry_after : ℕ
retry_after = 5000

abbrev pub fail_limit : ℕ
fail_limit = 2

abbrev pub streak_limit : ℕ
streak_limit = 2

abbrev pub recover_base : ℕ
recover_base = 3

abbrev pub chunk : ℕ
chunk = 8

abbrev pub samples_limit : ℕ
samples_limit = 3

abbrev pub fresh_for : ℕ
fresh_for = 30000

abbrev pub idle_cap : ℕ
idle_cap = 30000

pub data Strategy : Type 0 where
  manual failover fastest rotate : Strategy

pub record Config : Type 0 where
  pub strategy : Strategy
  pub tolerance : ℕ
  pub interval : ℕ

-- What is known of a server; the samples stand oldest first.
pub record Health : Type 0 where
  pub samples : List ℕ
  pub fails : ℕ
  pub ok_at : Option ℕ
  pub probed_at : Option ℕ

-- `Health::default()`
abbrev pub unknown : Health
unknown = record { samples = []; fails = 0; ok_at = none; probed_at = none }

abbrev pub is_empty {ℓ} : {A : Type ℓ} → List A → Bool
is_empty [] = true
is_empty (x ∷ xs) = false

unfoldable pub alive : Health → Bool
alive h = h.fails == 0 && not (is_empty h.samples)

-- The median of the samples.
unfoldable pub delay : Health → Option ℕ
delay h = get_elem? (sort_by (λ x. x) h.samples) (length h.samples / 2)

unfoldable pub last : List ℕ → Option ℕ
last [] = none
last (x ∷ []) = some x
last (x ∷ y ∷ xs) = last (y ∷ xs)

unfoldable pub latest : Health → Option ℕ
unfolding last
latest h = last h.samples

pub data Reason : Type 0 where
  initial : ℕ → Reason
  dead : ℕ → Reason
  faster : ℕ → Reason
  recovered rotation : Reason

pub data Step : Type 0 where
  idle : ℕ → Step
  probe : List Tag → Step
  switch : Tag → Tag → Reason → Step
  stranded : Step

pub record Pending : Type 0 where
  pub reason : Reason
  pub queue : List Tag
  pub since : ℕ

pub record Brain : Type 0 where
  pub cfg : Config
  pub primary : Tag
  pub routed : Tag
  pub candidates : List Tag
  pub health : List (Tag × Health)
  pub sweep : List Tag
  pub sweeping : Bool
  pub last_sweep : Option ℕ
  pub sweeps : ℕ
  pub judged : ℕ
  pub rounds : ℕ
  pub ahead : Option (Tag × ℕ)
  pub primary_ok : ℕ
  pub primary_deaths : ℕ
  pub pending : Option Pending
  pub stranded_at : Option ℕ

unfoldable pub new : Config → Tag → List Tag → Brain
new cfg primary candidates = record {
  cfg = cfg;
  primary = primary;
  routed = primary;
  candidates = candidates;
  health = [];
  sweep = [];
  sweeping = false;
  last_sweep = none;
  sweeps = 0;
  judged = 0;
  rounds = 0;
  ahead = none;
  primary_ok = 0;
  primary_deaths = 0;
  pending = none;
  stranded_at = none;
}

abbrev pub contains : List Tag → Tag → Bool
contains [] tag = false
contains (c ∷ cs) tag = tag_eq c tag || contains cs tag

unfoldable pub is_safe : Tag → Brain → Bool
is_safe tag b = contains b.candidates tag

unfoldable pub knows : Tag → Brain → Bool
unfolding is_safe
knows tag b = tag_eq tag b.primary || is_safe tag b

-- `health.get(tag).cloned().unwrap_or_default()`
unfoldable pub health_of : Tag → Brain → Health
health_of tag b = elim (get tag b.health) [ none ↦ unknown | some h ↦ h ]

-- The loop of `inherit` over the predecessor's memory.
unfoldable pub inherit_health : List (Tag × Health) → Brain → Brain
unfolding knows
inherit_health [] b = b
inherit_health ((tag, h) ∷ rest) b =
    inherit_health rest (if knows tag b then record b { health = insert tag h b.health } else b)

unfoldable pub inherit_primary : Brain → Brain → Brain
unfolding knows
inherit_primary old b =
    if tag_eq old.primary b.primary
    then (if knows old.routed b
        then record b { primary_deaths = old.primary_deaths; routed = old.routed }
        else record b { primary_deaths = old.primary_deaths })
    else b

unfoldable pub inherit : Brain → Brain → Brain
unfolding inherit_health inherit_primary
inherit b old = inherit_primary old (record (inherit_health old.health b) {
  sweeps = old.sweeps;
  judged = old.sweeps;
  last_sweep = old.last_sweep;
})

unfoldable pub routed_down : Brain → Bool
routed_down b = elim (get b.routed b.health) [ none ↦ false | some h ↦ leb fail_limit h.fails ]

unfoldable pub routed_alive : Brain → Bool
unfolding alive
routed_alive b = elim (get b.routed b.health) [ none ↦ false | some h ↦ alive h ]

unfoldable pub set_primary : Tag → Brain → Brain
set_primary tag b = record b {
  primary = tag;
  routed = tag;
  primary_ok = 0;
  primary_deaths = 0;
  ahead = none;
  pending = none;
  stranded_at = none;
  judged = b.sweeps;
}

unfoldable pub mark_dead : Tag → ℕ → Brain → Brain
unfolding health_of
mark_dead tag now b =
    let h = health_of tag b in
    record b {
      health =
          insert tag (record h { fails = max h.fails fail_limit; probed_at = some now }) b.health;
      primary_ok = if tag_eq tag b.primary then 0 else b.primary_ok;
    }

-- `while samples.len() > SAMPLES { samples.pop_front() }`
abbrev pub trim : List ℕ → List ℕ
trim xs = drop (length xs - samples_limit) xs

unfoldable pub measured : Option ℕ → ℕ → Health → Health
measured (some ms) now h = record h {
  samples = trim (h.samples ++ ms ∷ []);
  fails = 0;
  ok_at = some now;
  probed_at = some now;
}
measured none now h = record h { fails = h.fails + 1; probed_at = some now }

unfoldable pub report : Tag → Option ℕ → ℕ → Brain → Brain
unfolding measured health_of
report tag result now b = record b {
  health = insert tag (measured result now (health_of tag b)) b.health;
  primary_ok =
      if tag_eq tag b.primary && not (tag_eq b.routed b.primary)
      then (if is_some result then b.primary_ok + 1 else 0)
      else b.primary_ok;
}

unfoldable pub report_all : List (Tag × Option ℕ) → ℕ → Brain → Brain
unfolding report
report_all [] now b = b
report_all ((tag, result) ∷ rest) now b = report_all rest now (report tag result now b)

unfoldable pub finish_sweep : ℕ → Brain → Brain
finish_sweep now b = record b { sweeps = b.sweeps + 1; last_sweep = some now }

unfoldable pub end_chunk : ℕ → Brain → Brain
unfolding finish_sweep
end_chunk now b =
    if b.sweeping
    then (let b' = record b { sweeping = false } in
        if is_empty b.sweep then finish_sweep now b' else b')
    else b

unfoldable pub report_batch : List (Tag × Option ℕ) → ℕ → Brain → Brain
unfolding report_all end_chunk
report_batch results now b = end_chunk now (report_all results now b)

abbrev pub is_dead : Option Pending → Bool
is_dead none = false
is_dead (some p) = elim p.reason [ dead fails ↦ true | _ ↦ false ]

-- `if let Some(health) = self.health.get_mut(tag) { health.probed_at = None }`
unfoldable pub recheck : Tag → List (Tag × Health) → List (Tag × Health)
recheck tag m = elim (get tag m) [
  | none ↦ m
  | some h ↦ insert tag (record h { probed_at = none }) m
]

unfoldable pub commit : Tag → Brain → Brain
unfolding recheck
commit to b = record b {
  primary_deaths =
      if is_dead b.pending && tag_eq b.routed b.primary
      then b.primary_deaths + 1
      else b.primary_deaths;
  pending = none;
  routed = to;
  primary_ok = 0;
  ahead = none;
  stranded_at = none;
  health = recheck to b.health;
}

unfoldable pub abort : Brain → Brain
abort b = record b { pending = none }
