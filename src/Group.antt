-- ===== src/Group.antt =====
-- engine/src/outbound/group.rs: the selector and the urltest group. A tag is the bytes of its text. What
-- the probe of a member gives in a round is a parameter, `none` for a failed one.
pub mod Best
pub mod Rounds
pub mod Choices
mod Tests
use aurora_vpn.Prelude.{
  ℕ, zero, suc, ◌+◌, ◌-◌, ◌*◌, ◌/◌, ◌%◌, ◌^◌, ◌≤◌, ◌<◌, min, max, ◌≡◌, refl, sym, ap, ◌∙◌, ◌≢◌, ◌↔◌,
  ◌⊎◌, inl, inr, Bool, true, false, ◌&&◌, ◌||◌, not, Option, none, some, List, [], ◌∷◌, ◌++◌, map,
  append_assoc, append-nil, arith, ltb, leb, ◌==◌, if◌then◌else◌, ltb→lt, lt→ltb, leb→le, ==_iff,
  tests, Bool-cases, Option-cases, length, get_elem?, get_or, take, drop, replicate, length-append,
  length-take, length-drop, take-append-drop, length-map, length-replicate, Eq, ◌=?◌, =?_iff,
  nat_eq, list_beq, list_beq_iff, list_eq, pair_eq, is_some, get, remove, insert, get-remove,
  get-insert, All, IsByte, All-append, to_be, from_be, length-to_be, to_be-IsByte, byte_at,
  byte_at-IsByte, u16_be, slice?, put, length-put, ◌>>=◌, >>=-eq-some, if_intro, insert_by, sort_by,
  min_by, length-insert_by, length-sort_by,
}

abbrev pub Tag : Type 0
Tag = List ℕ

abbrev pub first : List Tag → Option Tag
first [] = none
first (t ∷ ts) = some t

pub record Selector : Type 0 where
  pub members : List Tag
  pub current : Tag

abbrev pub or_empty : Option Tag → Tag
or_empty none = []
or_empty (some t) = t

-- The configured default, or the first of the outbounds.
unfoldable pub new_selector : Tag → List Tag → Selector
new_selector default outbounds = record {
  members = outbounds;
  current = if list_beq ◌==◌ default [] then or_empty (first outbounds) else default;
}

abbrev pub has : Tag → List Tag → Bool
has t [] = false
has t (m ∷ ms) = list_beq ◌==◌ m t || has t ms

-- `none` for a tag that is no member.
unfoldable pub select : Tag → Selector → Option Selector
select t s = if not (has t s.members) then none else some (record s { current = t })

-- The state of `UrlTestState` that a round reads and writes, and its clock.
pub record UrlTest : Type 0 where
  pub members : List Tag
  pub idle : ℕ
  pub tolerance : ℕ
  pub best : Option (Tag × ℕ)
  pub last_used : ℕ
  pub running : Bool

-- `chunks(8)`, on fuel that counts the members.
abbrev pub chunks : ℕ → List Tag → List (List Tag)
chunks zero ts = []
chunks (suc fuel) [] = []
chunks (suc fuel) (t ∷ ts) = take 8 (t ∷ ts) ∷ chunks fuel (drop 8 (t ∷ ts))

abbrev pub better : Tag → Option ℕ → Option (Tag × ℕ) → Option (Tag × ℕ)
better t none best = best
better t (some ms) none = some (t, ms)
better t (some ms) (some (b, least)) = if ltb ms least then some (t, ms) else some (b, least)

-- Whether the old best stays.
abbrev pub keep : ℕ → Option (Tag × ℕ) → Option (Tag × ℕ) → Bool
keep tolerance (some (t, old)) (some (u, new)) = leb old ((new + tolerance) % 2 ^ 32)
keep tolerance old new = false

module _ (probe : Tag → Option ℕ) where
  abbrev pub measure_chunk : List Tag → Option (Tag × ℕ) → Option (Tag × ℕ)
  measure_chunk [] best = best
  measure_chunk (t ∷ ts) best = measure_chunk ts (better t (probe t) best)

  abbrev pub measure_all : List (List Tag) → Option (Tag × ℕ) → Option (Tag × ℕ)
  measure_all [] best = best
  measure_all (c ∷ cs) best = measure_all cs (measure_chunk c best)

  unfoldable pub measure : List Tag → Option (Tag × ℕ)
  measure ts = measure_all (chunks (length ts) ts) none

  unfoldable pub round : UrlTest → UrlTest
  unfolding measure
  round g =
      let best = measure g.members in
      if not (keep g.tolerance g.best best) && is_some best then record g { best = best } else g

-- A use of the group, and whether it starts the task that measures.
unfoldable pub touch : ℕ → UrlTest → UrlTest × Bool
touch now g = (record g { last_used = now; running = true }, not g.running)

-- What the task does behind its sleep: it ends when the group has been idle for too long.
unfoldable pub after_sleep : ℕ → UrlTest → UrlTest
after_sleep now g = if ltb g.idle (now - g.last_used) then record g { running = false } else g

abbrev pub tag_of : Option (Tag × ℕ) → List Tag → Option Tag
tag_of none ts = first ts
tag_of (some (t, ms)) ts = some t

-- The member that a connection goes to.
unfoldable pub member : ℕ → UrlTest → Option Tag × UrlTest
unfolding touch
member now g = let g = (touch now g).0 in (tag_of g.best g.members, g)
