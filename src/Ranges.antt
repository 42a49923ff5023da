-- ===== src/Ranges.antt =====
-- Sorted lists of address ranges, as veil/src/ru.rs and engine/src/ruleset.rs keep them, and the
-- search in them. A range is its first and its last address.
pub mod Search
use aurora_vpn.Prelude.{
  ℕ, zero, suc, ◌+◌, ◌-◌, ◌*◌, ◌/◌, ◌%◌, ◌^◌, ◌≤◌, ◌<◌, min, max, ◌≡◌, refl, sym, ap, ◌∙◌, ◌≢◌, ◌↔◌,
  ◌⊎◌, inl, inr, Bool, true, false, ◌&&◌, ◌||◌, not, Option, none, some, List, [], ◌∷◌, ◌++◌, map,
  append_assoc, append-nil, arith, ltb, leb, ◌==◌, if◌then◌else◌, ltb→lt, lt→ltb, leb→le, ==_iff,
  tests, Bool-cases, Option-cases, length, get_elem?, get_or, take, drop, replicate, length-append,
  length-take, length-drop, take-append-drop, length-map, length-replicate, Eq, ◌=?◌, =?_iff,
  nat_eq, list_beq, list_beq_iff, list_eq, pair_eq, is_some, get, remove, insert, get-remove,
  get-insert, All, IsByte, All-append, to_be, from_be, length-to_be, to_be-IsByte, byte_at,
  byte_at-IsByte, u16_be, slice?, put, length-put, ◌>>=◌, >>=-eq-some, if_intro, insert_by, sort_by,
  min_by, length-insert_by, length-sort_by,
}

abbrev pub Range : Type 0
Range = ℕ × ℕ

-- `partition_point` of a list that the test parts: the length of its first part.
unfoldable pub partition_point : (Range → Bool) → List Range → ℕ
partition_point p [] = 0
partition_point p (r ∷ rs) = let n = partition_point p rs in if p r then suc n else 0

unfoldable pub find : List Range → ℕ → Bool
unfolding partition_point
find rs x =
    let i = partition_point (λ r. leb r.0 x) rs in ltb 0 i && leb x (get_or rs (i - 1) (0, 0)).1

-- The order of pairs.
abbrev pub range_le : Range → Range → Bool
range_le r s = ltb r.0 s.0 || r.0 == s.0 && leb r.1 s.1

unfoldable pub insert_range : Range → List Range → List Range
insert_range r [] = r ∷ []
insert_range r (s ∷ rs) =
    let rest = insert_range r rs in if range_le r s then r ∷ s ∷ rs else s ∷ rest

-- `sort_unstable`
unfoldable pub sort_ranges : List Range → List Range
unfolding insert_range
sort_ranges [] = []
sort_ranges (r ∷ rs) = insert_range r (sort_ranges rs)

abbrev pub in_range : ℕ → Range → Bool
in_range x r = leb r.0 x && leb x r.1

abbrev pub in_any : ℕ → List Range → Bool
in_any x [] = false
in_any x (r ∷ rs) = in_range x r || in_any x rs
