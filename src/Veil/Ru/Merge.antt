-- ===== src/Veil/Ru/Merge.antt =====
-- veil/src/ru.rs: merging keeps the addresses, and puts the ranges apart.
use aurora_vpn.Prelude.{
  ℕ, ◌≤◌, ◌<◌, max, ◌≡◌, refl, ap, ◌∙◌, Bool, true, ◌||◌, List, [], ◌∷◌, arith, nat_eq, list_eq,
  pair_eq, All, if_intro,
}
use aurora_vpn.Ranges.{Range, find, range_le, insert_range, sort_ranges, in_range, in_any}
use aurora_vpn.Ranges.Search.{After, Apart, find-in_any}
use aurora_vpn.Veil.Ru.{meets, merge_loop, merge_sorted, merge}

abbrev pub Full : ℕ → Range → Type 0
Full limit r = (r.0 ≤ r.1) × (r.1 < limit)

-- Every range of the list starts at `lo` or behind it.
abbrev FromOn : ℕ → List Range → Type 0
FromOn lo [] = Unit
FromOn lo (r ∷ rs) = (lo ≤ r.0) × FromOn lo rs

abbrev Ordered : List Range → Type 0
Ordered [] = Unit
Ordered (r ∷ rs) = FromOn r.0 rs × Ordered rs

FromOn-le : (a b : ℕ) (rs : List Range) → a ≤ b → FromOn b rs → FromOn a rs
FromOn-le a b [] h f = tt
FromOn-le a b (r ∷ rs) h f = (omega (arith, f.0), FromOn-le a b rs h f.1)

insert_range-FromOn :
    (lo : ℕ) (r : Range) (rs : List Range) → lo ≤ r.0 → FromOn lo rs → FromOn lo (insert_range r rs)
unfolding insert_range
insert_range-FromOn lo r [] h f = (h, tt)
insert_range-FromOn lo r (s ∷ rs) h f = ground (arith, insert_range-FromOn lo r rs h f.1)

insert_range-Ordered : (r : Range) (rs : List Range) → Ordered rs → Ordered (insert_range r rs)
unfolding insert_range
insert_range-Ordered r [] o = (tt, tt)
insert_range-Ordered r (s ∷ rs) o =
    if_intro Ordered (range_le r s) (r ∷ s ∷ rs) (s ∷ insert_range r rs)
      (λ e. let h : r.0 ≤ s.0 = ground arith in ((h, FromOn-le r.0 s.0 rs h o.0), o))
      (λ e.
        let h : s.0 ≤ r.0 = ground arith in
        (insert_range-FromOn s.0 r rs h o.0, insert_range-Ordered r rs o.1))

sort_ranges-Ordered : (rs : List Range) → Ordered (sort_ranges rs)
unfolding sort_ranges
sort_ranges-Ordered [] = tt
sort_ranges-Ordered (r ∷ rs) = insert_range-Ordered r (sort_ranges rs) (sort_ranges-Ordered rs)

insert_range-in_any :
    (x : ℕ) (r : Range) (rs : List Range)
    → in_any x (insert_range r rs) ≡ (in_range x r || in_any x rs)
unfolding insert_range
insert_range-in_any x r [] = refl
insert_range-in_any x r (s ∷ rs) =
    let ih = insert_range-in_any x r rs in
    if_intro (λ ys. in_any x ys ≡ (in_range x r || (in_range x s || in_any x rs))) (range_le r s)
      (r ∷ s ∷ rs) (s ∷ insert_range r rs) (λ _. refl)
      (λ _. swap (in_range x r) (in_range x s) (in_any x rs) (in_any x (insert_range r rs)) ih)
  where
    swap : (a b c d : Bool) → d ≡ (a || c) → (b || d) ≡ (a || (b || c))
    swap a b c d h = ground arith

sort_ranges-in_any : (x : ℕ) (rs : List Range) → in_any x (sort_ranges rs) ≡ in_any x rs
unfolding sort_ranges
sort_ranges-in_any x [] = refl
sort_ranges-in_any x (r ∷ rs) =
    insert_range-in_any x r (sort_ranges rs) ∙ ap (λ b. in_range x r || b) (sort_ranges-in_any x rs)

All-insert_range :
    (P : Range → Type 0) (r : Range) (rs : List Range) → P r → All P rs → All P (insert_range r rs)
unfolding insert_range
All-insert_range P r [] h f = (h, tt)
All-insert_range P r (s ∷ rs) h f =
    if_intro (All P) (range_le r s) (r ∷ s ∷ rs) (s ∷ insert_range r rs) (λ _. (h, f))
      (λ _. (f.0, All-insert_range P r rs h f.1))

All-sort_ranges : (P : Range → Type 0) (rs : List Range) → All P rs → All P (sort_ranges rs)
unfolding sort_ranges
All-sort_ranges P [] f = tt
All-sort_ranges P (r ∷ rs) f = All-insert_range P r (sort_ranges rs) f.0 (All-sort_ranges P rs f.1)

-- What the loop puts out: it covers the last range and the rest, and stands apart.
abbrev IsMerged : ℕ → Range → List Range → List Range → Type 0
IsMerged lo last rs out =
    Apart out
    × ((a : ℕ) → a < lo → After a out)
    × ((x : ℕ) → in_any x out ≡ (in_range x last || in_any x rs))

merge_loop-IsMerged :
    (limit : ℕ) (last : Range) (rs : List Range)
    → Full limit last
    → All (Full limit) rs
    → FromOn last.0 rs
    → Ordered rs
    → IsMerged last.0 last rs (merge_loop limit last rs)
unfolding merge_loop
merge_loop-IsMerged limit last [] f fs o s = ((f.0, tt, tt), λ a h. (h, tt), λ x. refl)
merge_loop-IsMerged limit last (r ∷ rs) f fs o s =
    let wide : Range = (last.0, max last.1 r.1) in
    let one =
      merge_loop-IsMerged limit wide rs (omega (arith, f.0, fs.0.0), omega (arith, f.1, fs.0.1))
        fs.1 o.1 s.1 in
    let two = merge_loop-IsMerged limit r rs fs.0 fs.1 s.0 s.1 in
    if_intro (IsMerged last.0 last (r ∷ rs)) (meets limit last.1 r.0) (merge_loop limit wide rs)
      (last ∷ merge_loop limit r rs)
      (λ e. (
        one.0,
        one.1,
        λ x. one.2 x ∙ joined limit x last r (in_any x rs) e f.0 f.1 fs.0.0 fs.0.1 o.0,
      ))
      (λ e.
        let gap : last.1 < r.0 = ground arith in
        (
          (f.0, two.1 last.1 gap, two.0),
          λ a h. (h, two.1 a (omega (arith, f.0))),
          λ x. ap (λ b. in_range x last || b) (two.2 x),
        ))
  where
    joined :
        (limit x : ℕ) (last r : Range) (b : Bool)
        → meets limit last.1 r.0 ≡ true
        → last.0 ≤ last.1
        → last.1 < limit
        → r.0 ≤ r.1
        → r.1 < limit
        → last.0 ≤ r.0
        → (in_range x (last.0, max last.1 r.1) || b) ≡ (in_range x last || (in_range x r || b))
    joined limit x last r b e h1 h2 h3 h4 h5 = ground arith

-- Searching a merged list of non-empty ranges of the width answers whether one of the ranges given contains the address.
pub find-merge :
    (limit : ℕ) (rs : List Range) (x : ℕ)
    → All (Full limit) rs
    → find (merge limit rs) x ≡ in_any x rs
unfolding merge
find-merge limit rs x f =
    sorted (sort_ranges rs) (All-sort_ranges (Full limit) rs f) (sort_ranges-Ordered rs)
    ∙ sort_ranges-in_any x rs
  where
    sorted :
        (ss : List Range)
        → All (Full limit) ss
        → Ordered ss
        → find (merge_sorted limit ss) x ≡ in_any x ss
    sorted [] g o = find-in_any [] x tt
    sorted (s ∷ ss) g o =
        let m = merge_loop-IsMerged limit s ss g.0 g.1 o.0 o.1 in
        find-in_any (merge_loop limit s ss) x m.0 ∙ m.2 x
