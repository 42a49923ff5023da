-- ===== src/Ranges/Search.antt =====
-- The search finds what some range contains, if the ranges stand apart and in order.
use aurora_vpn.Prelude.{
  ℕ, zero, suc, ◌-◌, ◌≤◌, ◌<◌, ◌≡◌, refl, inl, inr, true, false, ◌&&◌, List, [], ◌∷◌, arith, ltb,
  leb, ◌==◌, if◌then◌else◌, ==_iff, Bool-cases, get_or, nat_eq, list_eq, pair_eq,
}
use aurora_vpn.Ranges.{Range, partition_point, find, in_any}

-- Every range of the list starts behind `lo`.
abbrev pub After : ℕ → List Range → Type 0
After lo [] = Unit
After lo (r ∷ rs) = (lo < r.0) × After lo rs

-- No range is empty, and each ends before the next one starts.
abbrev pub Apart : List Range → Type 0
Apart [] = Unit
Apart (r ∷ rs) = (r.0 ≤ r.1) × After r.1 rs × Apart rs

After-not_found :
    (x : ℕ) (rs : List Range)
    → After x rs
    → (in_any x rs ≡ false) × (partition_point (λ r. leb r.0 x) rs ≡ 0)
unfolding partition_point
After-not_found x [] h = (refl, refl)
After-not_found x (r ∷ rs) h = ground (arith, After-not_found x rs h.1)

After-le : (a b : ℕ) (rs : List Range) → a ≤ b → After b rs → After a rs
After-le a b [] h f = tt
After-le a b (r ∷ rs) h f = (omega (arith, f.0), After-le a b rs h f.1)

-- Which range the search looks at, behind a first one that starts in time.
look_cons :
    (n : ℕ) (r : Range) (rs : List Range) (x : ℕ)
    → (ltb 0 (suc n) && leb x (get_or (r ∷ rs) (suc n - 1) (0, 0)).1)
      ≡ (if n == 0 then leb x r.1 else ltb 0 n && leb x (get_or rs (n - 1) (0, 0)).1)
look_cons zero r rs x = refl
look_cons (suc n) r rs x =
    let e1 : suc (suc n) - 1 ≡ suc n = omega arith in
    let e2 : suc n - 1 ≡ n = omega arith in
    let e3 : ltb 0 (suc (suc n)) ≡ true = ground arith in
    let e4 : ltb 0 (suc n) ≡ true = ground arith in
    let e5 : (suc n == 0) ≡ false = ground arith in rw (e1, e2, e3, e4, e5) refl

find_cons :
    (r : Range) (rs : List Range) (x : ℕ)
    → r.0 ≤ x
    → find (r ∷ rs) x ≡ (if partition_point (λ s. leb s.0 x) rs == 0 then leb x r.1 else find rs x)
unfolding find partition_point
find_cons r rs x h =
    let t : leb r.0 x ≡ true = ground arith in
    rw (find, partition_point, t) (look_cons (partition_point (λ s. leb s.0 x) rs) r rs x)

-- A search that parts nothing finds nothing.
find_none : (rs : List Range) (x : ℕ) → partition_point (λ s. leb s.0 x) rs ≡ 0 → find rs x ≡ false
unfolding find
find_none rs x h = rw (find, h) refl

partition_point_first :
    (r : Range) (rs : List Range) (x : ℕ)
    → (leb r.0 x ≡ true → (partition_point (λ s. leb s.0 x) (r ∷ rs) == 0) ≡ false)
      × (leb r.0 x ≡ false → partition_point (λ s. leb s.0 x) (r ∷ rs) ≡ 0)
unfolding partition_point
partition_point_first r rs x = (λ h. ground arith, λ h. ground arith)

-- The search for an address answers whether some range contains it, in a list of ranges that
-- stand apart and in order.
pub find-in_any : (rs : List Range) (x : ℕ) → Apart rs → find rs x ≡ in_any x rs
unfolding partition_point
find-in_any [] x h = find_none [] x refl
find-in_any (r ∷ rs) x h =
    let ih = find-in_any rs x h.2 in
    elim (Bool-cases (leb r.0 x)) [
      | inr e ↦
          (let n = find_none (r ∷ rs) x ((partition_point_first r rs x).1 e) in
            let away = After-not_found x rs (After-le x r.1 rs (ground (arith, h.0)) h.1) in
            ground arith)
      | inl e ↦
          (let c = find_cons r rs x (ground arith) in
            let none_left = find_none rs x in
            elim (Bool-cases (leb x r.1)) [
              | inl f ↦
                  (let away = After-not_found x rs (After-le x r.1 rs (ground arith) h.1) in
                    ground arith)
              | inr f ↦ elim (Bool-cases (partition_point (λ s. leb s.0 x) rs == 0)) [
                | inl z ↦ (let away = find_none rs x ((==_iff _ 0).0 z) in ground arith)
                | inr z ↦ ground arith
              ]
            ])
    ]
