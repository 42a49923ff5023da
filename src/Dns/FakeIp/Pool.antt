-- ===== src/Dns/FakeIp/Pool.antt =====
-- engine/src/dns.rs: names and indices of the pool belong to each other.
use aurora_vpn.Prelude.{
  ℕ, ◌+◌, ◌-◌, ◌%◌, ◌^◌, ◌≤◌, ◌<◌, max, ◌≡◌, refl, sym, ap, ◌∙◌, ◌≢◌, inl, inr, false, ◌||◌, none,
  some, List, arith, ltb, leb, ◌==◌, Bool-cases, Option-cases, ◌=?◌, =?_iff, nat_eq, list_eq,
  pair_eq, get, insert, get-remove, get-insert,
}
use aurora_vpn.Dns.Wire.{qtype_aaaa}
use aurora_vpn.Dns.FakeIp.{FakeIp, take_index, index_for, fake_address, allocate, lookup, forget}

-- The two maps are inverse to each other and the ranges fit their integers.
pub record IsPool (s : FakeIp) : Type 0 where
  pub forth : (name : List ℕ) (i : ℕ) → get name s.by_name ≡ some i → get i s.by_index ≡ some name
  pub back : (name : List ℕ) (i : ℕ) → get i s.by_index ≡ some name → get name s.by_name ≡ some i
  pub within : (name : List ℕ) (i : ℕ) → get name s.by_name ≡ some i → i < s.v4_size
  pub sized : (4 ≤ s.v4_size) × (s.v4_size < 2 ^ 32)
  pub room4 : s.v4_base + s.v4_size ≤ 2 ^ 32
  pub room6 : s.v6_base + s.v4_size ≤ 2 ^ 128

abbrev cleared : ℕ → FakeIp → List (List ℕ × ℕ)
cleared index s = forget (get index s.by_index) s.by_name

some-injective : (x y : ℕ) → some x ≡ some y → x ≡ y
some-injective x y e = cc

get-cleared :
    (s : FakeIp) (index : ℕ) (n : List ℕ) (i : ℕ)
    → IsPool s
    → get n (cleared index s) ≡ some i
    → (get n s.by_name ≡ some i) × (i ≢ index)
get-cleared s index n i p h = elim (Option-cases (get index s.by_index)) [
  | inl e ↦ (let h2 = rw (cleared, e) at h in let f = p.forth n i h2 in (h2, λ q. cc))
  | inr (old, e) ↦ elim (Bool-cases (old =? n)) [
    | inl t ↦ (let h2 = rw (cleared, e, get-remove old n s.by_name, t) at h in absurd (cc))
    | inr t ↦
        (let h2 = rw (cleared, e, get-remove old n s.by_name, t) at h in
          let f = p.forth n i h2 in
          let y = (=?_iff old n).1 in (h2, λ q. (let z : old ≡ n = cc in let w = y z in cc)))
  ]
]

cleared_keeps :
    (s : FakeIp) (index : ℕ) (n : List ℕ) (i : ℕ)
    → IsPool s
    → get n s.by_name ≡ some i
    → i ≢ index
    → get n (cleared index s) ≡ some i
cleared_keeps s index n i p h d = elim (Option-cases (get index s.by_index)) [
  | inl e ↦ rw (cleared, e) h
  | inr (old, e) ↦ elim (Bool-cases (old =? n)) [
    | inl t ↦
        (let b = p.back old index e in
          let g = (=?_iff old n).0 t in
          let same : some index ≡ some i = sym b ∙ ap (λ k. get k s.by_name) g ∙ h in
          absurd (d (sym (some-injective index i same))))
    | inr t ↦ rw (cleared, e, get-remove old n s.by_name, t) h
  ]
]

module _ (name : List ℕ) (index : ℕ) (s : FakeIp) (p : IsPool s)
    (free : get name s.by_name ≡ none) where
  take_index_forth :
      (n : List ℕ) (i : ℕ)
      → get n (insert name index (cleared index s)) ≡ some i
      → get i (insert index name s.by_index) ≡ some n
  take_index_forth n i e = elim (Bool-cases (name =? n)) [
    | inl t ↦
        (let e2 = rw (get-insert name n index (cleared index s), t) at e in
          let g = (=?_iff name n).0 t in
          let here = (=?_iff index i).1 (some-injective index i e2) in
          rw (get-insert index i name s.by_index, here) (ap some g))
    | inr t ↦
        (let e2 = rw (get-insert name n index (cleared index s), t) at e in
          let (f, d) = get-cleared s index n i p e2 in
          let there : (index =? i) ≡ false = elim (Bool-cases (index =? i)) [
            | inl u ↦ absurd (d (sym ((=?_iff index i).0 u)))
            | inr u ↦ u
          ] in
          rw (get-insert index i name s.by_index, there) (p.forth n i f))
  ]

  take_index_back :
      (n : List ℕ) (i : ℕ)
      → get i (insert index name s.by_index) ≡ some n
      → get n (insert name index (cleared index s)) ≡ some i
  take_index_back n i e = elim (Bool-cases (index =? i)) [
    | inl t ↦
        (let e2 = rw (get-insert index i name s.by_index, t) at e in
          let g : name ≡ n = cc in
          let here = (=?_iff name n).1 g in
          rw (get-insert name n index (cleared index s), here) (ap some ((=?_iff index i).0 t)))
    | inr t ↦
        (let e2 = rw (get-insert index i name s.by_index, t) at e in
          let b = p.back n i e2 in
          let other : (name =? n) ≡ false = elim (Bool-cases (name =? n)) [
            | inl u ↦ (let g = (=?_iff name n).0 u in absurd (cc))
            | inr u ↦ u
          ] in
          let d : i ≢ index = λ q. (let u = (=?_iff index i).1 (sym q) in cc) in
          rw (get-insert name n index (cleared index s), other) (cleared_keeps s index n i p b d))
  ]

  take_index_within :
      index < s.v4_size
      → (n : List ℕ) (i : ℕ) → get n (insert name index (cleared index s)) ≡ some i
      → i < s.v4_size
  take_index_within h n i e = elim (Bool-cases (name =? n)) [
    | inl t ↦
        (let e2 = rw (get-insert name n index (cleared index s), t) at e in
          let g = some-injective index i e2 in omega arith)
    | inr t ↦
        (let e2 = rw (get-insert name n index (cleared index s), t) at e in
          p.within n i (get-cleared s index n i p e2).0)
  ]

  take_index-IsPool : index < s.v4_size → IsPool (take_index name index s)
  unfolding take_index
  take_index-IsPool h = record {
    forth = take_index_forth;
    back = take_index_back;
    within = λ n i e. take_index_within h n i e;
    sized = p.sized;
    room4 = p.room4;
    room6 = p.room6;
  }

-- The index that the counter points to lies in the range.
next_index : (s : FakeIp) → IsPool s → s.next % max s.v4_size 4 < s.v4_size
next_index s p =
    let m : max s.v4_size 4 ≡ s.v4_size = omega (arith, p.sized) in rw m (omega (arith, p.sized))

-- Giving a name its index keeps a pool valid, the eviction of another name and the wrap of the
-- counter included: names and indices are inverse to each other, every index lies in the range, and
-- the ranges fit their integers.
pub index_for-IsPool : (name : List ℕ) (s : FakeIp) → IsPool s → IsPool (index_for name s).1
unfolding index_for
index_for-IsPool name s p = elim (Option-cases (get name s.by_name)) [
  | inl e ↦
      rw (index_for, e) (take_index-IsPool name (s.next % max s.v4_size 4) s p e (next_index s p))
  | inr (i, e) ↦ rw (index_for, e) p
]

-- The name stands behind its index, and the ranges stay.
pub index_for_found :
    (name : List ℕ) (s : FakeIp)
    → IsPool s
    → (get (index_for name s).0 (index_for name s).1.by_index ≡ some name)
      × ((index_for name s).0 < s.v4_size)
      × ((index_for name s).1.v4_base ≡ s.v4_base)
      × ((index_for name s).1.v4_size ≡ s.v4_size)
      × ((index_for name s).1.v6_base ≡ s.v6_base)
unfolding index_for take_index
index_for_found name s p = elim (Option-cases (get name s.by_name)) [
  | inl e ↦
      (let i = s.next % max s.v4_size 4 in
        let same = (=?_iff i i).1 refl in
        rw (index_for, e)
          (rw (get-insert i i name s.by_index, same) refl, next_index s p, refl, refl, refl))
  | inr (i, e) ↦ rw (index_for, e) (p.forth name i e, p.within name i e, refl, refl, refl)
]

lookup_index :
    (name : List ℕ) (qtype i : ℕ) (s : FakeIp)
    → IsPool s
    → get i s.by_index ≡ some name
    → i < s.v4_size
    → lookup (fake_address s qtype i) s ≡ some name
unfolding lookup
lookup_index name qtype i s p e h =
    let (low, high) = p.sized in
    let r4 = p.room4 in
    let r6 = p.room6 in
    elim (Bool-cases (qtype == qtype_aaaa)) [
      | inl t ↦
          (let v = (s.v6_base + i) % 2 ^ 128 in
            let at : (v - s.v6_base) % 2 ^ 32 ≡ i = omega arith in
            let inside : (ltb v s.v6_base || leb s.v4_size (v - s.v6_base)) ≡ false =
              ground arith in
            rw t (rw (lookup, inside, at) e))
      | inr t ↦
          (let v = (s.v4_base + i) % 2 ^ 32 in
            let at : v - s.v4_base ≡ i = omega arith in
            let inside : (ltb v s.v4_base || leb s.v4_size (v - s.v4_base)) ≡ false =
              ground arith in
            rw t (rw (lookup, inside, at) e))
    ]

-- In a valid pool the address that a name gets, of either family and whatever the pool held, leads
-- back to the name.
pub lookup-allocate :
    (name : List ℕ) (qtype : ℕ) (s : FakeIp)
    → IsPool s
    → lookup (allocate name qtype s).0 (allocate name qtype s).1 ≡ some name
unfolding allocate
lookup-allocate name qtype s p =
    let (found, small, b4, size, b6) = index_for_found name s p in
    lookup_index name qtype (index_for name s).0 (index_for name s).1 (index_for-IsPool name s p)
      found (rw size small)
