-- ===== src/Dns/Wire/Records.antt =====
-- engine/src/dns.rs: the names that are skipped and one record of an answer.
use aurora_vpn.Prelude.{
  ℕ, zero, suc, ◌+◌, ◌-◌, ◌^◌, ◌≤◌, ◌<◌, min, ◌≡◌, refl, sym, ap, ◌∙◌, ◌⊎◌, inl, inr, true, false,
  ◌||◌, Option, none, some, List, [], ◌∷◌, ◌++◌, append_assoc, append-nil, arith, ltb, leb, ◌==◌,
  Bool-cases, length, get_elem?, length-append, nat_eq, list_eq, pair_eq, to_be, from_be, slice?,
  >>=-eq-some,
}
use aurora_vpn.Prelude.Slices.{from_be_back, slice?-append, get_elem?-append}
use aurora_vpn.Net.{IpAddr}
use aurora_vpn.Dns.Wire.{u16_at, labels, skip_loop, skip_name, address, read_answers}
use aurora_vpn.Dns.Wire.Queries.{u16_at-append}

-- One round of the loop over the labels that gets through.
labels_step :
    (lossy : List ℕ → List ℕ) (fuel : ℕ) (q : List ℕ) (i : ℕ) (name nm : List ℕ) (j : ℕ)
    → labels lossy (suc fuel) q i name ≡ some (nm, j)
    → (len : ℕ) × (get_elem? q i ≡ some len)
      × (((len ≡ 0) × (i + 1 ≡ j))
          ⊎ ((0 < len)
              × (len < 64)
              × (grown : List ℕ) × (labels lossy fuel q (i + 1 + len) grown ≡ some (nm, j))))
unfolding labels
labels_step lossy fuel q i name nm j e =
    let (len, first, e1) = >>=-eq-some (get_elem? q i) _ e in
    elim (Bool-cases (len == 0)) [
      | inl z ↦ (let e2 = rw z at e1 in (len, first, inl (ground arith, cc)))
      | inr nz ↦ elim (Bool-cases (leb 64 len || ltb 253 (length name + len))) [
        | inl bad ↦ (let e2 = rw (nz, bad) at e1 in absurd (cc))
        | inr good ↦
            (let e2 = rw (nz, good) at e1 in
              let (label, part, e3) = >>=-eq-some (slice? q (i + 1) len) _ e2 in
              (len, first, inr (ground arith, ground arith, _, e3)))
      ]
    ]

pub labels_forward :
    (lossy : List ℕ → List ℕ) (fuel : ℕ) (q : List ℕ) (i : ℕ) (name nm : List ℕ) (j : ℕ)
    → labels lossy fuel q i name ≡ some (nm, j)
    → i < j
unfolding labels
labels_forward lossy zero q i name nm j e = absurd (cc)
labels_forward lossy (suc fuel) q i name nm j e =
    let (len, first, cases) = labels_step lossy fuel q i name nm j e in
    elim cases [
      | inl (z, at) ↦ omega arith
      | inr (pos, small, grown, e2) ↦
          (let ih = labels_forward lossy fuel q (i + 1 + len) grown nm j e2 in omega arith)
    ]

-- Where the loop over the labels gets through, `skip_name` comes to the same place, on any packet that agrees that far.
pub skip_loop-labels :
    (lossy : List ℕ → List ℕ) (fuel : ℕ) (q r : List ℕ) (i : ℕ) (name nm : List ℕ) (j fuel' : ℕ)
    → labels lossy fuel q i name ≡ some (nm, j)
    → ((k : ℕ) → 12 ≤ k → k < j → get_elem? r k ≡ get_elem? q k)
    → 12 ≤ i
    → j ≤ i + fuel'
    → skip_loop fuel' r i ≡ some j
unfolding labels skip_loop
skip_loop-labels lossy zero q r i name nm j fuel' e same hi hf = absurd (cc)
skip_loop-labels lossy (suc fuel) q r i name nm j zero e same hi hf =
    let f = labels_forward lossy (suc fuel) q i name nm j e in absurd (omega arith)
skip_loop-labels lossy (suc fuel) q r i name nm j (suc fuel') e same hi hf =
    let f = labels_forward lossy (suc fuel) q i name nm j e in
    let (len, first, cases) = labels_step lossy fuel q i name nm j e in
    let here : get_elem? r i ≡ some len = same i hi f ∙ first in
    elim cases [
      | inl (z, at) ↦
          (let t : (len == 0) ≡ true = ground arith in rw (skip_loop, here, t) (ap some at))
      | inr (pos, small, grown, e2) ↦
          (let t : (len == 0) ≡ false = ground arith in
            let u : leb 192 len ≡ false = ground arith in
            let ih =
              skip_loop-labels lossy fuel q r (i + 1 + len) grown nm j fuel' e2 same (omega arith)
                (omega arith) in
            let place : i + (1 + len) ≡ i + 1 + len = omega arith in
            rw (skip_loop, here, t, u, place) ih)
    ]

skip_pointer :
    (fuel : ℕ) (p : List ℕ) (i : ℕ)
    → 0 < fuel
    → get_elem? p i ≡ some 192
    → skip_loop fuel p i ≡ some (i + 2)
unfolding skip_loop
skip_pointer zero p i h e = absurd (omega arith)
skip_pointer (suc fuel) p i h e = rw (skip_loop, e) refl

-- The fields of a record behind `pre`.
u16_at-behind :
    (pre mid rest : List ℕ) (v at : ℕ)
    → at ≡ length pre + length mid
    → v < 65536
    → u16_at (pre ++ (mid ++ (to_be 2 v ++ rest))) at ≡ some v
u16_at-behind pre mid rest v at h hv =
    let l = length-append pre mid in
    let e = u16_at-append (pre ++ mid) rest v hv in
    let place : length (pre ++ mid) ≡ at = omega arith in
    ap (λ p. u16_at p at) (sym (append_assoc pre mid (to_be 2 v ++ rest)))
    ∙ ap (λ k. u16_at ((pre ++ mid) ++ (to_be 2 v ++ rest)) k) (sym place)
    ∙ e

slice?-within :
    (pre mid bs rest : List ℕ) (at n : ℕ)
    → at ≡ length pre + length mid
    → n ≡ length bs
    → slice? (pre ++ (mid ++ (bs ++ rest))) at n ≡ some bs
slice?-within pre mid bs rest at n h hn =
    let l = length-append pre mid in
    ap (λ p. slice? p at n) (sym (append_assoc pre mid (bs ++ rest)))
    ∙ slice?-append (pre ++ mid) bs rest at n (omega arith) hn

pub read_record :
    (pre bytes : List ℕ) (kind ttl : ℕ) (a : IpAddr)
    → kind < 65536
    → length bytes < 65536
    → ttl < 2 ^ 32
    → address kind bytes ≡ some a
    → read_answers 1
        (pre
          ++ (192
              ∷ 12
              ∷ (to_be 2 kind ++ (0 ∷ 1 ∷ (to_be 4 ttl ++ (to_be 2 (length bytes) ++ bytes))))))
        (length pre)
        []
        (2 ^ 32 - 1)
      ≡ some (a ∷ [], ttl)
unfolding read_answers skip_name
read_record pre bytes kind ttl a hk hb ht ha =
    let head : List ℕ = 192 ∷ 12 ∷ [] in
    let m1 : List ℕ = head ++ (to_be 2 kind ++ (0 ∷ 1 ∷ [])) in
    let m2 : List ℕ = m1 ++ to_be 4 ttl in
    let m3 : List ℕ = m2 ++ to_be 2 (length bytes) in
    let p : List ℕ = pre ++ (m3 ++ bytes) in
    let l = length-append pre (m3 ++ bytes) in
    let at = length pre + 2 in
    let first =
      get_elem?-append pre
        (12 ∷ (to_be 2 kind ++ (0 ∷ 1 ∷ (to_be 4 ttl ++ (to_be 2 (length bytes) ++ bytes))))) 192 in
    let e0 : skip_name p (length pre) ≡ some at =
      skip_pointer (length p) p (length pre) (omega arith) first in
    let e1 : u16_at p at ≡ some kind =
      u16_at-behind pre head (0 ∷ 1 ∷ (to_be 4 ttl ++ (to_be 2 (length bytes) ++ bytes))) kind at
        refl hk in
    let e2 : slice? p (at + 4) 4 ≡ some (to_be 4 ttl) =
      slice?-within pre m1 (to_be 4 ttl) (to_be 2 (length bytes) ++ bytes) (at + 4) 4 (omega arith)
        refl in
    let e3 : u16_at p (at + 8) ≡ some (length bytes) =
      u16_at-behind pre m2 bytes (length bytes) (at + 8) (omega arith) hb in
    let all = append-nil bytes in
    let e4 : slice? p (at + 10) (length bytes) ≡ some bytes =
      ap (λ b. slice? (pre ++ (m3 ++ b)) (at + 10) (length bytes)) (sym all)
      ∙ slice?-within pre m3 bytes [] (at + 10) (length bytes) (omega arith) refl in
    let t = from_be_back 4 ttl ht in
    let least : min (2 ^ 32 - 1) (from_be (to_be 4 ttl)) ≡ ttl = omega arith in
    let found : Option IpAddr → Option (List IpAddr × ℕ) = λ o. elim o [
      | none ↦ some ([], 2 ^ 32 - 1)
      | some b ↦ some (b ∷ [], min (2 ^ 32 - 1) (from_be (to_be 4 ttl)))
    ] in
    rw (read_answers, e0, e1, e2, e3, e4) (ap found ha ∙ ap (λ s. some (a ∷ [], s)) least)
