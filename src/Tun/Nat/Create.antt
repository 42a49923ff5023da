-- ===== src/Tun/Nat/Create.antt =====
-- What `create` promises its caller, on every branch.
use aurora_vpn.Prelude.{
  ℕ, ◌≤◌, ◌<◌, ◌≡◌, ◌≢◌, refl, ◌∙◌, true, false, Option, none, some, get, is_some, arith, nat_eq,
  Bool-cases, Option-cases, inl, inr, get-insert, ap,
}
use aurora_vpn.Tun.Nat.{
  FlowKey, Nat, key_eq, key_beq_iff, key_of, lookup, by_port, create, add_flow, place, scan, range,
  drop_flow, new_flow, is_closing, port_first, port_max,
}
use aurora_vpn.Tun.Nat.Invariant.{IsValid, create-IsValid, drop_flow_gone, drop_flow-IsValid}
use aurora_vpn.Tun.Nat.Ports.{scan_full}

-- The table `t'` holds flow `id` for `key`: both directions agree, and the flow is open.
pub record IsPlaced (key : FlowKey) (id : ℕ) (t' : Nat) : Type 0 where
  pub found : lookup key t' ≡ some id
  pub key_kept : key_of (t'.flows id) ≡ key
  pub port_back : by_port (t'.flows id).nat_port t' ≡ some id
  pub open_flow : (t'.flows id).closing ≡ false
  pub port_low : port_first ≤ (t'.flows id).nat_port
  pub port_high : (t'.flows id).nat_port ≤ port_max

module _ (key : FlowKey) (now : ℕ) (t : Nat) where
  place-some :
      (r : ℕ × Option ℕ) (id : ℕ)
      → (place key now t r).1 ≡ some id
      → (get key (place key now t r).0.forward ≡ some id)
        × (((place key now t r).0.flows id).closing ≡ false)
  unfolding place new_flow
  place-some (c, none) id e = cc
  place-some (c, some p) id e =
      ground (arith, get-insert key key t.next t.forward, key_beq_iff key key)

  place-none :
      (r : ℕ × Option ℕ)
      → (place key now t r).1 ≡ none
      → (r.1 ≡ none)
        × ((place key now t r).0.forward ≡ t.forward)
        × ((place key now t r).0.reverse ≡ t.reverse)
  unfolding place
  place-none (c, none) e = (refl, refl, refl)
  place-none (c, some p) e = cc

  place_frame :
      (r : ℕ × Option ℕ) (j : FlowKey)
      → j ≢ key
      → get j (place key now t r).0.forward ≡ get j t.forward
  unfolding place
  place_frame (c, none) j h = refl
  place_frame (c, some p) j h = ground (arith, get-insert key j t.next t.forward, key_beq_iff key j)

  place_heap : (r : ℕ × Option ℕ) (i : ℕ) → i < t.next → (place key now t r).0.flows i ≡ t.flows i
  unfolding place
  place_heap (c, none) i h = refl
  place_heap (c, some p) i h = ground arith

drop_flow_heap :
    (key : FlowKey) (t : Nat)
    → ((drop_flow key t).flows ≡ t.flows) × ((drop_flow key t).next ≡ t.next)
unfolding drop_flow
drop_flow_heap key t = elim (Option-cases (get key t.forward)) [
  | inl absent ↦ rw (absent, drop_flow) (refl, refl)
  | inr (id, here) ↦ rw (here, drop_flow) (refl, refl)
]

-- `create` either finds the key open, or adds a flow to a table `t'` without the key.
data Create (key : FlowKey) (now : ℕ) (t : Nat) : Type 0 where
  kept :
      (id : ℕ)
      → get key t.forward ≡ some id
      → (t.flows id).closing ≡ false
      → create key now t ≡ (t, some id)
      → Create key now t
  added :
      (t' : Nat)
      → IsValid t'
      → get key t'.forward ≡ none
      → t'.flows ≡ t.flows
      → t'.next ≡ t.next
      → ((j : FlowKey) → j ≢ key → get j t'.forward ≡ get j t.forward)
      → create key now t ≡ place key now t' (scan range t'.reverse t'.cursor)
      → Create key now t

Create-cases : (key : FlowKey) (now : ℕ) (t : Nat) → IsValid t → Create key now t
unfolding create add_flow is_closing
Create-cases key now t v = elim (Option-cases (get key t.forward)) [
  | inl absent ↦ added t v absent refl refl (λ j h. refl) (rw (absent, create))
  | inr (id, here) ↦ elim (Bool-cases (t.flows id).closing) [
    | inl shut ↦
        let (flows, next) = drop_flow_heap key t in
        added (drop_flow key t) (drop_flow-IsValid key t v)
          (drop_flow_gone key key t ∙ ground (arith, key_beq_iff key key)) flows next
          (λ j h. drop_flow_gone key j t ∙ ground (arith, key_beq_iff key j))
          (rw (here, shut, create))
    | inr open_flow ↦ kept id here open_flow (rw (here, open_flow, create))
  ]
]

-- A flow that create returns from a valid table stands in both tables, under its key and under its
-- port, is open, and has a port of the range.
pub create-IsPlaced :
    (key : FlowKey) (now : ℕ) (t : Nat) (id : ℕ)
    → IsValid t
    → (create key now t).1 ≡ some id
    → IsPlaced key id (create key now t).0
unfolding lookup by_port
create-IsPlaced key now t id v e = placed (found_open (Create-cases key now t v))
  where
    found_open :
        Create key now t
        → (get key (create key now t).0.forward ≡ some id)
          × (((create key now t).0.flows id).closing ≡ false)
    found_open (kept i here open_flow q) = ground arith
    found_open (added t' v' absent f n o q) =
        rw q (place-some key now t' (scan range t'.reverse t'.cursor) id (rw q at e))

    placed :
        (get key (create key now t).0.forward ≡ some id)
          × (((create key now t).0.flows id).closing ≡ false)
        → IsPlaced key id (create key now t).0
    placed (found, open_flow) =
        let v' = create-IsValid key now t v in
        let (live, same_key, back) = v'.forward_flow key id found in
        let (live', port, forth, low, high) = v'.reverse_flow _ id back in
        record {
          found = found;
          key_kept = same_key;
          port_back = back;
          open_flow = open_flow;
          port_low = low;
          port_high = high;
        }

-- `create` answers none only when every port of the range is taken, and then the key is not in the
-- table that it leaves.
pub create-eq-none :
    (key : FlowKey) (now : ℕ) (t : Nat)
    → IsValid t
    → (create key now t).1 ≡ none
    → (lookup key (create key now t).0 ≡ none)
      × ((p : ℕ) → port_first ≤ p → p ≤ port_max → is_some (by_port p (create key now t).0) ≡ true)
unfolding lookup by_port
create-eq-none key now t v e = full (Create-cases key now t v)
  where
    full :
        Create key now t
        → (get key (create key now t).0.forward ≡ none)
          × ((p : ℕ)
              → port_first ≤ p
              → p ≤ port_max
              → is_some (get p (create key now t).0.reverse) ≡ true)
    full (kept i here open_flow q) = cc
    full (added t' v' absent f n o q) =
        let (taken, fwd, rev) =
          place-none key now t' (scan range t'.reverse t'.cursor) (rw q at e) in
        rw (q, fwd, rev) (absent, scan_full t'.reverse t'.cursor v'.cursor_fits taken)

-- In a valid table create changes neither what another key finds nor any flow that exists.
pub create_frame :
    (key : FlowKey) (now : ℕ) (t : Nat)
    → IsValid t
    → ((j : FlowKey) → j ≢ key → lookup j (create key now t).0 ≡ lookup j t)
      × ((i : ℕ) → i < t.next → (create key now t).0.flows i ≡ t.flows i)
unfolding lookup
create_frame key now t v = frame (Create-cases key now t v)
  where
    frame :
        Create key now t
        → ((j : FlowKey) → j ≢ key → get j (create key now t).0.forward ≡ get j t.forward)
          × ((i : ℕ) → i < t.next → (create key now t).0.flows i ≡ t.flows i)
    frame (kept i here open_flow q) = rw q (λ j h. refl, λ i h. refl)
    frame (added t' v' absent f n o q) =
        let r : ℕ × Option ℕ = scan range t'.reverse t'.cursor in
        rw q (
          λ j h. place_frame key now t' r j h ∙ o j h,
          λ i h. place_heap key now t' r i (omega arith) ∙ ap (λ g. g i) f,
        )

-- Two keys of a valid table whose flows have the same port are the same key.
pub port_injective :
    (t : Nat) (j k : FlowKey) (a b : ℕ)
    → IsValid t
    → lookup j t ≡ some a
    → lookup k t ≡ some b
    → (t.flows a).nat_port ≡ (t.flows b).nat_port
    → j ≡ k
unfolding lookup
port_injective t j k a b v p q e =
    let (_, keyA, backA) = v.forward_flow j a p in
    let (_, keyB, backB) = v.forward_flow k b q in let same : a ≡ b = cc in cc
