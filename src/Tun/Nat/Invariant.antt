-- ===== src/Tun/Nat/Invariant.antt =====
-- The two tables agree: a key leads to a flow with that key, whose port leads back to the flow.
use aurora_vpn.Prelude.{
  ℕ, zero, suc, ◌+◌, ◌≤◌, ◌<◌, ◌≡◌, none, some, List, [], ◌∷◌, if◌then◌else◌, nat_eq, get, IsMap,
  insert-IsMap, remove-IsMap, insert, remove, arith, get-insert, get-remove, Option-cases,
  Bool-cases, inl, inr, ◌⊎◌, ◌∙◌,
}
use aurora_vpn.Tun.Nat.{
  Flow, FlowKey, key_of, key_beq, key_beq_iff, key_eq, Nat, default, update, modify, next_port,
  scan, drop_flow, new_flow, place, add_flow, create, port_first, port_max, is_closing, touch,
  mark_closing, drop_all,
}

pub record IsValid (t : Nat) : Type 0 where
  -- An entry of `forward` is a live flow with that key, and `reverse` knows its port.
  pub forward_flow :
      (k : FlowKey) (id : ℕ)
      → get k t.forward ≡ some id
      → (id < t.next) × (key_of (t.flows id) ≡ k) × (get (t.flows id).nat_port t.reverse ≡ some id)
  -- An entry of `reverse` is a live flow that owns the port, and `forward` knows its key.
  pub reverse_flow :
      (p id : ℕ)
      → get p t.reverse ≡ some id
      → (id < t.next)
        × ((t.flows id).nat_port ≡ p)
        × (get (key_of (t.flows id)) t.forward ≡ some id)
        × (port_first ≤ p)
        × (p ≤ port_max)
  pub cursor_fits : t.cursor ≤ port_max
  pub forward_map : IsMap t.forward

pub default-IsValid : IsValid default
unfolding default get
default-IsValid = record {
  forward_flow = λ k id h. cc;
  reverse_flow = λ p id h. cc;
  cursor_fits = omega arith;
  forward_map = tt;
}

next_port_bounds : (c : ℕ) → c ≤ port_max → (port_first ≤ next_port c) × (next_port c ≤ port_max)
unfolding next_port
next_port_bounds c h = ground arith

-- What a search returns: a cursor in range, and a port in range that the table does not hold.
pub scan_bounds : (n : ℕ) (r : List (ℕ × ℕ)) (c : ℕ) → c ≤ port_max → (scan n r c).0 ≤ port_max
unfolding scan
scan_bounds zero r c h = h
scan_bounds (suc n) r c h = ground (arith, next_port_bounds c, scan_bounds n r (next_port c))

pub scan_found :
    (n : ℕ) (r : List (ℕ × ℕ)) (c p : ℕ)
    → c ≤ port_max
    → (scan n r c).1 ≡ some p
    → (get p r ≡ none) × (port_first ≤ p) × (p ≤ port_max)
unfolding scan
scan_found zero r c p h e = cc
scan_found (suc n) r c p h e =
    ground (
      arith,
      next_port_bounds c,
      scan_found n r (next_port c) p,
      Option-cases (get (next_port c) r),
    )

abbrev dropped : FlowKey → ℕ → Nat → Nat
dropped key old t = record t {
  forward = remove key t.forward;
  reverse = remove (t.flows old).nat_port t.reverse;
}

module _ (key : FlowKey) (old : ℕ) (t : Nat) (v : IsValid t)
    (here : get key t.forward ≡ some old) where
  dropped_forward :
      (k : FlowKey) (id : ℕ)
      → get k (remove key t.forward) ≡ some id
      → (id < t.next)
        × (key_of (t.flows id) ≡ k)
        × (get (t.flows id).nat_port (remove (t.flows old).nat_port t.reverse) ≡ some id)
  dropped_forward k id h = ground (
    arith,
    get-remove key k t.forward,
    get-remove (t.flows old).nat_port (t.flows id).nat_port t.reverse,
    v.forward_flow k id,
    v.forward_flow key old here,
    key_beq_iff key k,
  )

  dropped_reverse :
      (p id : ℕ)
      → get p (remove (t.flows old).nat_port t.reverse) ≡ some id
      → (id < t.next)
        × ((t.flows id).nat_port ≡ p)
        × (get (key_of (t.flows id)) (remove key t.forward) ≡ some id)
        × (port_first ≤ p)
        × (p ≤ port_max)
  dropped_reverse p id h = ground (
    arith,
    get-remove (t.flows old).nat_port p t.reverse,
    get-remove key (key_of (t.flows id)) t.forward,
    v.reverse_flow p id,
    v.forward_flow key old here,
    key_beq_iff key (key_of (t.flows id)),
  )

  dropped-IsValid : IsValid (dropped key old t)
  dropped-IsValid = record {
    forward_flow = dropped_forward;
    reverse_flow = dropped_reverse;
    cursor_fits = v.cursor_fits;
    forward_map = remove-IsMap key t.forward v.forward_map;
  }

pub drop_flow-IsValid : (key : FlowKey) (t : Nat) → IsValid t → IsValid (drop_flow key t)
unfolding drop_flow
drop_flow-IsValid key t v = elim (Option-cases (get key t.forward)) [
  | inl absent ↦ rw (absent, drop_flow) v
  | inr (old, here) ↦ rw (here, drop_flow) (dropped-IsValid key old t v here)
]

abbrev placed : FlowKey → ℕ → Nat → ℕ → ℕ → Nat
placed key now t c port = record t {
  flows = update t.flows t.next (new_flow key port now);
  next = t.next + 1;
  forward = insert key t.next t.forward;
  reverse = insert port t.next t.reverse;
  cursor = c;
}

module _ (key : FlowKey) (now : ℕ) (t : Nat) (c port : ℕ) (v : IsValid t)
    (absent : get key t.forward ≡ none) (free : get port t.reverse ≡ none) (low : port_first ≤ port)
    (high : port ≤ port_max) (fits : c ≤ port_max) where
  placed_forward :
      (k : FlowKey) (id : ℕ)
      → get k (insert key t.next t.forward) ≡ some id
      → (id < t.next + 1)
        × (key_of (update t.flows t.next (new_flow key port now) id) ≡ k)
        × (get
              (update t.flows t.next (new_flow key port now) id).nat_port
              (insert port t.next t.reverse)
            ≡ some id)
  unfolding new_flow
  placed_forward k id h = ground (
    arith,
    get-insert key k t.next t.forward,
    get-insert port (t.flows id).nat_port t.next t.reverse,
    get-insert port port t.next t.reverse,
    v.forward_flow k id,
    key_beq_iff key k,
  )

  placed_reverse :
      (p id : ℕ)
      → get p (insert port t.next t.reverse) ≡ some id
      → (id < t.next + 1)
        × ((update t.flows t.next (new_flow key port now) id).nat_port ≡ p)
        × (get
              (key_of (update t.flows t.next (new_flow key port now) id))
              (insert key t.next t.forward)
            ≡ some id)
        × (port_first ≤ p)
        × (p ≤ port_max)
  unfolding new_flow
  placed_reverse p id h = ground (
    arith,
    get-insert port p t.next t.reverse,
    get-insert key key t.next t.forward,
    get-insert key (key_of (t.flows id)) t.next t.forward,
    v.reverse_flow p id,
    key_beq_iff key key,
    key_beq_iff key (key_of (t.flows id)),
  )

  placed-IsValid : IsValid (placed key now t c port)
  placed-IsValid = record {
    forward_flow = placed_forward;
    reverse_flow = placed_reverse;
    cursor_fits = fits;
    forward_map = insert-IsMap key t.next t.forward v.forward_map;
  }

-- What `scan` tells of its two results, in one place.
pub scan_cases :
    (n : ℕ) (r : List (ℕ × ℕ)) (c : ℕ)
    → c ≤ port_max
    → ((scan n r c).1 ≡ none)
      ⊎ ((p : ℕ) × (scan n r c ≡ ((scan n r c).0, some p))
          × (get p r ≡ none)
          × (port_first ≤ p)
          × (p ≤ port_max))
scan_cases n r c h = elim (Option-cases (scan n r c).1) [
  | inl e ↦ inl e
  | inr (p, e) ↦
      let (free, low, high) = scan_found n r c p h e in inr (p, ground arith, free, low, high)
]

place-IsValid :
    (key : FlowKey) (now : ℕ) (t : Nat) (n : ℕ)
    → IsValid t
    → get key t.forward ≡ none
    → IsValid (place key now t (scan n t.reverse t.cursor)).0
unfolding place
place-IsValid key now t n v absent =
    let fits = scan_bounds n t.reverse t.cursor v.cursor_fits in
    elim (scan_cases n t.reverse t.cursor v.cursor_fits) [
      | inl e ↦
          rw (e, place)
            (record {
              forward_flow = v.forward_flow;
              reverse_flow = v.reverse_flow;
              cursor_fits = fits;
              forward_map = v.forward_map;
            })
      | inr (p, e, free, low, high) ↦
          rw e
            (placed-IsValid key now t (scan n t.reverse t.cursor).0 p v absent free low high fits)
    ]

pub add_flow-IsValid :
    (key : FlowKey) (now : ℕ) (t : Nat)
    → IsValid t
    → get key t.forward ≡ none
    → IsValid (add_flow key now t).0
unfolding add_flow
add_flow-IsValid key now t v absent = place-IsValid key now t _ v absent

pub drop_flow_gone :
    (key k : FlowKey) (t : Nat)
    → get k (drop_flow key t).forward ≡ (if key_beq key k then none else get k t.forward)
unfolding drop_flow
drop_flow_gone key k t = elim (Option-cases (get key t.forward)) [
  | inl absent ↦ rw (absent, drop_flow) (ground (arith, key_beq_iff key k))
  | inr (old, here) ↦ rw (here, drop_flow) (get-remove key k t.forward)
]

pub create-IsValid : (key : FlowKey) (now : ℕ) (t : Nat) → IsValid t → IsValid (create key now t).0
unfolding create
create-IsValid key now t v = elim (Option-cases (get key t.forward)) [
  | inl absent ↦ rw (absent, create) (add_flow-IsValid key now t v absent)
  | inr (id, here) ↦ elim (Bool-cases (is_closing (t.flows id))) [
    | inl shut ↦
        rw (here, shut, create)
          (add_flow-IsValid key now (drop_flow key t) (drop_flow-IsValid key t v)
            (drop_flow_gone key key t ∙ ground (arith, key_beq_iff key key)))
    | inr open_flow ↦ rw (here, open_flow, create) v
  ]
]

-- A write through an `Arc` that keeps the addresses and the port keeps the agreement.
pub modify-IsValid :
    (f : Flow → Flow)
    → ((x : Flow) → (key_of (f x) ≡ key_of x) × ((f x).nat_port ≡ x.nat_port))
    → (id : ℕ) (t : Nat) → IsValid t
    → IsValid (modify f id t)
modify-IsValid f keep id t v = record {
  forward_flow = λ k i h. ground (arith, v.forward_flow k i h, keep (t.flows i));
  reverse_flow = λ p i h. ground (arith, v.reverse_flow p i h, keep (t.flows i));
  cursor_fits = v.cursor_fits;
  forward_map = v.forward_map;
}

pub touch-IsValid : (now id : ℕ) (t : Nat) → IsValid t → IsValid (modify (touch now) id t)
unfolding touch
touch-IsValid now id t v = modify-IsValid (touch now) (λ x. ground arith) id t v

pub mark_closing-IsValid : (id : ℕ) (t : Nat) → IsValid t → IsValid (modify mark_closing id t)
unfolding mark_closing
mark_closing-IsValid id t v = modify-IsValid mark_closing (λ x. ground arith) id t v

pub drop_all-IsValid : (keys : List FlowKey) (t : Nat) → IsValid t → IsValid (drop_all keys t)
unfolding drop_all
drop_all-IsValid [] t v = v
drop_all-IsValid (k ∷ keys) t v = drop_all-IsValid keys (drop_flow k t) (drop_flow-IsValid k t v)
