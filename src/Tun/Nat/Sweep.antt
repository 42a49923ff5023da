-- ===== src/Tun/Nat/Sweep.antt =====
-- `sweep` forgets exactly the flows that have been silent past their limit.
use aurora_vpn.Prelude.{
  ℕ, ◌+◌, ◌≡◌, refl, ◌∙◌, Bool, true, false, ◌||◌, Option, none, some, List, [], ◌∷◌, get, is_some,
  arith, nat_eq, Option-cases, inl, inr, if◌then◌else◌, IsMap, length, length-remove, remove-IsMap,
  sym,
}
use aurora_vpn.Tun.Nat.{
  FlowKey, Flow, Nat, key_eq, key_beq, key_beq_iff, lookup, sweep, stale_keys, drop_all, drop_flow,
  is_stale, len,
}
use aurora_vpn.Tun.Nat.Invariant.{IsValid, drop_flow_gone, drop_all-IsValid}

abbrev key_mem : FlowKey → List FlowKey → Bool
key_mem j [] = false
key_mem j (k ∷ ks) = key_beq k j || key_mem j ks

abbrev pub stale_at : ℕ → (ℕ → Flow) → Option ℕ → Bool
stale_at now flows none = false
stale_at now flows (some id) = is_stale now (flows id)

stale_keys_mem :
    (now : ℕ) (flows : ℕ → Flow) (j : FlowKey) (m : List (FlowKey × ℕ))
    → IsMap m
    → key_mem j (stale_keys now flows m) ≡ stale_at now flows (get j m)
unfolding stale_keys get
stale_keys_mem now flows j [] h = refl
stale_keys_mem now flows j ((k, id) ∷ m) h =
    ground (arith, stale_keys_mem now flows j m h.1, key_beq_iff k j)

get-drop_all :
    (ks : List FlowKey) (j : FlowKey) (t : Nat)
    → get j (drop_all ks t).forward ≡ (if key_mem j ks then none else get j t.forward)
unfolding drop_all
get-drop_all [] j t = refl
get-drop_all (k ∷ ks) j t = ground (arith, get-drop_all ks j (drop_flow k t), drop_flow_gone k j t)

-- After a sweep of a valid table a key finds what it found before, unless that flow has been silent
-- past its limit, and then it finds nothing.
pub lookup-sweep :
    (now : ℕ) (j : FlowKey) (t : Nat)
    → IsValid t
    → lookup j (sweep now t).0 ≡ (if stale_at now t.flows (lookup j t) then none else lookup j t)
unfolding lookup sweep
lookup-sweep now j t v =
    get-drop_all (stale_keys now t.flows t.forward) j t
    ∙ ground (arith, stale_keys_mem now t.flows j t.forward v.forward_map)

len-drop_flow :
    (k : FlowKey) (t : Nat)
    → IsMap t.forward
    → len (drop_flow k t) + (if is_some (get k t.forward) then 1 else 0) ≡ len t
unfolding len drop_flow
len-drop_flow k t h = elim (Option-cases (get k t.forward)) [
  | inl absent ↦ rw (absent, drop_flow) (omega arith)
  | inr (id, here) ↦ rw (here, drop_flow) (ground (arith, length-remove k t.forward h))
]

abbrev IsDistinct : List FlowKey → Type 0
IsDistinct [] = Unit
IsDistinct (k ∷ ks) = (key_mem k ks ≡ false) × IsDistinct ks

stale_keys-IsDistinct :
    (now : ℕ) (flows : ℕ → Flow) (m : List (FlowKey × ℕ))
    → IsMap m
    → IsDistinct (stale_keys now flows m)
unfolding stale_keys
stale_keys-IsDistinct now flows [] h = tt
stale_keys-IsDistinct now flows ((k, id) ∷ m) h =
    ground (arith, stale_keys-IsDistinct now flows m h.1, stale_keys_mem now flows k m h.1, h.0)

drop_flow-IsMap : (k : FlowKey) (t : Nat) → IsMap t.forward → IsMap (drop_flow k t).forward
unfolding drop_flow
drop_flow-IsMap k t h = elim (Option-cases (get k t.forward)) [
  | inl absent ↦ rw (absent, drop_flow) h
  | inr (id, here) ↦ rw (here, drop_flow) (remove-IsMap k t.forward h)
]

len-drop_all :
    (ks : List FlowKey) (t : Nat)
    → IsMap t.forward
    → IsDistinct ks
    → ((j : FlowKey) → key_mem j ks ≡ true → is_some (get j t.forward) ≡ true)
    → len (drop_all ks t) + length ks ≡ len t
unfolding drop_all
len-drop_all [] t h d p = omega arith
len-drop_all (k ∷ ks) t h d p =
    let rest : len (drop_all ks (drop_flow k t)) + length ks ≡ len (drop_flow k t) =
      len-drop_all ks (drop_flow k t) (drop_flow-IsMap k t h) d.1
        (λ j q. ground (arith, p j, drop_flow_gone k j t, key_beq_iff k j, d.0)) in
    ground (arith, rest, len-drop_flow k t h, p k, key_beq_iff k k)

stale_at_some :
    (now : ℕ) (flows : ℕ → Flow) (o : Option ℕ) → stale_at now flows o ≡ true → is_some o ≡ true
stale_at_some now flows none h = cc
stale_at_some now flows (some id) h = refl

-- The number that a sweep of a valid table returns and the number of flows it leaves add up to the
-- number of flows before.
pub sweep_count : (now : ℕ) (t : Nat) → IsValid t → len (sweep now t).0 + (sweep now t).1 ≡ len t
unfolding sweep
sweep_count now t v =
    len-drop_all (stale_keys now t.flows t.forward) t v.forward_map
      (stale_keys-IsDistinct now t.flows t.forward v.forward_map)
      (λ j q.
        stale_at_some now t.flows (get j t.forward)
          (sym (stale_keys_mem now t.flows j t.forward v.forward_map) ∙ q))

pub sweep-IsValid : (now : ℕ) (t : Nat) → IsValid t → IsValid (sweep now t).0
unfolding sweep
sweep-IsValid now t v = drop_all-IsValid (stale_keys now t.flows t.forward) t v
