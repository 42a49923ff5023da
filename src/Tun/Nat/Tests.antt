-- ===== src/Tun/Nat/Tests.antt =====
-- The table with one flow, at port 10000.
use aurora_vpn.Prelude.{
  ℕ, ◌<◌, ◌≡◌, refl, ◌≢◌, none, some, if◌then◌else◌, nat_eq, list_eq, pair_eq, get, remove, insert,
}
use aurora_vpn.Tun.Nat.{
  FlowKey, Nat, default, create, lookup, sweep, add_flow, place, scan, next_port, new_flow, range,
  key_eq,
}
use aurora_vpn.Tun.Nat.Invariant.{IsValid, default-IsValid, create-IsValid}
use aurora_vpn.Tun.Nat.Create.{IsPlaced, create-IsPlaced, create_frame}
use aurora_vpn.Tun.Nat.Sweep.{lookup-sweep, stale_at}
use aurora_vpn.Tun.Samples.{key}

abbrev pub one_flow : Nat
one_flow = (create key 5 default).0

pub one_flow-IsValid : IsValid one_flow
one_flow-IsValid = create-IsValid key 5 default default-IsValid

pub one_flow_found : lookup key one_flow ≡ some 0
unfolding lookup create default add_flow place scan next_port get insert remove range
one_flow_found = refl

create-IsPlaced_example : IsPlaced key 0 (create key 5 default).0
unfolding create default add_flow place scan next_port get insert remove range
create-IsPlaced_example = create-IsPlaced key 5 default 0 default-IsValid refl

pub one_flow_port : (one_flow.flows 0).nat_port ≡ 10000
unfolding create default add_flow place scan next_port get insert remove range new_flow
one_flow_port = refl

create_frame_example :
    ((j : FlowKey) → j ≢ key → lookup j (create key 9 one_flow).0 ≡ lookup j one_flow)
    × ((i : ℕ) → i < one_flow.next → (create key 9 one_flow).0.flows i ≡ one_flow.flows i)
create_frame_example = create_frame key 9 one_flow one_flow-IsValid

lookup-sweep_example :
    lookup key (sweep 9000 one_flow).0
    ≡ (if stale_at 9000 one_flow.flows (lookup key one_flow) then none else lookup key one_flow)
lookup-sweep_example = lookup-sweep 9000 key one_flow one_flow-IsValid
