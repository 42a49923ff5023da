-- ===== src/Tun/Nat.antt =====
-- engine/src/inbound/tun/nat.rs: the table of TCP flows.
-- An `Arc<Flow>` is an index into `flows`, the heap of flows: both tables and every holder of a
-- flow share one entry there, and a write through one of them is seen through all.
pub mod Invariant
pub mod Ports
pub mod Create
pub mod Sweep
pub mod Tests
use aurora_vpn.Prelude.{
  ℕ, zero, suc, ◌+◌, ◌-◌, ◌≡◌, ◌↔◌, Bool, true, false, ◌&&◌, ◌||◌, Option, none, some, List, [],
  ◌∷◌, ltb, ◌==◌, if◌then◌else◌, Eq, nat_eq, get, insert, remove, is_some, length, arith,
}
use aurora_vpn.Net.{IpAddr, ip_beq, ip_beq_iff}

abbrev pub port_first : ℕ
port_first = 10000

abbrev pub port_max : ℕ
port_max = 65535

abbrev pub idle_open_secs : ℕ
idle_open_secs = 7200

abbrev pub idle_closed_secs : ℕ
idle_closed_secs = 60

-- Source address and port, destination address and port.
abbrev pub FlowKey : Type 0
FlowKey = IpAddr × ℕ × IpAddr × ℕ

abbrev pub key_beq : FlowKey → FlowKey → Bool
key_beq (a, p, b, q) (a', p', b', q') = ip_beq a a' && p == p' && ip_beq b b' && q == q'

pub key_beq_iff : (k j : FlowKey) → (key_beq k j ≡ true) ↔ (k ≡ j)
key_beq_iff (a, p, b, q) (a', p', b', q') = ground (arith, ip_beq_iff a a', ip_beq_iff b b')

instance abbrev pub key_eq : Eq FlowKey
key_eq = record { beq = key_beq; beq_iff = key_beq_iff }

pub record Flow : Type 0 where
  pub src : IpAddr
  pub sport : ℕ
  pub dst : IpAddr
  pub dport : ℕ
  pub nat_port : ℕ
  pub last_seen : ℕ
  pub closing : Bool

abbrev pub key_of : Flow → FlowKey
key_of f = (f.src, f.sport, f.dst, f.dport)

pub touch : ℕ → Flow → Flow
touch now f = if f.last_seen == now then f else record f { last_seen = now }

pub mark_closing : Flow → Flow
mark_closing f = record f { closing = true }

pub is_closing : Flow → Bool
is_closing f = f.closing

-- `tables` with the heap that their `Arc`s point into; `next` is the first unused index.
pub record Nat : Type 0 where
  pub flows : ℕ → Flow
  pub next : ℕ
  pub forward : List (FlowKey × ℕ)
  pub reverse : List (ℕ × ℕ)
  pub cursor : ℕ

abbrev pub no_flow : Flow
no_flow = record {
  src = IpAddr.v4 0;
  sport = 0;
  dst = IpAddr.v4 0;
  dport = 0;
  nat_port = 0;
  last_seen = 0;
  closing = false;
}

-- `Nat::default()`
unfoldable pub default : Nat
default = record { flows = λ _. no_flow; next = 0; forward = []; reverse = []; cursor = 0 }

abbrev pub update {ℓ} : {A : Type ℓ} → (ℕ → A) → ℕ → A → ℕ → A
update f i a j = if i == j then a else f j

-- A call of a `Flow` method through an `Arc`.
abbrev pub modify : (Flow → Flow) → ℕ → Nat → Nat
modify f id t = record t { flows = update t.flows id (f (t.flows id)) }

unfoldable pub lookup : FlowKey → Nat → Option ℕ
lookup key t = get key t.forward

unfoldable pub by_port : ℕ → Nat → Option ℕ
by_port port t = get port t.reverse

pub next_port : ℕ → ℕ
next_port c = if ltb c port_first || c == port_max then port_first else c + 1

-- The search for a free port: `n` rounds are left. The result is the cursor and the port.
pub scan : ℕ → List (ℕ × ℕ) → ℕ → ℕ × Option ℕ
scan zero reverse c = (c, none)
scan (suc n) reverse c =
    let c' = next_port c in
    let rest = scan n reverse c' in if is_some (get c' reverse) then rest else (c', some c')

-- Removal of a flow from both tables.
pub drop_flow : FlowKey → Nat → Nat
drop_flow key t = elim (get key t.forward) [
  | none ↦ t
  | some id ↦ record t {
    forward = remove key t.forward;
    reverse = remove (t.flows id).nat_port t.reverse;
  }
]

pub new_flow : FlowKey → ℕ → ℕ → Flow
new_flow (src, sport, dst, dport) port now = record {
  src = src;
  sport = sport;
  dst = dst;
  dport = dport;
  nat_port = port;
  last_seen = now;
  closing = false;
}

-- The second half of `create`, once the key is not in the table.
pub place : FlowKey → ℕ → Nat → ℕ × Option ℕ → Nat × Option ℕ
place key now t (c, none) = (record t { cursor = c }, none)
place key now t (c, some port) = (
  record t {
    flows = update t.flows t.next (new_flow key port now);
    next = t.next + 1;
    forward = insert key t.next t.forward;
    reverse = insert port t.next t.reverse;
    cursor = c;
  },
  some t.next,
)

-- `u32::from(u16::MAX - PORT_FIRST) + 1`
pub range : ℕ
range = port_max - port_first + 1

pub add_flow : FlowKey → ℕ → Nat → Nat × Option ℕ
add_flow key now t = place key now t (scan range t.reverse t.cursor)

unfoldable pub create : FlowKey → ℕ → Nat → Nat × Option ℕ
create key now t = elim (get key t.forward) [
  | none ↦ add_flow key now t
  | some id ↦ if is_closing (t.flows id) then add_flow key now (drop_flow key t) else (t, some id)
]

-- `now.saturating_sub(last_seen) > limit`
pub is_stale : ℕ → Flow → Bool
unfolding is_closing
is_stale now f = ltb (if is_closing f then idle_closed_secs else idle_open_secs) (now - f.last_seen)

pub stale_keys : ℕ → (ℕ → Flow) → List (FlowKey × ℕ) → List FlowKey
stale_keys now flows [] = []
stale_keys now flows ((key, id) ∷ m) =
    let rest = stale_keys now flows m in if is_stale now (flows id) then key ∷ rest else rest

pub drop_all : List FlowKey → Nat → Nat
drop_all [] t = t
drop_all (key ∷ keys) t = drop_all keys (drop_flow key t)

-- The number of forgotten flows comes with the new table.
unfoldable pub sweep : ℕ → Nat → Nat × ℕ
sweep now t = let stale = stale_keys now t.flows t.forward in (drop_all stale t, length stale)

unfoldable pub len : Nat → ℕ
len t = length t.forward
