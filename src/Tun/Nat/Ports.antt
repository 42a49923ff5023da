-- ===== src/Tun/Nat/Ports.antt =====
-- The search for a free port sees every port of the range, so it fails only when all are taken.
use aurora_vpn.Prelude.{
  ℕ, zero, suc, ◌+◌, ◌-◌, ◌%◌, ◌≤◌, ◌<◌, ◌≡◌, true, none, List, get, is_some, arith, nat_eq, ◌∙◌,
}
use aurora_vpn.Tun.Nat.{next_port, scan, range, port_first, port_max}

-- The port that round `i` of the search looks at.
visit : ℕ → ℕ → ℕ
visit zero c = next_port c
visit (suc i) c = visit i (next_port c)

visit_closed :
    (i c : ℕ)
    → port_first ≤ next_port c
    → next_port c ≤ port_max
    → visit i c ≡ port_first + (next_port c - port_first + i) % 55536
unfolding visit next_port
visit_closed zero c lo hi = ground arith
visit_closed (suc i) c lo hi = ground (arith, visit_closed i (next_port c))

scan-none :
    (n : ℕ) (r : List (ℕ × ℕ)) (c : ℕ)
    → (scan n r c).1 ≡ none
    → (i : ℕ) → i < n
    → is_some (get (visit i c) r) ≡ true
unfolding scan visit
scan-none zero r c e i h = absurd (omega arith)
scan-none (suc n) r c e zero h = ground arith
scan-none (suc n) r c e (suc i) h =
    ground (arith, scan-none n r (next_port c), scan-none n r (next_port c) (ground arith) i)

next_port_range : (c : ℕ) → c ≤ port_max → (port_first ≤ next_port c) × (next_port c ≤ port_max)
unfolding next_port
next_port_range c h = ground arith

pub scan_full :
    (r : List (ℕ × ℕ)) (c : ℕ)
    → c ≤ port_max
    → (scan range r c).1 ≡ none
    → (p : ℕ) → port_first ≤ p
    → p ≤ port_max
    → is_some (get p r) ≡ true
unfolding range
scan_full r c h e p lo hi =
    let (a, b) = next_port_range c h in
    let i : ℕ = (p + 55536 - next_port c) % 55536 in
    let seen : visit i c ≡ p = visit_closed i c a b ∙ omega arith in
    rw (← seen) (scan-none 55536 r c e i (omega arith))
