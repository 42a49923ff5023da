-- ===== src/Veil/Ru/Networks.antt =====
-- veil/src/ru.rs: an address is in the set exactly if one of the lines' networks has its prefix.
use aurora_vpn.Prelude.{
  ℕ, zero, suc, ◌+◌, ◌-◌, ◌*◌, ◌/◌, ◌^◌, ◌≤◌, ◌<◌, ◌≡◌, refl, ap, ◌∙◌, inl, inr, Bool, false, ◌||◌,
  Option, none, some, List, [], ◌∷◌, arith, ◌==◌, Option-cases, nat_eq, list_eq, pair_eq, All,
}
use native.Mathlib.Nat.{
  le-div_iff_mul-le, div-lt_iff_lt-mul, one-le-pow, mul-le-mul_right, pow-succ',
}
use aurora_vpn.Net.{IpAddr, v4, v6, IsIp}
use aurora_vpn.Ranges.{Range, in_range, in_any}
use aurora_vpn.Veil.Ru.{
  Bits, absent, number, garbage, bits_of, network, Line, read_lines, parse, ipv4_mapped, contains,
}
use aurora_vpn.Veil.Ru.Merge.{Full, find-merge}

-- The first `bits` of two addresses of a width are the same.
abbrev pub same_prefix : ℕ → ℕ → ℕ → ℕ → Bool
same_prefix width bits a x = x / 2 ^ (width - bits) == a / 2 ^ (width - bits)

abbrev pub covers_v4 : ℕ → Line → Bool
covers_v4 x l = elim l.addr [
  | none ↦ false
  | some (v4 a) ↦ elim (bits_of 32 l.bits) [ none ↦ false | some n ↦ same_prefix 32 n a x ]
  | some (v6 a) ↦ false
]

abbrev pub covers_v6 : ℕ → Line → Bool
covers_v6 x l = elim l.addr [
  | none ↦ false
  | some (v4 a) ↦ false
  | some (v6 a) ↦ elim (bits_of 128 l.bits) [ none ↦ false | some n ↦ same_prefix 128 n a x ]
]

abbrev pub any_line : (Line → Bool) → List Line → Bool
any_line p [] = false
any_line p (l ∷ ls) = p l || any_line p ls

-- What a list of networks means for an address; one of IPv4 in the clothes of IPv6 counts as IPv4.
abbrev pub covered : List Line → IpAddr → Bool
covered ls (v4 x) = any_line (covers_v4 x) ls
covered ls (v6 x) = elim (ipv4_mapped x) [
  | none ↦ any_line (covers_v6 x) ls
  | some y ↦ any_line (covers_v4 y) ls
]

abbrev pub IsLine : Line → Type 0
IsLine l = elim l.addr [ none ↦ Unit | some a ↦ IsIp a ]

prefix_range : (s a x : ℕ) → 0 < s → in_range x (a / s * s, a / s * s + (s - 1)) ≡ (x / s == a / s)
prefix_range s a x h =
    let q = a / s in
    let lo = le-div_iff_mul-le {k = s} {x = q} {y = x} h in
    let hi = div-lt_iff_lt-mul {k = s} {x = x} {y = suc q} h in
    let e : suc q * s ≡ q * s + s = grind arith in ground arith

two-pow-add : (n m : ℕ) → 2 ^ n * 2 ^ m ≡ 2 ^ (n + m)
two-pow-add zero m = let e : 0 + m ≡ m = omega arith in rw e (omega arith)
two-pow-add (suc n) m =
    let e : suc n + m ≡ suc (n + m) = omega arith in
    rw (e, pow-succ' 2 n, pow-succ' 2 (n + m)) (let ih = two-pow-add n m in grind arith)

network-Full : (w n a : ℕ) → n ≤ w → a < 2 ^ w → Full (2 ^ w) (network w a n)
network-Full w n a h ha =
    let s = 2 ^ (w - n) in
    let pos : 0 < s = one-le-pow (w - n) 2 (omega arith) in
    let whole : 2 ^ n * s ≡ 2 ^ w = two-pow-add n (w - n) ∙ ap (λ k. 2 ^ k) (omega arith) in
    let q : a / s < 2 ^ n = (div-lt_iff_lt-mul {k = s} {x = a} {y = 2 ^ n} pos).1 (omega arith) in
    let up = mul-le-mul_right {m = suc (a / s)} {n = 2 ^ n} s q in
    let e : suc (a / s) * s ≡ a / s * s + s = grind arith in (omega arith, omega arith)

-- What `read_lines` collects covers what the lines cover, and has the width.
Reads : List Line → List Range × List Range × ℕ → Type 0
Reads ls r =
    ((x : ℕ) → in_any x r.0 ≡ any_line (covers_v4 x) ls)
    × ((x : ℕ) → in_any x r.1 ≡ any_line (covers_v6 x) ls)
    × All (Full (2 ^ 32)) r.0
    × All (Full (2 ^ 128)) r.1

bits_le : (w : ℕ) (b : Bits) (n : ℕ) → bits_of w b ≡ some n → n ≤ w
bits_le w absent n e = ground arith
bits_le w (number m) n e = ground arith
bits_le w garbage n e = absurd (ground arith)

module _ (ls : List Line) (a b : List Range) (bad : ℕ) (ih : Reads ls (a, b, bad)) where
  skip_line :
      (l : Line)
      → ((x : ℕ) → covers_v4 x l ≡ false)
      → ((x : ℕ) → covers_v6 x l ≡ false)
      → Reads (l ∷ ls) (a, b, bad + 1)
  unfolding Reads
  skip_line l h4 h6 = (λ x. rw (h4 x) (ih.0 x), λ x. rw (h6 x) (ih.1 x), ih.2, ih.3)

  add_v4 :
      (n m : ℕ) (l : Line)
      → n ≤ 32
      → m < 2 ^ 32
      → ((x : ℕ) → covers_v4 x l ≡ same_prefix 32 n m x)
      → ((x : ℕ) → covers_v6 x l ≡ false)
      → Reads (l ∷ ls) (network 32 m n ∷ a, b, bad)
  unfolding Reads
  add_v4 n m l h hm h4 h6 =
      let pos : 0 < 2 ^ (32 - n) = one-le-pow (32 - n) 2 (omega arith) in
      (
        λ x. rw (h4 x, prefix_range (2 ^ (32 - n)) m x pos, ih.0 x) refl,
        λ x. rw (h6 x) (ih.1 x),
        (network-Full 32 n m h hm, ih.2),
        ih.3,
      )

  add_v6 :
      (n m : ℕ) (l : Line)
      → n ≤ 128
      → m < 2 ^ 128
      → ((x : ℕ) → covers_v4 x l ≡ false)
      → ((x : ℕ) → covers_v6 x l ≡ same_prefix 128 n m x)
      → Reads (l ∷ ls) (a, network 128 m n ∷ b, bad)
  unfolding Reads
  add_v6 n m l h hm h4 h6 =
      let pos : 0 < 2 ^ (128 - n) = one-le-pow (128 - n) 2 (omega arith) in
      (
        λ x. rw (h4 x) (ih.0 x),
        λ x. rw (h6 x, prefix_range (2 ^ (128 - n)) m x pos, ih.1 x) refl,
        ih.2,
        (network-Full 128 n m h hm, ih.3),
      )

abbrev line : Option IpAddr → Bits → Line
line a b = record { addr = a; bits = b }

read_line :
    (o : Option IpAddr) (bs : Bits) (ls : List Line)
    → IsLine (line o bs)
    → Reads ls (read_lines ls)
    → Reads (line o bs ∷ ls) (read_lines (line o bs ∷ ls))
unfolding read_lines
read_line none bs ls h ih =
    skip_line ls (read_lines ls).0 (read_lines ls).1 (read_lines ls).2 ih (line none bs) (λ x. refl)
      (λ x. refl)
read_line (some (v4 m)) bs ls h ih = elim (Option-cases (bits_of 32 bs)) [
  | inl e ↦
      rw (read_lines, e)
        (skip_line ls (read_lines ls).0 (read_lines ls).1 (read_lines ls).2 ih
          (line (some (v4 m)) bs) (λ x. rw e refl) (λ x. refl))
  | inr (n, e) ↦
      rw (read_lines, e)
        (add_v4 ls (read_lines ls).0 (read_lines ls).1 (read_lines ls).2 ih n m
          (line (some (v4 m)) bs) (bits_le 32 bs n e) h (λ x. rw e refl) (λ x. refl))
]
read_line (some (v6 m)) bs ls h ih = elim (Option-cases (bits_of 128 bs)) [
  | inl e ↦
      rw (read_lines, e)
        (skip_line ls (read_lines ls).0 (read_lines ls).1 (read_lines ls).2 ih
          (line (some (v6 m)) bs) (λ x. refl) (λ x. rw e refl))
  | inr (n, e) ↦
      rw (read_lines, e)
        (add_v6 ls (read_lines ls).0 (read_lines ls).1 (read_lines ls).2 ih n m
          (line (some (v6 m)) bs) (bits_le 128 bs n e) h (λ x. refl) (λ x. rw e refl))
]

read_lines-Reads : (ls : List Line) → All IsLine ls → Reads ls (read_lines ls)
unfolding read_lines Reads
read_lines-Reads [] h = (λ x. refl, λ x. refl, tt, tt)
read_lines-Reads (l ∷ ls) h = read_line l.addr l.bits ls h.0 (read_lines-Reads ls h.1)

-- For lines whose addresses fit their family, an address is in the set that parse makes of them
-- exactly if one of the readable lines has its prefix, where an IPv6 address that maps an IPv4
-- address counts as that address.
pub contains-parse :
    (ls : List Line) (a : IpAddr) → All IsLine ls → contains (parse ls).0 a ≡ covered ls a
unfolding contains parse Reads
contains-parse ls (v4 x) h =
    let r = read_lines-Reads ls h in find-merge (2 ^ 32) (read_lines ls).0 x r.2 ∙ r.0 x
contains-parse ls (v6 x) h =
    let r = read_lines-Reads ls h in
    elim (Option-cases (ipv4_mapped x)) [
      | inl e ↦ rw (contains, covered, e) (find-merge (2 ^ 128) (read_lines ls).1 x r.3 ∙ r.1 x)
      | inr (y, e) ↦ rw (contains, covered, e) (find-merge (2 ^ 32) (read_lines ls).0 y r.2 ∙ r.0 y)
    ]
