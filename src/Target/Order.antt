-- ===== src/Target/Order.antt =====
-- engine/src/common.rs: the order in which addresses are dialled.
use aurora_vpn.Prelude.{
  ℕ, ◌+◌, ◌≡◌, ◌∙◌, Bool, true, some, List, [], ◌∷◌, arith, if◌then◌else◌, get_elem?, nat_eq,
  list_eq, pair_eq,
}
use aurora_vpn.Net.{SocketAddr}
use aurora_vpn.Target.{partition, zip_rest, interleave, first_v6, is_ipv6, same_bool}

abbrev pub count {ℓ} : {A : Type ℓ} → (A → Bool) → List A → ℕ
count p [] = 0
count p (x ∷ xs) = let n = count p xs in if p x then n + 1 else n

count-partition :
    (p q : SocketAddr → Bool) (xs : List SocketAddr)
    → count q (partition p xs).0 + count q (partition p xs).1 ≡ count q xs
count-partition p q [] = omega arith
count-partition p q (x ∷ xs) = ground (arith, count-partition p q xs)

count-zip_rest :
    (q : SocketAddr → Bool) (xs ys : List SocketAddr)
    → count q (zip_rest xs ys) ≡ count q xs + count q ys
unfolding zip_rest
count-zip_rest q [] ys = omega arith
count-zip_rest q (x ∷ xs) [] = omega arith
count-zip_rest q (x ∷ xs) (y ∷ ys) = ground (arith, count-zip_rest q xs ys)

-- Interleaving the families only reorders the addresses: for every test, as many addresses pass it
-- after as before.
pub count-interleave :
    (q : SocketAddr → Bool) (xs : List SocketAddr) → count q (interleave xs) ≡ count q xs
unfolding interleave
count-interleave q xs =
    let p = λ (a : SocketAddr). same_bool (is_ipv6 a) (first_v6 xs) in
    count-zip_rest q (partition p xs).0 (partition p xs).1 ∙ count-partition p q xs

same_self : (b : Bool) → same_bool b b ≡ true
same_self b = ground arith

-- The first address stays the first to be dialled, and if some address is of the other family, the
-- first such address is the second.
pub interleave_front :
    (x : SocketAddr) (xs : List SocketAddr)
    → (get_elem? (interleave (x ∷ xs)) 0 ≡ some x)
      × ((y : SocketAddr)
          → get_elem? (partition (λ a. same_bool (is_ipv6 a) (is_ipv6 x)) xs).1 0 ≡ some y
          → get_elem? (interleave (x ∷ xs)) 1 ≡ some y)
unfolding interleave zip_rest
interleave_front x xs = let s = same_self (is_ipv6 x) in (ground arith, λ y e. ground arith)
