-- ===== src/Prelude/Slices.antt =====
-- Parts of byte strings, and numbers read back from their bytes.
use Prim.Native.Nat.{ℕ, zero, suc, ◌+◌, ◌*◌, ◌/◌, ◌%◌, ◌^◌, ◌<◌, ◌≤◌}
use mathlib.Core.Path.{◌≡◌, refl, sym, ap, ◌∙◌}
use mathlib.Core.Bool.{true}
use mathlib.Core.Option.{some}
use mathlib.Core.List.{List, [], ◌∷◌, ◌++◌}
use native.Mathlib.Omega.{arith}
use native.Mathlib.Nat.{
  add-mul-mod_self_left, mod-eq_of_lt, pow-succ', mod-lt, mod-add-div', add-mul, mul-le-mul_right,
}
use aurora_vpn.Prelude.Tests.{leb}
use aurora_vpn.Prelude.Lists.{length, get_elem?, take, drop, length-append}
use aurora_vpn.Prelude.Bytes.{to_be, from_be, length-to_be, slice?}

top_digit : (v p : ℕ) → 0 < p → v / p % 256 * p + v % p ≡ v % (256 * p)
top_digit v p h =
    let q = v / p in
    let r = v % p in
    let r2 = q % 256 in
    let q2 = q / 256 in
    let small : r2 * p + r < 256 * p =
      (let a = mod-lt v h in
        let b = mul-le-mul_right {m = r2} {n = 255} p (omega arith) in omega arith) in
    let whole : (r2 * p + r) + 256 * p * q2 ≡ v =
      (let a = mod-add-div' v p in
        let c : q ≡ r2 + 256 * q2 = omega arith in
        let d = ap (λ x. x * p) c ∙ add-mul r2 (256 * q2) p in
        let e : 256 * q2 * p ≡ 256 * p * q2 = grind arith in omega arith) in
    sym (mod-eq_of_lt small)
    ∙ sym (add-mul-mod_self_left (r2 * p + r) (256 * p) q2)
    ∙ ap (λ x. x % (256 * p)) whole

pow-pos : (n : ℕ) → 0 < 256 ^ n
pow-pos zero = omega arith
pow-pos (suc n) = rw (pow-succ' 256 n) (let h = pow-pos n in omega arith)

pub from_be-to_be : (n v : ℕ) → from_be (to_be n v) ≡ v % 256 ^ n
from_be-to_be zero v = omega arith
from_be-to_be (suc n) v =
    let t = top_digit v (256 ^ n) (pow-pos n) in
    let l = length-to_be n v in rw (l, from_be-to_be n v, pow-succ' 256 n) t

module _ {ℓ} {A : Type ℓ} where
  pub take-length-append : (xs ys : List A) → take (length xs) (xs ++ ys) ≡ xs
  take-length-append [] ys = refl
  take-length-append (x ∷ xs) ys = ap (λ r. x ∷ r) (take-length-append xs ys)

  pub drop-length-append : (xs ys : List A) → drop (length xs) (xs ++ ys) ≡ ys
  drop-length-append [] ys = refl
  drop-length-append (x ∷ xs) ys = drop-length-append xs ys

  pub take-all : (xs : List A) → take (length xs) xs ≡ xs
  take-all [] = refl
  take-all (x ∷ xs) = ap (λ r. x ∷ r) (take-all xs)

-- The bytes between what stands before and behind them.
pub slice?-append :
    (pre bs rest : List ℕ) (i n : ℕ)
    → i ≡ length pre
    → n ≡ length bs
    → slice? (pre ++ (bs ++ rest)) i n ≡ some bs
slice?-append pre bs rest i n hi hn =
    let l1 = length-append pre (bs ++ rest) in
    let l2 = length-append bs rest in
    let fits : leb (i + n) (length (pre ++ (bs ++ rest))) ≡ true = ground arith in
    rw (fits, hi, hn, drop-length-append pre (bs ++ rest), take-length-append bs rest) refl

pub get_elem?-append :
    (pre rest : List ℕ) (x : ℕ) → get_elem? (pre ++ (x ∷ rest)) (length pre) ≡ some x
get_elem?-append [] rest x = refl
get_elem?-append (p ∷ pre) rest x = get_elem?-append pre rest x

pub append_cons : (pre rest : List ℕ) (x : ℕ) → (pre ++ (x ∷ [])) ++ rest ≡ pre ++ (x ∷ rest)
append_cons [] rest x = refl
append_cons (p ∷ pre) rest x = ap (λ r. p ∷ r) (append_cons pre rest x)

pub slice?-behind :
    (pre bs rest : List ℕ) (x at : ℕ)
    → at ≡ length pre
    → slice? (pre ++ (x ∷ (bs ++ rest))) (at + 1) (length bs) ≡ some bs
slice?-behind pre bs rest x at h =
    let l = length-append pre (x ∷ []) in
    rw⁻¹ (append_cons pre (bs ++ rest) x)
      (slice?-append (pre ++ (x ∷ [])) bs rest (at + 1) (length bs) (omega arith) refl)

pub from_be_back : (n v : ℕ) → v < 256 ^ n → from_be (to_be n v) ≡ v
from_be_back n v h = from_be-to_be n v ∙ mod-eq_of_lt h

-- Two ways to cut a text.
pub split_front :
    (c x d y : List ℕ)
    → c ++ x ≡ d ++ y
    → length c ≤ length d
    → (c ++ drop (length c) d ≡ d) × (x ≡ drop (length c) d ++ y)
split_front [] x d y e h = (refl, e)
split_front (a ∷ c) x [] y e h = absurd (omega arith)
split_front (a ∷ c) x (b ∷ d) y e h =
    let (h1, h2) = split_front c x d y (cc) (omega arith) in (cc, h2)
