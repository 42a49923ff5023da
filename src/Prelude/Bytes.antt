-- ===== src/Prelude/Bytes.antt =====
-- Byte strings as lists of numbers below 256: big-endian numbers, slices and overwriting.
use Prim.Native.Nat.{ℕ, zero, suc, ◌+◌, ◌*◌, ◌/◌, ◌%◌, ◌^◌, ◌<◌}
use mathlib.Core.Path.{◌≡◌, refl, ap}
use mathlib.Core.Option.{Option, none, some}
use mathlib.Core.List.{List, [], ◌∷◌, ◌++◌}
use native.Mathlib.Omega.{arith}
use aurora_vpn.Prelude.Tests.{leb, if◌then◌else◌}
use aurora_vpn.Prelude.Lists.{length, take, drop, get_or}

abbrev pub All {ℓ κ} : {A : Type ℓ} → (A → Type κ) → List A → Type κ
All P [] = Unit
All P (x ∷ xs) = P x × All P xs

abbrev pub IsByte : ℕ → Type 0
IsByte b = b < 256

pub All-append {ℓ κ} :
    {A : Type ℓ} (P : A → Type κ) (xs ys : List A) → All P xs → All P ys → All P (xs ++ ys)
All-append P [] ys hx hy = hy
All-append P (x ∷ xs) ys hx hy = (hx.0, All-append P xs ys hx.1 hy)

-- `u16::to_be_bytes`, and the same for every width of `n` bytes.
abbrev pub to_be : ℕ → ℕ → List ℕ
to_be zero v = []
to_be (suc n) v = (v / 256 ^ n % 256) ∷ to_be n v

abbrev pub from_be : List ℕ → ℕ
from_be [] = 0
from_be (b ∷ bs) = b * 256 ^ length bs + from_be bs

pub length-to_be : (n v : ℕ) → length (to_be n v) ≡ n
length-to_be zero v = refl
length-to_be (suc n) v = ap suc (length-to_be n v)

pub to_be-IsByte : (n v : ℕ) → All IsByte (to_be n v)
to_be-IsByte zero v = tt
to_be-IsByte (suc n) v = (omega arith, to_be-IsByte n v)

-- `p[i]` where the length is known to suffice.
abbrev pub byte_at : List ℕ → ℕ → ℕ
byte_at p i = get_or p i 0

pub byte_at-IsByte : (p : List ℕ) (i : ℕ) → All IsByte p → byte_at p i < 256
byte_at-IsByte [] i h = omega arith
byte_at-IsByte (x ∷ p) zero h = h.0
byte_at-IsByte (x ∷ p) (suc i) h = byte_at-IsByte p i h.1

-- `u16::from_be_bytes([p[i], p[i + 1]])`
abbrev pub u16_be : ℕ → ℕ → ℕ
u16_be hi lo = hi * 256 + lo

-- `p.get(i..j)`
abbrev pub slice? : List ℕ → ℕ → ℕ → Option (List ℕ)
slice? p i n = if leb (i + n) (length p) then some (take n (drop i p)) else none

module _ {ℓ} {A : Type ℓ} where
  -- `p[i..i + bs.len()].copy_from_slice(bs)` where it fits.
  abbrev pub put : List A → ℕ → List A → List A
  put [] i bs = []
  put (x ∷ xs) zero [] = x ∷ xs
  put (x ∷ xs) zero (b ∷ bs) = b ∷ put xs zero bs
  put (x ∷ xs) (suc i) bs = x ∷ put xs i bs

  -- The same with the index check of the source: `none` is a panic.
  abbrev pub put? : List A → ℕ → List A → Option (List A)
  put? xs i bs = if leb (i + length bs) (length xs) then some (put xs i bs) else none

  pub length-put : (xs : List A) (i : ℕ) (bs : List A) → length (put xs i bs) ≡ length xs
  length-put [] i bs = refl
  length-put (x ∷ xs) zero [] = refl
  length-put (x ∷ xs) zero (b ∷ bs) = ap suc (length-put xs zero bs)
  length-put (x ∷ xs) (suc i) bs = ap suc (length-put xs i bs)
