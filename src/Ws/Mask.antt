-- ===== src/Ws/Mask.antt =====
-- engine/src/transport/ws.rs: the mask of a frame.
use aurora_vpn.Prelude.{
  ℕ, zero, suc, ◌+◌, ◌%◌, ◌<◌, ◌≡◌, refl, ap, Bool, true, ◌&&◌, List, [], ◌∷◌, arith, ◌==◌, ==_iff,
  length, nat_eq, list_eq, pair_eq, All, IsByte, byte_at, byte_at-IsByte,
}
use Prim.Native.Nat.{bit_xor}
use aurora_vpn.Ws.{masked}

-- A test that every number below a bound passes, by evaluation.
unfoldable passed : (ℕ → Bool) → ℕ → Bool
passed test zero = true
passed test (suc bound) = let lower = passed test bound in test bound && lower

passed_at : (test : ℕ → Bool) (bound k : ℕ) → k < bound → passed test bound ≡ true → test k ≡ true
unfolding passed
passed_at test zero k h e = absurd (omega arith)
passed_at test (suc bound) k h e = ground (arith, passed_at test bound k)

toggled_back : ℕ → ℕ → Bool
toggled_back m b = bit_xor (bit_xor b m) m == b

all_back : passed (λ m. passed (toggled_back m) 256) 256 ≡ true
unfolding passed toggled_back
all_back = refl

twice : (m b : ℕ) → m < 256 → b < 256 → bit_xor (bit_xor b m) m ≡ b
unfolding toggled_back
twice m b hm hb =
    let row = passed_at (λ m. passed (toggled_back m) 256) 256 m hm all_back in
    (==_iff (bit_xor (bit_xor b m) m) b).0 (passed_at (toggled_back m) 256 b hb row)

-- Who puts the same mask on again has the bytes back.
pub masked_twice :
    (i : ℕ) (mask bytes : List ℕ)
    → All IsByte mask
    → All IsByte bytes
    → masked i mask (masked i mask bytes) ≡ bytes
unfolding masked
masked_twice i mask [] hm hb = refl
masked_twice i mask (b ∷ bytes) hm (h, hb) =
    let small = byte_at-IsByte mask (i % 4) hm in
    rw (twice (byte_at mask (i % 4)) b small h, masked_twice (i + 1) mask bytes hm hb) refl

pub length-masked : (i : ℕ) (mask bytes : List ℕ) → length (masked i mask bytes) ≡ length bytes
unfolding masked
length-masked i mask [] = refl
length-masked i mask (b ∷ bytes) = ap suc (length-masked (i + 1) mask bytes)
