-- ===== src/Tun/Packet/Sums.antt =====
-- One's-complement arithmetic: what `sum_words`, `fold` and `adjust` compute modulo 65535.
use aurora_vpn.Prelude.{
  ℕ, ◌+◌, ◌*◌, ◌%◌, ◌≤◌, ◌<◌, ◌≡◌, ◌↔◌, ◌∙◌, ap, List, [], ◌∷◌, arith, length, All, IsByte, u16_be,
}
use aurora_vpn.Tun.Packet.{sum_words, fold, adjust, not16, add32, u32_mod}

-- The sum of the words as a number, with no bound.
abbrev pub words : List ℕ → ℕ
words [] = 0
words (a ∷ []) = a * 256
words (a ∷ b ∷ rest) = u16_be a b + words rest

pub sum_words-words :
    (xs : List ℕ) (acc : ℕ) → acc + words xs < u32_mod → sum_words xs acc ≡ acc + words xs
unfolding sum_words
sum_words-words [] acc h = omega arith
sum_words-words (a ∷ []) acc h = omega arith
sum_words-words (a ∷ b ∷ rest) acc h =
    let e : add32 acc (u16_be a b) ≡ acc + u16_be a b = omega arith in
    ap (sum_words rest) e ∙ sum_words-words rest (acc + u16_be a b) (omega arith) ∙ omega arith

pub words-le : (xs : List ℕ) → All IsByte xs → words xs ≤ 32768 * (length xs + 1)
words-le [] h = omega arith
words-le (a ∷ []) h = omega arith
words-le (a ∷ b ∷ rest) (ha, (hb, h)) = omega (arith, words-le rest h)

-- `fold` brings a u32 into 16 bits, keeps it modulo 65535, and is 0 only at 0.
pub fold_lem :
    (acc : ℕ)
    → acc < u32_mod
    → (fold acc ≤ 65535) × (fold acc % 65535 ≡ acc % 65535) × ((fold acc ≡ 0) ↔ (acc ≡ 0))
unfolding fold
fold_lem acc h = ground arith

-- The incremental update of RFC 1624: the corrected checksum makes up for the change of the sum.
pub adjust_lem :
    (check old new : ℕ)
    → check ≤ 65535
    → old < u32_mod
    → new < u32_mod
    → (adjust check old new ≤ 65535)
      × ((adjust check old new + new) % 65535 ≡ (check + old) % 65535)
unfolding adjust
adjust_lem check old new hc ho hn = omega (
  arith,
  fold_lem old ho,
  fold_lem new hn,
  fold_lem (not16 check + not16 (fold old) + fold new)
      (omega (arith, fold_lem old ho, fold_lem new hn)),
)

-- A sum that leaves the checksum field out is made valid by the complement of its fold.
pub complement_lem :
    (acc : ℕ)
    → acc < 4000000000
    → (not16 (fold acc) ≤ 65535) × ((not16 (fold acc) + acc) % 65535 ≡ 0)
complement_lem acc h = omega (arith, fold_lem acc (omega arith))

-- `fold` of a sum is 0xffff exactly if the sum is a positive multiple of 65535.
pub fold_full : (acc : ℕ) → acc < u32_mod → (fold acc ≡ 65535) ↔ ((0 < acc) × (acc % 65535 ≡ 0))
fold_full acc h = grind (arith, fold_lem acc h)
