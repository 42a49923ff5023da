-- ===== src/Tun/Packet/Regions.antt =====
-- Sums over parts of a packet, and what a write does to them.
use aurora_vpn.Prelude.{
  ℕ, zero, suc, ◌+◌, ◌-◌, ◌%◌, ◌≤◌, ◌≡◌, ◌∙◌, ap, List, [], ◌∷◌, arith, length, take, drop, put,
  length-take, length-drop,
}
use aurora_vpn.Tun.Packet.Sums.{words}
use aurora_vpn.Prelude.Put.{
  take-drop-put_before, drop-put_after, take-drop-take-drop, drop-drop, take-drop-put_inside,
}

-- The words of the `n` bytes from `i` on.
abbrev pub region : List ℕ → ℕ → ℕ → ℕ
region xs i n = words (take n (drop i xs))

pub words-put :
    (xs : List ℕ) (i : ℕ) (bs : List ℕ)
    → i % 2 ≡ 0
    → length bs % 2 ≡ 0
    → i + length bs ≤ length xs
    → words (put xs i bs) + words (take (length bs) (drop i xs)) ≡ words xs + words bs
words-put [] zero [] e f h = omega arith
words-put (x ∷ xs) zero [] e f h = omega arith
words-put [] zero (b ∷ bs) e f h = absurd (omega arith)
words-put (x ∷ xs) zero (b ∷ []) e f h = absurd (omega arith)
words-put (x ∷ []) zero (b ∷ c ∷ bs) e f h = absurd (omega arith)
words-put (x ∷ y ∷ xs) zero (b ∷ c ∷ bs) e f h =
    omega (arith, words-put xs zero bs e (omega arith) (omega arith))
words-put xs (suc zero) bs e f h = absurd (omega arith)
words-put [] (suc (suc i)) bs e f h = absurd (omega arith)
words-put (x ∷ []) (suc (suc i)) bs e f h = absurd (omega arith)
words-put (x ∷ y ∷ xs) (suc (suc i)) bs e f h =
    omega (arith, words-put xs i bs (omega arith) f (omega arith))

-- A write inside a region exchanges the old words for the new ones.
pub region-put_inside :
    (xs : List ℕ) (i n j : ℕ) (bs : List ℕ)
    → i ≤ j
    → j + length bs ≤ i + n
    → i + n ≤ length xs
    → (j - i) % 2 ≡ 0
    → length bs % 2 ≡ 0
    → region (put xs j bs) i n + region xs j (length bs) ≡ region xs i n + words bs
region-put_inside xs i n j bs lo hi fits e f =
    let same : i + (j - i) ≡ j = omega arith in
    let old : take (length bs) (drop (j - i) (take n (drop i xs))) ≡ take (length bs) (drop j xs) =
      take-drop-take-drop xs i n (j - i) (length bs) (omega arith)
      ∙ ap (λ k. take (length bs) (drop k xs)) same in
    let all : words (put (take n (drop i xs)) (j - i) bs)
          + words (take (length bs) (drop (j - i) (take n (drop i xs))))
        ≡ words (take n (drop i xs)) + words bs =
      words-put (take n (drop i xs)) (j - i) bs e f
        (omega (arith, length-take n (drop i xs), length-drop i xs)) in
    rw (take-drop-put_inside xs i n j bs lo hi, ← old) all

-- A write outside a region leaves it alone.
pub region-put_before :
    (xs : List ℕ) (i n j : ℕ) (bs : List ℕ) → i + n ≤ j → region (put xs j bs) i n ≡ region xs i n
region-put_before xs i n j bs h = ap words (take-drop-put_before xs i n j bs h)

pub region-put_after :
    (xs : List ℕ) (i n j : ℕ) (bs : List ℕ)
    → j + length bs ≤ i
    → region (put xs j bs) i n ≡ region xs i n
region-put_after xs i n j bs h = ap (λ r. words (take n r)) (drop-put_after xs i j bs h)

words-split :
    (xs : List ℕ) (n m : ℕ)
    → n % 2 ≡ 0
    → words (take (n + m) xs) ≡ words (take n xs) + words (take m (drop n xs))
words-split xs zero m e = let f : 0 + m ≡ m = omega arith in rw f (omega arith)
words-split xs (suc zero) m e = absurd (omega arith)
words-split [] (suc (suc n)) zero e =
    let f : suc (suc n) + 0 ≡ suc (suc n) = omega arith in rw f (omega arith)
words-split [] (suc (suc n)) (suc m) e =
    let f : suc (suc n) + suc m ≡ suc (suc (n + suc m)) = omega arith in rw f (omega arith)
words-split (x ∷ []) (suc (suc n)) zero e =
    let f : suc (suc n) + 0 ≡ suc (suc n) = omega arith in rw f (omega arith)
words-split (x ∷ []) (suc (suc n)) (suc m) e =
    let f : suc (suc n) + suc m ≡ suc (suc (n + suc m)) = omega arith in rw f (omega arith)
words-split (x ∷ y ∷ xs) (suc (suc n)) m e =
    let f : suc (suc n) + m ≡ suc (suc (n + m)) = omega arith in
    rw f (omega (arith, words-split xs n m (omega arith)))

-- A region is the sum of two neighbours.
pub region-split :
    (xs : List ℕ) (i n m : ℕ)
    → n % 2 ≡ 0
    → region xs i (n + m) ≡ region xs i n + region xs (i + n) m
region-split xs i n m e =
    words-split (drop i xs) n m e
    ∙ ap (λ r. words (take n (drop i xs)) + words (take m r)) (drop-drop xs i n)
