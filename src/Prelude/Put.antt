-- ===== src/Prelude/Put.antt =====
-- How `put` meets `take`, `drop` and `get_elem?`.
use Prim.Native.Nat.{ℕ, zero, suc, ◌+◌, ◌-◌, ◌≤◌, ◌<◌}
use mathlib.Core.Path.{◌≡◌, refl, ap, ◌∙◌}
use mathlib.Core.Option.{some}
use mathlib.Core.List.{List, [], ◌∷◌}
use native.Mathlib.Omega.{arith}
use aurora_vpn.Prelude.Lists.{length, take, drop, get_elem?}
use aurora_vpn.Prelude.Bytes.{put, All}

module _ {ℓ} {A : Type ℓ} where
  -- What was written stands where it was written.
  pub take-drop-put :
      (xs : List A) (i : ℕ) (bs : List A)
      → i + length bs ≤ length xs
      → take (length bs) (drop i (put xs i bs)) ≡ bs
  take-drop-put xs zero [] h = refl
  take-drop-put [] zero (b ∷ bs) h = absurd (omega arith)
  take-drop-put (x ∷ xs) zero (b ∷ bs) h = ap (λ r. b ∷ r) (take-drop-put xs zero bs (omega arith))
  take-drop-put [] (suc i) [] h = absurd (omega arith)
  take-drop-put [] (suc i) (b ∷ bs) h = absurd (omega arith)
  take-drop-put (x ∷ xs) (suc i) bs h = take-drop-put xs i bs (omega arith)

  -- Bytes before and behind it are kept.
  pub take-drop-put_before :
      (xs : List A) (i n j : ℕ) (bs : List A)
      → i + n ≤ j
      → take n (drop i (put xs j bs)) ≡ take n (drop i xs)
  take-drop-put_before [] i n j bs h = refl
  take-drop-put_before (x ∷ xs) i zero j bs h = refl
  take-drop-put_before (x ∷ xs) zero (suc n) zero bs h = absurd (omega arith)
  take-drop-put_before (x ∷ xs) zero (suc n) (suc j) bs h =
      ap (λ r. x ∷ r) (take-drop-put_before xs zero n j bs (omega arith))
  take-drop-put_before (x ∷ xs) (suc i) (suc n) zero bs h = absurd (omega arith)
  take-drop-put_before (x ∷ xs) (suc i) (suc n) (suc j) bs h =
      take-drop-put_before xs i (suc n) j bs (omega arith)

  pub drop-put_after :
      (xs : List A) (i j : ℕ) (bs : List A) → j + length bs ≤ i → drop i (put xs j bs) ≡ drop i xs
  drop-put_after [] i j bs h = refl
  drop-put_after (x ∷ xs) i zero [] h = refl
  drop-put_after (x ∷ xs) zero zero (b ∷ bs) h = absurd (omega arith)
  drop-put_after (x ∷ xs) (suc i) zero (b ∷ bs) h = drop-put_after xs i zero bs (omega arith)
  drop-put_after (x ∷ xs) zero (suc j) bs h = absurd (omega arith)
  drop-put_after (x ∷ xs) (suc i) (suc j) bs h = drop-put_after xs i j bs (omega arith)

  pub get_elem?-put_before :
      (xs : List A) (i j : ℕ) (bs : List A) → i < j → get_elem? (put xs j bs) i ≡ get_elem? xs i
  get_elem?-put_before [] i j bs h = refl
  get_elem?-put_before (x ∷ xs) i zero bs h = absurd (omega arith)
  get_elem?-put_before (x ∷ xs) zero (suc j) bs h = refl
  get_elem?-put_before (x ∷ xs) (suc i) (suc j) bs h = get_elem?-put_before xs i j bs (omega arith)

  pub get_elem?-put_after :
      (xs : List A) (i j : ℕ) (bs : List A)
      → j + length bs ≤ i
      → get_elem? (put xs j bs) i ≡ get_elem? xs i
  get_elem?-put_after [] i j bs h = refl
  get_elem?-put_after (x ∷ xs) i zero [] h = refl
  get_elem?-put_after (x ∷ xs) zero zero (b ∷ bs) h = absurd (omega arith)
  get_elem?-put_after (x ∷ xs) (suc i) zero (b ∷ bs) h =
      get_elem?-put_after xs i zero bs (omega arith)
  get_elem?-put_after (x ∷ xs) zero (suc j) bs h = absurd (omega arith)
  get_elem?-put_after (x ∷ xs) (suc i) (suc j) bs h = get_elem?-put_after xs i j bs (omega arith)

  pub get_elem?-put_at :
      (xs : List A) (i : ℕ) (b : A) (bs : List A)
      → i < length xs
      → get_elem? (put xs i (b ∷ bs)) i ≡ some b
  get_elem?-put_at [] i b bs h = absurd (omega arith)
  get_elem?-put_at (x ∷ xs) zero b bs h = refl
  get_elem?-put_at (x ∷ xs) (suc i) b bs h = get_elem?-put_at xs i b bs (omega arith)

  pub take-put :
      (xs : List A) (n j : ℕ) (bs : List A)
      → j + length bs ≤ n
      → take n (put xs j bs) ≡ put (take n xs) j bs
  take-put xs zero zero [] h = ground arith
  take-put xs zero zero (b ∷ bs) h = absurd (omega arith)
  take-put xs zero (suc j) bs h = absurd (omega arith)
  take-put [] (suc n) j bs h = refl
  take-put (x ∷ xs) (suc n) zero [] h = refl
  take-put (x ∷ xs) (suc n) zero (b ∷ bs) h = ap (λ r. b ∷ r) (take-put xs n zero bs (omega arith))
  take-put (x ∷ xs) (suc n) (suc j) bs h = ap (λ r. x ∷ r) (take-put xs n j bs (omega arith))

  pub drop-put :
      (xs : List A) (i j : ℕ) (bs : List A)
      → i ≤ j
      → drop i (put xs j bs) ≡ put (drop i xs) (j - i) bs
  drop-put xs zero j bs h = let e : j - 0 ≡ j = omega arith in rw e
  drop-put [] (suc i) j bs h = refl
  drop-put (x ∷ xs) (suc i) zero bs h = absurd (omega arith)
  drop-put (x ∷ xs) (suc i) (suc j) bs h =
      let e : suc j - suc i ≡ j - i = omega arith in rw e (drop-put xs i j bs (omega arith))

  -- A part that contains the written bytes, and the old bytes in it.
  pub take-drop-put_inside :
      (xs : List A) (i n j : ℕ) (bs : List A)
      → i ≤ j
      → j + length bs ≤ i + n
      → take n (drop i (put xs j bs)) ≡ put (take n (drop i xs)) (j - i) bs
  take-drop-put_inside xs i n j bs lo hi =
      ap (take n) (drop-put xs i j bs lo) ∙ take-put (drop i xs) n (j - i) bs (omega arith)

  pub take-drop-take :
      (xs : List A) (n j m : ℕ) → j + m ≤ n → take m (drop j (take n xs)) ≡ take m (drop j xs)
  take-drop-take xs n j zero h = refl
  take-drop-take xs zero j (suc m) h = absurd (omega arith)
  take-drop-take [] (suc n) j (suc m) h = refl
  take-drop-take (x ∷ xs) (suc n) zero (suc m) h =
      ap (λ r. x ∷ r) (take-drop-take xs n zero m (omega arith))
  take-drop-take (x ∷ xs) (suc n) (suc j) (suc m) h = take-drop-take xs n j (suc m) (omega arith)

  pub drop-drop : (xs : List A) (i j : ℕ) → drop j (drop i xs) ≡ drop (i + j) xs
  drop-drop xs zero j = let e : 0 + j ≡ j = omega arith in rw e
  drop-drop [] (suc i) zero = let e : suc i + 0 ≡ suc i = omega arith in rw e
  drop-drop [] (suc i) (suc j) = let e : suc i + suc j ≡ suc (suc i + j) = omega arith in rw e
  drop-drop (x ∷ xs) (suc i) j =
      let e : suc i + j ≡ suc (i + j) = omega arith in rw e (drop-drop xs i j)

  pub take-drop-take-drop :
      (xs : List A) (i n j m : ℕ)
      → j + m ≤ n
      → take m (drop j (take n (drop i xs))) ≡ take m (drop (i + j) xs)
  take-drop-take-drop xs i n j m h =
      take-drop-take (drop i xs) n j m h ∙ ap (take m) (drop-drop xs i j)

pub All-put {ℓ κ} :
    {A : Type ℓ} (P : A → Type κ) (xs : List A) (i : ℕ) (bs : List A)
    → All P xs
    → All P bs
    → All P (put xs i bs)
All-put P [] i bs hx hb = tt
All-put P (x ∷ xs) zero [] hx hb = hx
All-put P (x ∷ xs) zero (b ∷ bs) hx hb = (hb.0, All-put P xs zero bs hx.1 hb.1)
All-put P (x ∷ xs) (suc i) bs hx hb = (hx.0, All-put P xs i bs hx.1 hb)
