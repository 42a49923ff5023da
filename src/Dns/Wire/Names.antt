-- ===== src/Dns/Wire/Names.antt =====
-- engine/src/dns.rs: the labels of a name, written and read.
use aurora_vpn.Prelude.{
  ℕ, zero, suc, ◌+◌, ◌≤◌, ◌<◌, min, ◌≡◌, refl, sym, ap, ◌∙◌, inl, inr, false, ◌||◌, some, List, [],
  ◌∷◌, ◌++◌, append_assoc, append-nil, arith, ltb, leb, ◌==◌, ==_iff, Bool-cases, length,
  length-append, nat_eq, list_eq, pair_eq, All,
}
use aurora_vpn.Prelude.Slices.{take-all, slice?-behind, get_elem?-append}
use aurora_vpn.Target.{to_lower}
use aurora_vpn.Dns.Wire.{join, labels, before_dot, behind_dots, split_dots, write_labels}

-- What stands behind the first label of a name.
abbrev dotted : List (List ℕ) → List ℕ
dotted [] = []
dotted (l ∷ ls) = 46 ∷ (l ++ dotted ls)

split_joined : (t : List ℕ) → before_dot t ++ dotted (behind_dots t) ≡ t
split_joined [] = refl
split_joined (c ∷ t) = elim (Bool-cases (c == 46)) [
  | inl e ↦
      (let dot : c ≡ 46 = (==_iff c 46).0 e in
        rw e (ap (λ r. 46 ∷ r) (split_joined t) ∙ ap (λ x. x ∷ t) (sym dot)))
  | inr e ↦ rw e (ap (λ r. c ∷ r) (split_joined t))
]

-- A label that a query carries as it is: 1 to 63 bytes, UTF-8 and in lower case.
abbrev pub IsLabel : (List ℕ → List ℕ) → List ℕ → Type 0
IsLabel lossy l = (0 < length l) × (length l ≤ 63) × (to_lower (lossy l) ≡ l)

abbrev pub joined : List ℕ → List (List ℕ) → List ℕ
joined name [] = name
joined name (l ∷ ls) = joined (join name l) ls

length-joined : (name : List ℕ) (ls : List (List ℕ)) → length name ≤ length (joined name ls)
length-joined name [] = omega arith
length-joined [] (l ∷ ls) = omega arith
length-joined (c ∷ name) (l ∷ ls) =
    let h = length-joined ((c ∷ name) ++ (46 ∷ l)) ls in
    let a = length-append (c ∷ name) (46 ∷ l) in omega arith

length-join : (name l : List ℕ) → length name + length l ≤ length (join name l)
length-join [] l = omega arith
length-join (c ∷ name) l = let a = length-append name (46 ∷ l) in omega arith

joined_append :
    (c : ℕ) (name : List ℕ) (ls : List (List ℕ)) → joined (c ∷ name) ls ≡ (c ∷ name) ++ dotted ls
joined_append c name [] = sym (append-nil (c ∷ name))
joined_append c name (l ∷ ls) =
    joined_append c (name ++ (46 ∷ l)) ls ∙ append_assoc (c ∷ name) (46 ∷ l) (dotted ls)

joined_first :
    (l : List ℕ) (ls : List (List ℕ)) → 0 < length l → joined [] (l ∷ ls) ≡ l ++ dotted ls
joined_first [] ls h = absurd (omega arith)
joined_first (c ∷ l) ls h = joined_append c l ls

pub joined_split : (t : List ℕ) → 0 < length (before_dot t) → joined [] (split_dots t) ≡ t
joined_split t h = joined_first (before_dot t) (behind_dots t) h ∙ split_joined t

-- The loop reads the labels that were written, behind `pre` and before `rest`.
pub labels-write_labels :
    (lossy : List ℕ → List ℕ) (fuel : ℕ) (ls : List (List ℕ)) (pre rest name : List ℕ)
    → length ls < fuel
    → All (IsLabel lossy) ls
    → length (joined name ls) ≤ 253
    → labels lossy fuel (pre ++ (write_labels ls ++ rest)) (length pre) name
      ≡ some (joined name ls, length pre + length (write_labels ls))
unfolding labels
labels-write_labels lossy zero ls pre rest name hf hl hn = absurd (omega arith)
labels-write_labels lossy (suc fuel) [] pre rest name hf hl hn =
    let here = get_elem?-append pre rest 0 in rw (labels, here) refl
labels-write_labels lossy (suc fuel) (l ∷ ls) pre rest name hf (h, hl) hn =
    let n = length l in
    let w = write_labels ls in
    let whole = pre ++ (n ∷ (l ++ (w ++ rest))) in
    let m : min n 63 ≡ n = omega (arith, h.1) in
    let shape : pre ++ (write_labels (l ∷ ls) ++ rest) ≡ whole =
      rw (m, take-all l) (ap (λ r. pre ++ (n ∷ r)) (append_assoc l w rest)) in
    let before = length-append pre (n ∷ l) in
    let here = get_elem?-append pre (l ++ (w ++ rest)) n in
    let part = slice?-behind pre l (w ++ rest) n (length pre) refl in
    let fits = length-joined (join name l) ls in
    let grown = length-join name l in
    let t1 : (n == 0) ≡ false = ground (arith, h.0) in
    let t2 : (leb 64 n || ltb 253 (length name + n)) ≡ false = ground (arith, h.1) in
    let same : to_lower (lossy l) ≡ l = h.2 in
    let step : labels lossy (suc fuel) whole (length pre) name
        ≡ labels lossy fuel whole (length pre + 1 + n) (join name l) =
      rw (labels, here, t1, t2, part, same) refl in
    let again : (pre ++ (n ∷ l)) ++ (w ++ rest) ≡ whole = append_assoc pre (n ∷ l) (w ++ rest) in
    let at : length (pre ++ (n ∷ l)) ≡ length pre + 1 + n = omega arith in
    let ih =
      labels-write_labels lossy fuel ls (pre ++ (n ∷ l)) rest (join name l) (omega arith) hl hn in
    let size = length-append l w in
    let total : length (pre ++ (n ∷ l)) + length w ≡ length pre + length (write_labels (l ∷ ls)) =
      rw (m, take-all l) (omega arith) in
    ap (λ p. labels lossy (suc fuel) p (length pre) name) shape
    ∙ step
    ∙ ap (λ p. labels lossy fuel p (length pre + 1 + n) (join name l)) (sym again)
    ∙ ap (λ i. labels lossy fuel ((pre ++ (n ∷ l)) ++ (w ++ rest)) i (join name l)) (sym at)
    ∙ ih
    ∙ ap (λ k. some (joined name (l ∷ ls), k)) total
