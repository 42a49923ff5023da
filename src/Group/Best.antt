-- ===== src/Group/Best.antt =====
-- engine/src/outbound/group.rs: which member a round of measurements leaves as the best.
use aurora_vpn.Prelude.{
  ℕ, zero, suc, ◌+◌, ◌%◌, ◌^◌, ◌≤◌, ◌<◌, ◌≡◌, refl, sym, ap, ◌∙◌, inl, inr, true, false, ◌&&◌, not,
  Option, none, some, List, [], ◌∷◌, ◌++◌, append_assoc, append-nil, arith, ltb, ◌==◌,
  if◌then◌else◌, Bool-cases, length, take, drop, length-drop, take-append-drop, nat_eq, list_beq,
  list_beq_iff, list_eq, pair_eq, is_some, All, All-append, if_intro, leb,
}
use mathlib.Core.Path.{subst}
use native.Mathlib.Nat.{mod-eq_of_lt}
use aurora_vpn.Group.{
  Tag, has, UrlTest, chunks, better, keep, measure_chunk, measure_all, measure, round, leb,
}

-- What the measured best says of a list of members: it is one of them with the least of their delays, or
-- no member has answered.
abbrev pub IsLeast : (Tag → Option ℕ) → List Tag → Option (Tag × ℕ) → Type 0
IsLeast probe ts none = All (λ t. probe t ≡ none) ts
IsLeast probe ts (some (b, least)) =
    (has b ts ≡ true)
    × (probe b ≡ some least)
    × All (λ t. (d : ℕ) → probe t ≡ some d → least ≤ d) ts

has-append : (t : Tag) (xs ys : List Tag) → has t xs ≡ true → has t (xs ++ ys) ≡ true
has-append t [] ys h = absurd (cc)
has-append t (x ∷ xs) ys h = elim (Bool-cases (list_beq ◌==◌ x t)) [
  | inl e ↦ rw e refl
  | inr e ↦ (let q : has t xs ≡ true = ground arith in let r = has-append t xs ys q in ground arith)
]

has_last : (t : Tag) (xs : List Tag) → has t (xs ++ (t ∷ [])) ≡ true
has_last t [] = let e : list_beq ◌==◌ t t ≡ true = (list_beq_iff nat_eq t t).1 refl in rw e refl
has_last t (x ∷ xs) = let r = has_last t xs in ground arith

All_map : {P Q : Tag → Type 0} (xs : List Tag) → ((t : Tag) → P t → Q t) → All P xs → All Q xs
All_map [] f h = tt
All_map (x ∷ xs) f (h, hs) = (f x h, All_map xs f hs)

module _ (probe : Tag → Option ℕ) where
  better-IsLeast :
      (seen : List Tag) (t : Tag) (best : Option (Tag × ℕ))
      → IsLeast probe seen best
      → IsLeast probe (seen ++ (t ∷ [])) (better t (probe t) best)
  better-IsLeast seen t best h = go (probe t) refl best h
    where
      go :
          (answer : Option ℕ)
          → probe t ≡ answer
          → (best : Option (Tag × ℕ)) → IsLeast probe seen best
          → IsLeast probe (seen ++ (t ∷ [])) (better t answer best)
      go none e none h = All-append (λ t. probe t ≡ none) seen (t ∷ []) h (e, tt)
      go none e (some (b, least)) (m, p, a) =
          (has-append b seen (t ∷ []) m, p, All-append _ seen (t ∷ []) a ((λ d q. absurd (cc)), tt))
      go (some ms) e none h = (
        has_last t seen,
        e,
        All-append _ seen (t ∷ []) (All_map seen (λ u q d r. absurd (cc)) h)
            ((λ d q. (let z : ms ≡ d = cc in omega arith)), tt),
      )
      go (some ms) e (some (b, least)) (m, p, a) =
          if_intro (IsLeast probe (seen ++ (t ∷ []))) (ltb ms least) _ _
            (λ c. (
              has_last t seen,
              e,
              All-append _ seen (t ∷ [])
                  (All_map seen (λ u q d r. (let l = q d r in ground arith)) a)
                  ((λ d q. (let z : ms ≡ d = cc in omega arith)), tt),
            ))
            (λ c. (
              has-append b seen (t ∷ []) m,
              p,
              All-append _ seen (t ∷ []) a ((λ d q. (let z : ms ≡ d = cc in ground arith)), tt),
            ))

  measure_chunk-IsLeast :
      (seen ts : List Tag) (best : Option (Tag × ℕ))
      → IsLeast probe seen best
      → IsLeast probe (seen ++ ts) (measure_chunk probe ts best)
  measure_chunk-IsLeast seen [] best h = subst (λ x. IsLeast probe x best) (sym (append-nil seen)) h
  measure_chunk-IsLeast seen (t ∷ ts) best h =
      subst (λ x. IsLeast probe x (measure_chunk probe ts (better t (probe t) best)))
        (append_assoc seen (t ∷ []) ts)
        (measure_chunk-IsLeast (seen ++ (t ∷ [])) ts (better t (probe t) best)
          (better-IsLeast seen t best h))

  measure_all-IsLeast :
      (fuel : ℕ) (seen ts : List Tag) (best : Option (Tag × ℕ))
      → length ts ≤ fuel
      → IsLeast probe seen best
      → IsLeast probe (seen ++ ts) (measure_all probe (chunks fuel ts) best)
  measure_all-IsLeast zero seen [] best h l =
      subst (λ x. IsLeast probe x best) (sym (append-nil seen)) l
  measure_all-IsLeast zero seen (t ∷ ts) best h l = absurd (omega arith)
  measure_all-IsLeast (suc fuel) seen [] best h l =
      subst (λ x. IsLeast probe x best) (sym (append-nil seen)) l
  measure_all-IsLeast (suc fuel) seen (t ∷ ts) best h l =
      let all : List Tag = t ∷ ts in
      let d = length-drop 8 all in
      let cut : (seen ++ take 8 all) ++ drop 8 all ≡ seen ++ all =
        append_assoc seen (take 8 all) (drop 8 all)
        ∙ ap (λ x. seen ++ x) (take-append-drop 8 all) in
      subst (λ x. IsLeast probe x (measure_all probe (chunks (suc fuel) all) best)) cut
        (measure_all-IsLeast fuel (seen ++ take 8 all) (drop 8 all)
          (measure_chunk probe (take 8 all) best) (omega arith)
          (measure_chunk-IsLeast seen (take 8 all) best l))

  -- The chunks of a round leave the least of all delays, and nothing exactly if no member has answered.
  pub measure-IsLeast : (ts : List Tag) → IsLeast probe ts (measure probe ts)
  unfolding measure
  measure-IsLeast ts = measure_all-IsLeast (length ts) [] ts none (omega arith) tt

  -- The delay that the best member has on record is at most the tolerance above the delay of each member
  -- that has answered.
  abbrev pub IsClose : UrlTest → Option (Tag × ℕ) → Type 0
  IsClose g none = All (λ t. probe t ≡ none) g.members
  IsClose g (some (b, at)) = All (λ t. (d : ℕ) → probe t ≡ some d → at ≤ d + g.tolerance) g.members

  -- The delays of a round are so small that their sum with the tolerance does not wrap.
  abbrev pub Small : UrlTest → Type 0
  Small g = All (λ t. (d : ℕ) → probe t ≡ some d → d + g.tolerance < 2 ^ 32) g.members

  pub All_has : (P : Tag → Type 0) (t : Tag) (xs : List Tag) → has t xs ≡ true → All P xs → P t
  All_has P t [] h a = absurd (cc)
  All_has P t (x ∷ xs) h (p, a) = elim (Bool-cases (list_beq ◌==◌ x t)) [
    | inl e ↦ subst P ((list_beq_iff nat_eq x t).0 e) p
    | inr e ↦ All_has P t xs (ground arith) a
  ]

  pub round_measured :
      (g : UrlTest) (new : Option (Tag × ℕ))
      → measure probe g.members ≡ new
      → (round probe g).best
        ≡ (if not (keep g.tolerance g.best new) && is_some new then new else g.best)
  unfolding round
  round_measured g new e =
      if_intro
        (λ (r : UrlTest).
          r.best ≡ (if not (keep g.tolerance g.best new) && is_some new then new else g.best))
        (not (keep g.tolerance g.best (measure probe g.members))
          && is_some (measure probe g.members))
        _ _
        (λ t.
          let c : (not (keep g.tolerance g.best new) && is_some new) ≡ true =
            ap (λ x. not (keep g.tolerance g.best x) && is_some x) (sym e) ∙ t in
          rw c e)
        (λ t.
          let c : (not (keep g.tolerance g.best new) && is_some new) ≡ false =
            ap (λ x. not (keep g.tolerance g.best x) && is_some x) (sym e) ∙ t in
          rw c refl)

  -- The best member that a round leaves: as it was if nobody answers; else the old one, if the delay it
  -- had is within the tolerance of the least of the round, or else the fastest of the round, with the
  -- delay that its probe gave.
  pub data IsChosen (g : UrlTest) (left : Option (Tag × ℕ)) : Type 0 where
    silent : All (λ t. probe t ≡ none) g.members → left ≡ g.best → IsChosen g left
    kept :
        (u : Tag) (new : ℕ) (t : Tag) (old : ℕ)
        → IsLeast probe g.members (some (u, new))
        → g.best ≡ some (t, old)
        → old ≤ new + g.tolerance
        → left ≡ some (t, old)
        → IsChosen g left
    taken :
        (u : Tag) (new : ℕ)
        → IsLeast probe g.members (some (u, new))
        → ((t : Tag) (old : ℕ) → g.best ≡ some (t, old) → new + g.tolerance < old)
        → left ≡ some (u, new)
        → IsChosen g left

  chosen_of :
      (g : UrlTest) (u : Tag) (new : ℕ) (best : Option (Tag × ℕ))
      → g.best ≡ best
      → IsLeast probe g.members (some (u, new))
      → new + g.tolerance < 2 ^ 32
      → IsChosen g
          (if not (keep g.tolerance best (some (u, new))) && true then some (u, new) else best)
  chosen_of g u new none b l fits = taken u new l (λ t old q. absurd (cc)) refl
  chosen_of g u new (some (t, old)) b l fits =
      let same = mod-eq_of_lt fits in
      if_intro (IsChosen g) (not (leb old ((new + g.tolerance) % 2 ^ 32)) && true) _ _
        (λ c. taken u new l (λ v at q. (let z : old ≡ at = cc in ground arith)) refl)
        (λ c. kept u new t old l b (ground arith) refl)

  -- If no sum of a delay and the tolerance reaches 2 ^ 32, a round leaves the best member of a
  -- urltest group, with the delay on record, as it was if no member answers. If one answers, let the
  -- fastest be a member with the least delay of the round: the best stays as it was if its delay on
  -- record is at most the tolerance above this least delay, and otherwise, or if there was none, it
  -- becomes the fastest with the delay that its probe gave.
  pub round-IsChosen : (g : UrlTest) → Small g → IsChosen g (round probe g).best
  round-IsChosen g small = go (measure probe g.members) refl (measure-IsLeast g.members)
    where
      go :
          (new : Option (Tag × ℕ))
          → measure probe g.members ≡ new
          → IsLeast probe g.members new
          → IsChosen g (round probe g).best
      go none e l = silent l (
          round_measured g none e
          ∙ if_intro (λ (r : Option (Tag × ℕ)). r ≡ g.best)
              (not (keep g.tolerance g.best none) && false) _ _ (λ t. absurd (ground arith))
              (λ t. refl))
      go (some (u, new)) e (m, p, a) =
          subst (IsChosen g) (sym (round_measured g (some (u, new)) e))
            (chosen_of g u new g.best refl (m, p, a) (All_has _ u g.members m small new p))
