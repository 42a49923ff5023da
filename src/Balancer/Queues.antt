-- ===== src/Balancer/Queues.antt =====
-- Who stands in the queue of a switch: the candidates the code offers, and no others.
use aurora_vpn.Prelude.{
  ℕ, ◌+◌, ◌≡◌, refl, ap, ◌∙◌, inl, inr, Bool, true, false, ◌&&◌, ◌||◌, not, none, some, List, [],
  ◌∷◌, ◌++◌, arith, ltb, ◌==◌, Bool-cases, take, drop, take-append-drop, nat_eq, list_beq_iff,
  list_eq, pair_eq, get, All, insert_by, sort_by,
}
use aurora_vpn.Balancer.{Tag, tag_eq, alive, Brain, contains, is_safe}
use aurora_vpn.Balancer.Judge.{
  living, unmeasured, firsts, without, alternatives, position, living_others, rotation_queue,
}

-- `self.health.get(tag).is_none_or(|h| h.fails == 0)`
abbrev pub is_clean : Tag → Brain → Bool
is_clean t b = elim (get t b.health) [ none ↦ true | some h ↦ h.fails == 0 ]

tag_sym : (t u : Tag) → tag_eq t u ≡ tag_eq u t
tag_sym t u = ground (arith, list_beq_iff nat_eq t u, list_beq_iff nat_eq u t)

pub contains-append :
    (xs ys : List Tag) (t : Tag) → contains (xs ++ ys) t ≡ (contains xs t || contains ys t)
contains-append [] ys t = refl
contains-append (x ∷ xs) ys t = ground (arith, contains-append xs ys t)

contains-insert_by :
    (a : Tag × ℕ) (xs : List (Tag × ℕ)) (t : Tag)
    → contains (firsts (insert_by (λ p. p.1) a xs)) t ≡ (tag_eq a.0 t || contains (firsts xs) t)
unfolding insert_by
contains-insert_by a [] t = refl
contains-insert_by a (x ∷ xs) t = ground (arith, contains-insert_by a xs t)

contains-sort_by :
    (xs : List (Tag × ℕ)) (t : Tag)
    → contains (firsts (sort_by (λ p. p.1) xs)) t ≡ contains (firsts xs) t
unfolding sort_by
contains-sort_by [] t = refl
contains-sort_by (x ∷ xs) t =
    ground (arith, contains-sort_by xs t, contains-insert_by x (sort_by (λ p. p.1) xs) t)

contains-without :
    (tag : Tag) (xs : List Tag) (t : Tag)
    → contains (without tag xs) t ≡ (contains xs t && not (tag_eq t tag))
contains-without tag [] t = refl
contains-without tag (x ∷ xs) t = ground (
  arith,
  contains-without tag xs t,
  list_beq_iff nat_eq x tag,
  list_beq_iff nat_eq t tag,
  list_beq_iff nat_eq x t,
)

-- `self.health.get(tag).is_some_and(Health::alive)`
unfoldable pub is_living : Tag → Brain → Bool
is_living t b = elim (get t b.health) [ none ↦ false | some h ↦ alive h ]

-- What `alternatives` puts among the servers never measured.
is_new : Tag → Brain → Bool
is_new t b = elim (get t b.health) [ none ↦ true | some h ↦ not (alive h || ltb 0 h.fails) ]

living_cons :
    (b : Brain) (c : Tag) (cs : List Tag) (t : Tag)
    → contains (firsts (living b (c ∷ cs))) t ≡ (
        not (tag_eq c b.routed) && is_living c b && tag_eq c t || contains (firsts (living b cs)) t)
unfolding living is_living
living_cons b c cs t = ground arith

unmeasured_cons :
    (b : Brain) (c : Tag) (cs : List Tag) (t : Tag)
    → contains (unmeasured b (c ∷ cs)) t
      ≡ (not (tag_eq c b.routed) && is_new c b && tag_eq c t || contains (unmeasured b cs) t)
unfolding unmeasured is_new
unmeasured_cons b c cs t = ground arith

living_others_cons :
    (b : Brain) (c : Tag) (cs : List Tag) (t : Tag)
    → contains (living_others b (c ∷ cs)) t
      ≡ (not (tag_eq c b.routed) && is_living c b && tag_eq c t || contains (living_others b cs) t)
unfolding living_others is_living
living_others_cons b c cs t = ground arith

-- A filter by a test on tags, read through `contains`.
filter_cons :
    (keep : Tag → Bool) (c t : Tag) (cs r : Bool)
    → r ≡ (cs && keep t)
    → (keep c && tag_eq c t || r) ≡ ((tag_eq c t || cs) && keep t)
filter_cons keep c t cs r h = elim (Bool-cases (tag_eq c t)) [
  | inl e ↦ (let same : c ≡ t = (list_beq_iff nat_eq c t).0 e in rw (same, h) (ground arith))
  | inr e ↦ ground arith
]

contains-living :
    (b : Brain) (cs : List Tag) (t : Tag)
    → contains (firsts (living b cs)) t
      ≡ (contains cs t && (not (tag_eq t b.routed) && is_living t b))
unfolding living
contains-living b [] t = refl
contains-living b (c ∷ cs) t =
    let h1 = living_cons b c cs t in
    let h2 =
      filter_cons (λ u. not (tag_eq u b.routed) && is_living u b) c t (contains cs t)
        (contains (firsts (living b cs)) t) (contains-living b cs t) in
    ground arith

contains-unmeasured :
    (b : Brain) (cs : List Tag) (t : Tag)
    → contains (unmeasured b cs) t ≡ (contains cs t && (not (tag_eq t b.routed) && is_new t b))
unfolding unmeasured
contains-unmeasured b [] t = refl
contains-unmeasured b (c ∷ cs) t =
    let h1 = unmeasured_cons b c cs t in
    let h2 =
      filter_cons (λ u. not (tag_eq u b.routed) && is_new u b) c t (contains cs t)
        (contains (unmeasured b cs) t) (contains-unmeasured b cs t) in
    ground arith

contains-living_others :
    (b : Brain) (cs : List Tag) (t : Tag)
    → contains (living_others b cs) t
      ≡ (contains cs t && (not (tag_eq t b.routed) && is_living t b))
unfolding living_others
contains-living_others b [] t = refl
contains-living_others b (c ∷ cs) t =
    let h1 = living_others_cons b c cs t in
    let h2 =
      filter_cons (λ u. not (tag_eq u b.routed) && is_living u b) c t (contains cs t)
        (contains (living_others b cs) t) (contains-living_others b cs t) in
    ground arith

-- The living and the new are those without a miss.
clean_split : (b : Brain) (t : Tag) → (is_living t b || is_new t b) ≡ is_clean t b
unfolding is_living is_new alive
clean_split b t = ground arith

contains-piles :
    (b : Brain) (cs : List Tag) (t : Tag)
    → (contains (firsts (living b cs)) t || contains (unmeasured b cs) t)
      ≡ (contains cs t && not (tag_eq t b.routed) && is_clean t b)
contains-piles b cs t =
    let h1 = contains-living b cs t in
    let h2 = contains-unmeasured b cs t in let h3 = clean_split b t in ground arith

-- A tag is among the alternatives exactly if it is a candidate, is not the current server, and has
-- no miss on record.
pub contains-alternatives :
    (b : Brain) (t : Tag)
    → contains (alternatives b) t
      ≡ (contains b.candidates t && not (tag_eq t b.routed) && is_clean t b)
unfolding alternatives is_safe
contains-alternatives b t = ground (
  arith,
  contains-piles b b.candidates t,
  contains-sort_by (living b b.candidates) t,
  contains-append (firsts (sort_by (λ p. p.1) (living b b.candidates))) (unmeasured b b.candidates)
      t,
  contains-without b.primary
      (firsts (sort_by (λ p. p.1) (living b b.candidates)) ++ unmeasured b b.candidates) t,
  list_beq_iff nat_eq b.primary t,
  list_beq_iff nat_eq t b.primary,
  tag_sym b.routed b.primary,
)

contains-turned :
    (n : ℕ) (xs : List Tag) (t : Tag) → contains (drop n xs ++ take n xs) t ≡ contains xs t
contains-turned n xs t =
    let h1 = contains-append (drop n xs) (take n xs) t in
    let h2 = contains-append (take n xs) (drop n xs) t in
    let h3 = ap (λ ys. contains ys t) (take-append-drop n xs) in ground arith

-- A tag is in the queue of the rotation exactly if it is a candidate, is not the current server, and
-- is alive.
pub contains-rotation_queue :
    (b : Brain) (t : Tag)
    → contains (rotation_queue b) t
      ≡ (contains b.candidates t && (not (tag_eq t b.routed) && is_living t b))
unfolding rotation_queue
contains-rotation_queue b t =
    let start : ℕ = elim (position b.routed 0 b.candidates) [ none ↦ 0 | some i ↦ i + 1 ] in
    contains-living_others b (drop start b.candidates ++ take start b.candidates) t
    ∙ rw (contains-turned start b.candidates t)

pub All-contains {κ} :
    (P : Tag → Type κ) (xs : List Tag) → ((t : Tag) → contains xs t ≡ true → P t) → All P xs
All-contains P [] h = tt
All-contains P (x ∷ xs) h =
    (h x (ground (arith, list_beq_iff nat_eq x x)), All-contains P xs (λ t e. h t (ground arith)))
