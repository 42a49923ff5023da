-- ===== src/Group/Choices.antt =====
-- engine/src/outbound/group.rs: the current member of a selector.
use aurora_vpn.Prelude.{
  ◌≡◌, refl, ◌≢◌, ◌⊎◌, inl, inr, true, none, some, List, [], ◌∷◌, arith, ◌==◌, Bool-cases, nat_eq,
  list_beq, list_beq_iff, list_eq, pair_eq, if_intro,
}
use mathlib.Core.Path.{subst}
use aurora_vpn.Group.{Tag, Selector, new_selector, has, select}

-- Choices of the user, those of other tags refused.
unfoldable pub selects : List Tag → Selector → Selector
selects [] s = s
selects (t ∷ ts) s = elim (select t s) [ none ↦ selects ts s | some v ↦ selects ts v ]

-- The current member of a selector whose default is one of its members, or is not given, stays one.
pub selects-has :
    (default : Tag) (outbounds choices : List Tag)
    → (default ≡ []) ⊎ (has default outbounds ≡ true)
    → outbounds ≢ []
    → has (selects choices (new_selector default outbounds)).current outbounds ≡ true
unfolding new_selector selects select
selects-has default outbounds choices h n =
    stays choices (new_selector default outbounds) outbounds refl (begin outbounds h n)
  where
    begin :
        (os : List Tag)
        → (default ≡ []) ⊎ (has default os ≡ true)
        → os ≢ []
        → has (new_selector default os).current os ≡ true
    begin [] h n = absurd (n refl)
    begin (o ∷ os) h n =
        let self : has o (o ∷ os) ≡ true =
          (let e : list_beq ◌==◌ o o ≡ true = (list_beq_iff nat_eq o o).1 refl in rw e refl) in
        if_intro (λ (c : Tag). has c (o ∷ os) ≡ true) (list_beq ◌==◌ default []) _ _ (λ t. self)
          (λ t. elim h [
            | inl e ↦ absurd (
                let q : list_beq ◌==◌ default [] ≡ true = (list_beq_iff nat_eq default []).1 e in
                ground arith)
            | inr e ↦ e
          ])

    stays :
        (cs : List Tag) (s : Selector) (os : List Tag)
        → s.members ≡ os
        → has s.current os ≡ true
        → has (selects cs s).current os ≡ true
    stays [] s os m e = e
    stays (c ∷ cs) s os m e = elim (Bool-cases (has c s.members)) [
      | inl t ↦
          rw (selects, select, t)
            (stays cs (record s { current = c }) os m (subst (λ x. has c x ≡ true) m t))
      | inr t ↦ rw (selects, select, t) (stays cs s os m e)
    ]
