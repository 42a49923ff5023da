-- ===== src/Vless/Response/Run.antt =====
-- engine/src/outbound/vless.rs: what the bytes of a response do one after the other.
use aurora_vpn.Prelude.{
  ℕ, ◌-◌, ◌<◌, ◌≡◌, refl, sym, ap, ◌∙◌, inl, inr, Option, none, some, List, [], ◌∷◌, ◌++◌, arith,
  ◌==◌, nat_eq, list_eq, pair_eq, if_intro,
}
use aurora_vpn.Vless.{ResponseSkip}
use aurora_vpn.Vless.Response.{skip_byte, skip_run, before, Counts, before_twice, before_nil}

abbrev pub CountsOf : Option (ResponseSkip × List ℕ) → Type 0
CountsOf none = 0 < 1
CountsOf (some (t, out)) = Counts t

skip_byte-Counts : (b : ℕ) (s : ResponseSkip) → Counts s → CountsOf (skip_byte b s)
unfolding skip_byte
skip_byte-Counts b s c =
    let P : Option (ResponseSkip × List ℕ) → Type 0 = CountsOf in
    if_intro P (s.state == 3) _ _ (λ t. c)
      (λ t.
        if_intro P (s.state == 0) _ _
          (λ u. if_intro P (b == 0) _ _ (λ z. inr (inl refl)) (λ z. omega arith))
          (λ u.
            if_intro P (s.state == 1) _ _
              (λ v.
                if_intro (λ k. Counts (record { state = k; skip = b })) (b == 0) _ _
                  (λ z. inr (inr (inr refl))) (λ z. inr (inr (inl (refl, ground arith)))))
              (λ v.
                if_intro (λ k. Counts (record { state = k; skip = s.skip - 1 })) (s.skip - 1 == 0) _
                  _ (λ z. inr (inr (inr refl)))
                  (λ z. inr (inr (inl (ground arith, ground arith)))))))

before-Counts :
    (out : List ℕ) (r : Option (ResponseSkip × List ℕ)) → CountsOf r → CountsOf (before out r)
before-Counts out none c = c
before-Counts out (some (t, more)) c = c

pub skip_run-Counts : (a : List ℕ) (s : ResponseSkip) → Counts s → CountsOf (skip_run a s)
unfolding skip_run
skip_run-Counts [] s c = c
skip_run-Counts (b ∷ a) s c = go (skip_byte b s) (skip_byte-Counts b s c) (skip_run-Counts a)
  where
    go :
        (r : Option (ResponseSkip × List ℕ))
        → CountsOf r
        → ((t : ResponseSkip) → Counts t → CountsOf (skip_run a t))
        → CountsOf (elim r [ none ↦ none | some (t, out) ↦ before out (skip_run a t) ])
    go none c ih = c
    go (some (t, out)) c ih = before-Counts out (skip_run a t) (ih t c)

abbrev pub on : List ℕ → Option (ResponseSkip × List ℕ) → Option (ResponseSkip × List ℕ)
on b none = none
on b (some (t, out)) = before out (skip_run b t)

before-on :
    (out b : List ℕ) (r : Option (ResponseSkip × List ℕ))
    → before out (on b r) ≡ on b (before out r)
before-on out b none = refl
before-on out b (some (t, more)) = before_twice out more (skip_run b t)

pub skip_run-append : (a b : List ℕ) (s : ResponseSkip) → skip_run (a ++ b) s ≡ on b (skip_run a s)
unfolding skip_run
skip_run-append [] b s = sym (before_nil (skip_run b s))
skip_run-append (x ∷ a) b s = go (skip_byte x s) (skip_run-append a b)
  where
    go :
        (r : Option (ResponseSkip × List ℕ))
        → ((t : ResponseSkip) → skip_run (a ++ b) t ≡ on b (skip_run a t))
        → elim r [ none ↦ none | some (t, out) ↦ before out (skip_run (a ++ b) t) ]
          ≡ on b (elim r [ none ↦ none | some (t, out) ↦ before out (skip_run a t) ])
    go none ih = refl
    go (some (t, out)) ih = ap (before out) (ih t) ∙ before-on out b (skip_run a t)
