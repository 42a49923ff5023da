-- ===== src/Group/Rounds.antt =====
-- engine/src/outbound/group.rs: a best member that is not replaced.
use aurora_vpn.Prelude.{
  ℕ, ◌+◌, ◌^◌, ◌≤◌, ◌<◌, ◌≡◌, refl, sym, ap, ◌∙◌, true, false, ◌&&◌, not, Option, none, some, List,
  [], ◌∷◌, arith, leb, nat_eq, list_eq, pair_eq, is_some, All, if_intro,
}
use native.Mathlib.Nat.{mod-eq_of_lt}
use aurora_vpn.Group.{Tag, UrlTest, keep, measure, round, touch, tag_of, member}
use aurora_vpn.Group.Best.{IsLeast, measure-IsLeast, IsClose, Small, All_has, round_measured}

module _ (probe : Tag → Option ℕ) where
  -- What the probe of the best member gives does not matter here.
  round_keeps :
      (g : UrlTest) (t : Tag) (old : ℕ)
      → g.best ≡ some (t, old)
      → Small probe g
      → IsClose probe g (some (t, old))
      → (round probe g).best ≡ some (t, old)
  round_keeps g t old b small close =
      go (measure probe g.members) refl (measure-IsLeast probe g.members)
    where
      go :
          (new : Option (Tag × ℕ))
          → measure probe g.members ≡ new
          → IsLeast probe g.members new
          → (round probe g).best ≡ some (t, old)
      go none e l =
          round_measured probe g none e
          ∙ if_intro (λ (r : Option (Tag × ℕ)). r ≡ some (t, old))
              (not (keep g.tolerance g.best none) && false) _ _ (λ t. absurd (ground arith))
              (λ t. b)
      go (some (u, new)) e (m, p, a) =
          let fits : new + g.tolerance < 2 ^ 32 = All_has probe _ u g.members m small new p in
          let near : old ≤ new + g.tolerance = All_has probe _ u g.members m close new p in
          let same = mod-eq_of_lt fits in
          let k : keep g.tolerance g.best (some (u, new)) ≡ true =
            ap (λ o. keep g.tolerance o (some (u, new))) b
            ∙ ap (λ n. leb old n) same
            ∙ (ground arith) in
          round_measured probe g (some (u, new)) e ∙ rw k b

-- Rounds, each with what its probes give.
unfoldable pub rounds : List (Tag → Option ℕ) → UrlTest → UrlTest
rounds [] g = g
rounds (p ∷ ps) g = rounds ps (round p g)

round-same : (p : Tag → Option ℕ) (g : UrlTest) → round p g ≡ record g { best = (round p g).best }
unfolding round
round-same p g =
    if_intro (λ (r : UrlTest). r ≡ record g { best = r.best })
      (not (keep g.tolerance g.best (measure p g.members)) && is_some (measure p g.members)) _ _
      (λ t. refl) (λ t. refl)

round_fixed :
    (p : Tag → Option ℕ) (g : UrlTest) (t : Tag) (old : ℕ)
    → g.best ≡ some (t, old)
    → Small p g
    → IsClose p g (some (t, old))
    → round p g ≡ g
round_fixed p g t old b small close =
    let with : Option (Tag × ℕ) → UrlTest = λ o. record g { best = o } in
    round-same p g ∙ ap with (round_keeps p g t old b small close) ∙ ap with (sym b)

-- If the best member t of a urltest group was measured with the delay old, and in each of some
-- rounds every delay is at least old less the tolerance and no sum of a delay and the tolerance
-- reaches 2 ^ 32, then connections go to t after these rounds, whether or not a probe of t succeeded
-- in them.
pub rounds_keep :
    (ps : List (Tag → Option ℕ)) (now : ℕ) (g : UrlTest) (t : Tag) (old : ℕ)
    → g.best ≡ some (t, old)
    → All (λ p. Small p g × IsClose p g (some (t, old))) ps
    → (member now (rounds ps g)).0 ≡ some t
unfolding rounds member touch
rounds_keep [] now g t old b h = ap (λ o. tag_of o g.members) b
rounds_keep (p ∷ ps) now g t old b ((small, close), h) =
    ap (λ s. (member now (rounds ps s)).0) (round_fixed p g t old b small close)
    ∙ rounds_keep ps now g t old b h
