-- ===== src/Router/Match.antt =====
-- engine/src/router.rs: the first rule that matches decides, and remembering the process changes nothing.
use aurora_vpn.Prelude.{
  ℕ, ◌+◌, ◌≡◌, refl, ap, ◌∙◌, ◌⊎◌, inl, inr, Option, some, List, [], ◌∷◌, arith, if◌then◌else◌,
  Option-cases, drop, nat_eq, list_eq, pair_eq, ◌>>=◌,
}
use aurora_vpn.Net.{SocketAddr}
use aurora_vpn.Router.{Text, Process, Meta, Matcher, process, matches, passes, address_hit, dest_ip}
use aurora_vpn.Router.Rules.{Decision, step, final, Rule, Router, next_from, next}

module _ (lookup : Text → SocketAddr → Option Process) where
  -- What a look-up leaves answers like the state before it.
  remembered : Meta → Meta
  remembered m = (process lookup m).0

  remembered_cases :
      (m : Meta)
      → (remembered m ≡ m)
        ⊎ (remembered m ≡ record m { process = some (m.source >>= lookup m.network) })
  unfolding remembered process
  remembered_cases m = elim (Option-cases m.process) [
    | inl e ↦ inr (ground arith)
    | inr (f, e) ↦ inl (ground arith)
  ]

  passes-remembered :
      (r : Matcher) (m : Meta) (mode : Text) → passes r (remembered m) mode ≡ passes r m mode
  unfolding passes
  passes-remembered r m mode = elim (remembered_cases m) [
    | inl e ↦ ap (λ x. passes r x mode) e
    | inr e ↦ ap (λ x. passes r x mode) e
  ]

  address_remembered : (r : Matcher) (m : Meta) → address_hit r (remembered m) ≡ address_hit r m
  unfolding address_hit dest_ip
  address_remembered r m = elim (remembered_cases m) [
    | inl e ↦ ap (address_hit r) e
    | inr e ↦ ap (address_hit r) e
  ]

  process_remembered : (m : Meta) → (process lookup (remembered m)).1 ≡ (process lookup m).1
  unfolding remembered process
  process_remembered m = ground arith

  matches-remembered :
      (r : Matcher) (m : Meta) (mode : Text)
      → (matches lookup r (remembered m) mode).1 ≡ (matches lookup r m mode).1
  unfolding matches
  matches-remembered r m mode =
      let h1 = passes-remembered r m mode in
      let h2 = address_remembered r m in let h3 = process_remembered m in ground arith

  -- A rule leaves the connection as it was or with its process remembered.
  matches_leaves :
      (q : Matcher) (m : Meta) (mode : Text)
      → ((matches lookup q m mode).0 ≡ m) ⊎ ((matches lookup q m mode).0 ≡ remembered m)
  unfolding matches remembered
  matches_leaves q m mode = ground arith

  -- A rule tried before another does not change the other's answer: that the process is looked up lazily and remembered cannot be seen.
  pub matches-matches :
      (q r : Matcher) (m : Meta) (mode : Text)
      → (matches lookup r (matches lookup q m mode).0 mode).1 ≡ (matches lookup r m mode).1
  matches-matches q r m mode = elim (matches_leaves q m mode) [
    | inl e ↦ ap (λ x. (matches lookup r x mode).1) e
    | inr e ↦ ap (λ x. (matches lookup r x mode).1) e ∙ matches-remembered r m mode
  ]

  -- The first of the rules that match the connection as it is, with its number.
  abbrev pub first_match : List Rule → ℕ → Text → Text → Meta → Decision
  first_match [] i out mode m = final out
  first_match (r ∷ rs) i out mode m =
      let tail = first_match rs (i + 1) out mode m in
      if (matches lookup r.matcher m mode).1 then step r.action (i + 1) else tail

  first_match-matches :
      (q : Matcher) (rs : List Rule) (i : ℕ) (out mode : Text) (m : Meta)
      → first_match rs i out mode (matches lookup q m mode).0 ≡ first_match rs i out mode m
  first_match-matches q [] i out mode m = refl
  first_match-matches q (r ∷ rs) i out mode m =
      rw (matches-matches q r.matcher m mode, first_match-matches q rs (i + 1) out mode m) refl

  next_from_lem :
      (rs : List Rule) (i : ℕ) (out mode : Text) (m : Meta)
      → (next_from lookup rs i out mode m).1 ≡ first_match rs i out mode m
  unfolding next_from
  next_from_lem [] i out mode m = refl
  next_from_lem (r ∷ rs) i out mode m =
      let e = next_from_lem rs (i + 1) out mode (matches lookup r.matcher m mode).0 in
      let f = first_match-matches r.matcher rs (i + 1) out mode m in ground arith

  -- Router::next decides by the first rule from the given one that matches the connection as it
  -- came, and by the final outbound if there is none: a process that is looked up and remembered on
  -- the way changes no later answer.
  pub next_lem :
      (r : Router) (m : Meta) (from : ℕ)
      → (next lookup r m from).1 ≡ first_match (drop from r.rules) from r.final_outbound r.mode m
  unfolding next
  next_lem r m from = next_from_lem (drop from r.rules) from r.final_outbound r.mode m
