-- ===== src/Vless/Response/Polls.antt =====
-- engine/src/outbound/vless.rs: what the calls of `poll_read` give of a response, taken together.
use aurora_vpn.Prelude.{
  ℕ, zero, suc, ◌-◌, ◌≤◌, ◌<◌, ◌≡◌, refl, sym, ap, ◌∙◌, ◌≢◌, inl, Bool, true, false, Option, none,
  some, List, [], ◌∷◌, ◌++◌, arith, ◌==◌, if◌then◌else◌, length, drop, length-append, nat_eq,
  list_eq, pair_eq, All, if_intro,
}
use mathlib.Core.Path.{subst}
use aurora_vpn.Prelude.Slices.{drop-length-append}
use aurora_vpn.Vless.{ResponseSkip, consume}
use aurora_vpn.Vless.Feed.{concat}
use aurora_vpn.Vless.Response.{
  Polled, pending, refused, got, poll_read, skip_byte, skip_run, before, Counts, before_nil,
  skip_done, skip_additions, behind_header, consume_loop-run,
}
use aurora_vpn.Vless.Response.Run.{CountsOf, skip_run-Counts, on, skip_run-append}

-- A read below that is not the end of the stream.
abbrev pub IsRead : List ℕ → Type 0
IsRead bytes = 0 < length bytes

abbrev told : Polled → Option (ResponseSkip × List ℕ)
told (pending s) = some (s, [])
told refused = none
told (got out cs s) = before out (skip_run (concat cs) s)

abbrev Leaves : List (List ℕ) → Polled → Type 0
Leaves cs (got out rest s) = (length rest < length cs) × All IsRead rest × Counts s
Leaves cs p = 0 < 1

more_left : (c : List ℕ) (cs : List (List ℕ)) (p : Polled) → Leaves cs p → Leaves (c ∷ cs) p
more_left c cs (pending s) h = h
more_left c cs refused h = h
more_left c cs (got out rest s) (l, r, k) = (omega arith, r, k)

consume-run :
    (bytes : List ℕ) (s : ResponseSkip)
    → Counts s
    → skip_run bytes s ≡ behind_header bytes (consume bytes s)
unfolding consume
consume-run bytes s c = consume_loop-run (length bytes) bytes s c (omega arith)

-- One call, by what its bytes do one by one.
poll_read-run :
    (cs : List (List ℕ)) (s : ResponseSkip)
    → All IsRead cs
    → Counts s
    → (skip_run (concat cs) s ≡ told (poll_read cs s)) × Leaves cs (poll_read cs s)
unfolding poll_read skip_run
poll_read-run [] s h c = (refl, omega arith)
poll_read-run ([] ∷ cs) s (h, hs) c = absurd (omega arith)
poll_read-run ((b ∷ bytes) ∷ cs) s (h, hs) c =
    let all : List ℕ = b ∷ bytes in
    let Good : Polled → Type 0 =
      λ p. (skip_run (all ++ concat cs) s ≡ told p) × Leaves (all ∷ cs) p in
    if_intro Good (s.state == 3) _ _
      (λ t. (
        skip_done (all ++ concat cs) s (ground arith)
            ∙ sym (ap (before all) (skip_done (concat cs) s (ground arith))),
        (omega arith, hs, c),
      ))
      (λ t. consumed (consume all s) (sym (consume-run all s c)) (λ t k. poll_read-run cs t hs k))
  where
    Sound : Polled → Type 0
    Sound p = (skip_run ((b ∷ bytes) ++ concat cs) s ≡ told p) × Leaves ((b ∷ bytes) ∷ cs) p

    left_over :
        (t : ResponseSkip) (left : List ℕ)
        → Counts t
        → skip_run ((b ∷ bytes) ++ concat cs) s ≡ before left (skip_run (concat cs) t)
        → (skip_run (concat cs) t ≡ told (poll_read cs t)) × Leaves cs (poll_read cs t)
        → Sound (elim left [ [] ↦ poll_read cs t | x ∷ xs ↦ got (x ∷ xs) cs t ])
    left_over t [] k e (ih, l) =
        (e ∙ before_nil (skip_run (concat cs) t) ∙ ih, more_left (b ∷ bytes) cs (poll_read cs t) l)
    left_over t (x ∷ xs) k e ih = (e, (omega arith, hs, k))

    consumed :
        (r : Option (ℕ × ResponseSkip))
        → behind_header (b ∷ bytes) r ≡ skip_run (b ∷ bytes) s
        → ((t : ResponseSkip)
            → Counts t
            → (skip_run (concat cs) t ≡ told (poll_read cs t)) × Leaves cs (poll_read cs t))
        → Sound (elim r [
          | none ↦ refused
          | some (used, t) ↦ elim (drop used (b ∷ bytes)) [
            | [] ↦ poll_read cs t
            | x ∷ xs ↦ got (x ∷ xs) cs t
          ]
        ])
    consumed none e ih =
        (skip_run-append (b ∷ bytes) (concat cs) s ∙ ap (on (concat cs)) (sym e), omega arith)
    consumed (some (used, t)) e ih =
        let k : Counts t = subst CountsOf (sym e) (skip_run-Counts (b ∷ bytes) s c) in
        left_over t (drop used (b ∷ bytes)) k
          (skip_run-append (b ∷ bytes) (concat cs) s ∙ ap (on (concat cs)) (sym e)) (ih t k)

-- Calls until the stream has nothing more; `none` once a call has failed.
unfoldable pub polls : ℕ → List (List ℕ) → ResponseSkip → Option (List ℕ)
polls zero cs s = some []
polls (suc n) cs s = elim (poll_read cs s) [
  | pending t ↦ some []
  | refused ↦ none
  | got out rest t ↦ elim (polls n rest t) [ none ↦ none | some more ↦ some (out ++ more) ]
]

abbrev output : Option (ResponseSkip × List ℕ) → Option (List ℕ)
output none = none
output (some (t, out)) = some out

output-before :
    (out : List ℕ) (r : Option (ResponseSkip × List ℕ))
    → elim (output r) [ none ↦ none | some more ↦ some (out ++ more) ] ≡ output (before out r)
output-before out none = refl
output-before out (some (t, more)) = refl

polls-run :
    (n : ℕ) (cs : List (List ℕ)) (s : ResponseSkip)
    → length cs ≤ n
    → All IsRead cs
    → Counts s
    → polls n cs s ≡ output (skip_run (concat cs) s)
unfolding polls poll_read skip_run
polls-run zero [] s h r c = refl
polls-run zero (x ∷ cs) s h r c = absurd (omega arith)
polls-run (suc n) cs s h r c = go (poll_read cs s) (poll_read-run cs s r c) (polls-run n)
  where
    go :
        (p : Polled)
        → (skip_run (concat cs) s ≡ told p) × Leaves cs p
        → ((rest : List (List ℕ)) (t : ResponseSkip)
            → length rest ≤ n
            → All IsRead rest
            → Counts t
            → polls n rest t ≡ output (skip_run (concat rest) t))
        → elim p [
          | pending t ↦ some []
          | refused ↦ none
          | got out rest t ↦ elim (polls n rest t) [ none ↦ none | some more ↦ some (out ++ more) ]
        ]
          ≡ output (skip_run (concat cs) s)
    go (pending t) (e, l) ih = sym (ap output e)
    go refused (e, l) ih = sym (ap output e)
    go (got out rest t) (e, (l, r, k)) ih =
        ap (λ o. elim o [ none ↦ none | some more ↦ some (out ++ more) ])
          (ih rest t (omega arith) r k)
        ∙ output-before out (skip_run (concat rest) t)
        ∙ sym (ap output e)

abbrev pub new_skip : ResponseSkip
new_skip = record { state = 0; skip = 0 }

skip_front :
    (a body : List ℕ) (s : ResponseSkip)
    → s.state ≡ 2
    → s.skip ≡ length a
    → 0 < length a
    → output (skip_run (a ++ body) s) ≡ some body
skip_front a body s h e p =
    let n = length a in
    let l = length-append a body in
    let over : (s.skip - n == 0) ≡ true = ground arith in
    let end : Bool → ResponseSkip =
      λ z. record { state = if z then 3 else s.state; skip = s.skip - n } in
    ap output (
      skip_additions n (a ++ body) s h p (omega arith) (omega arith)
      ∙ ap (λ z. skip_run (drop n (a ++ body)) (end z)) over
      ∙ ap (λ x. skip_run x (end true)) (drop-length-append a body)
      ∙ skip_done body (end true) refl)

after_length :
    (additions body : List ℕ)
    → output (
        before [] (
          before [] (
            skip_run (additions ++ body) (record {
              state = if length additions == 0 then 3 else 2;
              skip = length additions;
            }))))
      ≡ some body
after_length [] body =
    ap (λ r. output (before [] (before [] r)))
      (skip_done body (record { state = 3; skip = 0 }) refl)
after_length (a ∷ rest) body =
    let n = length (a ∷ rest) in
    let c : (n == 0) ≡ false = ground arith in
    let of : Bool → ResponseSkip = λ z. record { state = if z then 3 else 2; skip = n } in
    let all = skip_run ((a ∷ rest) ++ body) (of false) in
    ap (λ z. output (before [] (before [] (skip_run ((a ∷ rest) ++ body) (of z))))) c
    ∙ ap output (before_nil (before [] all) ∙ before_nil all)
    ∙ skip_front (a ∷ rest) body (of false) refl refl (omega arith)

-- If the reads below, none of them empty, together have a response of version 0 with additions of at
-- most 255 bytes and then a body, the calls of poll_read give together the body, however the reads
-- cut the response.
pub polls_body :
    (cs : List (List ℕ)) (additions body : List ℕ)
    → All IsRead cs
    → length additions < 256
    → concat cs ≡ 0 ∷ length additions ∷ (additions ++ body)
    → polls (length cs) cs new_skip ≡ some body
unfolding skip_run skip_byte
polls_body cs additions body h n e =
    polls-run (length cs) cs new_skip (omega arith) h (inl refl)
    ∙ ap (λ b. output (skip_run b new_skip)) e
    ∙ after_length additions body

-- If the reads below, none of them empty, together begin with a version other than 0, the calls of
-- poll_read end in an error, however the reads cut the response.
pub polls_version :
    (cs : List (List ℕ)) (version : ℕ) (rest : List ℕ)
    → All IsRead cs
    → version ≢ 0
    → concat cs ≡ version ∷ rest
    → polls (length cs) cs new_skip ≡ none
unfolding skip_run skip_byte
polls_version cs version rest h n e =
    let v : (version == 0) ≡ false = ground arith in
    let refuses : skip_run (version ∷ rest) new_skip ≡ none = rw (skip_run, skip_byte, v) refl in
    polls-run (length cs) cs new_skip (omega arith) h (inl refl)
    ∙ ap (λ b. output (skip_run b new_skip)) e
    ∙ ap output refuses
