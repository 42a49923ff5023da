-- ===== src/Vless/Response.antt =====
-- engine/src/outbound/vless.rs: the header of the response is taken off, whatever the cut of the bytes.
pub mod Run
pub mod Polls
use aurora_vpn.Prelude.{
  ℕ, zero, suc, ◌+◌, ◌-◌, ◌*◌, ◌/◌, ◌%◌, ◌^◌, ◌≤◌, ◌<◌, min, max, ◌≡◌, refl, sym, ap, ◌∙◌, ◌≢◌, ◌↔◌,
  ◌⊎◌, inl, inr, Bool, true, false, ◌&&◌, ◌||◌, not, Option, none, some, List, [], ◌∷◌, ◌++◌, map,
  append_assoc, append-nil, arith, ltb, leb, ◌==◌, if◌then◌else◌, ltb→lt, lt→ltb, leb→le, ==_iff,
  tests, Bool-cases, Option-cases, length, get_elem?, get_or, take, drop, replicate, length-append,
  length-take, length-drop, take-append-drop, length-map, length-replicate, Eq, ◌=?◌, =?_iff,
  nat_eq, list_beq, list_beq_iff, list_eq, pair_eq, is_some, get, remove, insert, get-remove,
  get-insert, All, IsByte, All-append, to_be, from_be, length-to_be, to_be-IsByte, byte_at,
  byte_at-IsByte, u16_be, slice?, put, length-put, ◌>>=◌, >>=-eq-some, if_intro, insert_by, sort_by,
  min_by, length-insert_by, length-sort_by,
}
use aurora_vpn.Prelude.Put.{drop-drop}
use aurora_vpn.Vless.{ResponseSkip, plus, consume_loop, consume}

-- What a call of `poll_read` gives. Of the reads below an empty one is the end of the stream, and none is
-- left while the stream has nothing yet.
pub data Polled : Type 0 where
  pending : ResponseSkip → Polled
  refused : Polled
  got : List ℕ → List (List ℕ) → ResponseSkip → Polled

unfoldable pub poll_read : List (List ℕ) → ResponseSkip → Polled
poll_read [] s = pending s
poll_read ([] ∷ cs) s = got [] cs s
poll_read ((b ∷ bytes) ∷ cs) s =
    if s.state == 3 then got (b ∷ bytes) cs s else elim (consume (b ∷ bytes) s) [
      | none ↦ refused
      | some (used, t) ↦ elim (drop used (b ∷ bytes)) [
        | [] ↦ poll_read cs t
        | x ∷ xs ↦ got (x ∷ xs) cs t
      ]
    ]

-- What one byte does to the state, and what it puts out.
unfoldable pub skip_byte : ℕ → ResponseSkip → Option (ResponseSkip × List ℕ)
skip_byte b s =
    if s.state == 3
    then some (s, b ∷ [])
    else if s.state == 0
    then (if b == 0 then some (record s { state = 1 }, []) else none)
    else if s.state == 1
    then some (record { state = if b == 0 then 3 else 2; skip = b }, [])
    else some (record { state = if s.skip - 1 == 0 then 3 else s.state; skip = s.skip - 1 }, [])

abbrev pub before : List ℕ → Option (ResponseSkip × List ℕ) → Option (ResponseSkip × List ℕ)
before out none = none
before out (some (s, more)) = some (s, out ++ more)

unfoldable pub skip_run : List ℕ → ResponseSkip → Option (ResponseSkip × List ℕ)
skip_run [] s = some (s, [])
skip_run (b ∷ bytes) s = elim (skip_byte b s) [
  | none ↦ none
  | some (t, out) ↦ before out (skip_run bytes t)
]

-- Inside the additions some of them are left.
abbrev pub Counts : ResponseSkip → Type 0
Counts s = (s.state ≡ 0) ⊎ ((s.state ≡ 1) ⊎ (((s.state ≡ 2) × (0 < s.skip)) ⊎ (s.state ≡ 3)))

pub before_twice :
    (a b : List ℕ) (r : Option (ResponseSkip × List ℕ)) → before a (before b r) ≡ before (a ++ b) r
before_twice a b none = refl
before_twice a b (some (s, out)) = ap (λ (o : List ℕ). some (s, o)) (sym (append_assoc a b out))

pub skip_run-step :
    (b : ℕ) (bytes : List ℕ) (s t : ResponseSkip) (out : List ℕ)
    → skip_byte b s ≡ some (t, out)
    → skip_run (b ∷ bytes) s ≡ before out (skip_run bytes t)
unfolding skip_run
skip_run-step b bytes s t out e = rw (skip_run, e) refl

pub before_nil : (r : Option (ResponseSkip × List ℕ)) → before [] r ≡ r
before_nil none = refl
before_nil (some (s, out)) = refl

-- Behind the header everything is put out.
pub skip_done :
    (bytes : List ℕ) (s : ResponseSkip) → s.state ≡ 3 → skip_run bytes s ≡ some (s, bytes)
unfolding skip_run skip_byte
skip_done [] s h = refl
skip_done (b ∷ bytes) s h =
    let t : (s.state == 3) ≡ true = ground arith in
    let here : skip_byte b s ≡ some (s, b ∷ []) = rw (skip_byte, t) refl in
    skip_run-step b bytes s s (b ∷ []) here ∙ ap (before (b ∷ [])) (skip_done bytes s h)

skip_addition :
    (b : ℕ) (bytes : List ℕ) (s : ResponseSkip)
    → s.state ≡ 2
    → skip_run (b ∷ bytes) s
      ≡ skip_run bytes
          (record { state = if s.skip - 1 == 0 then 3 else s.state; skip = s.skip - 1 })
unfolding skip_byte
skip_addition b bytes s h =
    let t1 : (s.state == 3) ≡ false = ground arith in
    let t2 : (s.state == 0) ≡ false = ground arith in
    let t3 : (s.state == 1) ≡ false = ground arith in
    let v : ResponseSkip = record {
      state = if s.skip - 1 == 0 then 3 else s.state;
      skip = s.skip - 1;
    } in
    let here : skip_byte b s ≡ some (v, []) = rw (skip_byte, t1, t2, t3) refl in
    skip_run-step b bytes s v [] here ∙ before_nil (skip_run bytes v)

-- Additions are dropped as many at a time as there are.
pub skip_additions :
    (n : ℕ) (bytes : List ℕ) (s : ResponseSkip)
    → s.state ≡ 2
    → 0 < n
    → n ≤ s.skip
    → n ≤ length bytes
    → skip_run bytes s
      ≡ skip_run
          (drop n bytes)
          (record { state = if s.skip - n == 0 then 3 else s.state; skip = s.skip - n })
skip_additions zero bytes s h p m l = absurd (omega arith)
skip_additions (suc n) [] s h p m l = absurd (omega arith)
skip_additions (suc zero) (b ∷ bytes) s h p m l = skip_addition b bytes s h
skip_additions (suc (suc n)) (b ∷ bytes) s h p m l =
    let c : (s.skip - 1 == 0) ≡ false = ground arith in
    let of : Bool → ResponseSkip =
      λ z. record { state = if z then 3 else s.state; skip = s.skip - 1 } in
    let e : s.skip - 1 - suc n ≡ s.skip - suc (suc n) = omega arith in
    let ih = skip_additions (suc n) bytes (of false) h (omega arith) (omega arith) (omega arith) in
    skip_addition b bytes s h
    ∙ ap (λ z. skip_run bytes (of z)) c
    ∙ ih
    ∙ ap
        (λ k.
          skip_run (drop (suc n) bytes)
            (record { state = if k == 0 then 3 else s.state; skip = k }))
        e

-- What a call of `consume` leaves of the bytes.
abbrev pub behind_header : List ℕ → Option (ℕ × ResponseSkip) → Option (ResponseSkip × List ℕ)
behind_header bytes none = none
behind_header bytes (some (used, s)) = some (s, drop used bytes)

behind_header-plus :
    (n : ℕ) (bytes : List ℕ) (r : Option (ℕ × ResponseSkip))
    → behind_header bytes (plus n r) ≡ behind_header (drop n bytes) r
behind_header-plus n bytes none = refl
behind_header-plus n bytes (some (used, s)) =
    ap (λ (o : List ℕ). some (s, o)) (sym (drop-drop bytes n used))

pub consume_loop-run :
    (fuel : ℕ) (bytes : List ℕ) (s : ResponseSkip)
    → Counts s
    → length bytes ≤ fuel
    → skip_run bytes s ≡ behind_header bytes (consume_loop fuel bytes s)
unfolding consume_loop skip_run skip_byte
consume_loop-run zero [] s c h = refl
consume_loop-run zero (b ∷ bytes) s c h = absurd (omega arith)
consume_loop-run (suc fuel) [] s c h = refl
consume_loop-run (suc fuel) (b ∷ bytes) s (inl c) h =
    let t1 : (s.state == 3) ≡ false = ground arith in
    let t2 : (s.state == 0) ≡ true = ground arith in
    let v : ResponseSkip = record s { state = 1 } in
    let ih = consume_loop-run fuel bytes v (inr (inl refl)) (omega arith) in
    elim (Bool-cases (b == 0)) [
      | inl y ↦
          (let here : skip_byte b s ≡ some (v, []) = rw (skip_byte, t1, t2, y) refl in
            rw (consume_loop, t1, t2, y)
              (skip_run-step b bytes s v [] here
                ∙ before_nil (skip_run bytes v)
                ∙ ih
                ∙ sym (behind_header-plus 1 (b ∷ bytes) (consume_loop fuel bytes v))))
      | inr y ↦ rw (skip_run, skip_byte, consume_loop, t1, t2, y) refl
    ]
consume_loop-run (suc fuel) (b ∷ bytes) s (inr (inl c)) h =
    let t1 : (s.state == 3) ≡ false = ground arith in
    let t2 : (s.state == 0) ≡ false = ground arith in
    let t3 : (s.state == 1) ≡ true = ground arith in
    let v : ResponseSkip = record { state = if b == 0 then 3 else 2; skip = b } in
    let counts : Counts v =
      if_intro (λ k. Counts (record { state = k; skip = b })) (b == 0) _ _
        (λ t. inr (inr (inr refl))) (λ t. inr (inr (inl (refl, ground arith)))) in
    let ih = consume_loop-run fuel bytes v counts (omega arith) in
    let here : skip_byte b s ≡ some (v, []) = rw (skip_byte, t1, t2, t3) refl in
    rw (consume_loop, t1, t2, t3)
      (skip_run-step b bytes s v [] here
        ∙ before_nil (skip_run bytes v)
        ∙ ih
        ∙ sym (behind_header-plus 1 (b ∷ bytes) (consume_loop fuel bytes v)))
consume_loop-run (suc fuel) (b ∷ bytes) s (inr (inr (inl (c, p)))) h =
    let t1 : (s.state == 3) ≡ false = ground arith in
    let t2 : (s.state == 0) ≡ false = ground arith in
    let t3 : (s.state == 1) ≡ false = ground arith in
    let all : List ℕ = b ∷ bytes in
    let n = min s.skip (length all) in
    let v : ResponseSkip = record {
      state = if s.skip - n == 0 then 3 else s.state;
      skip = s.skip - n;
    } in
    let counts : Counts v =
      if_intro (λ k. Counts (record { state = k; skip = s.skip - n })) (s.skip - n == 0) _ _
        (λ t. inr (inr (inr refl))) (λ t. inr (inr (inl (c, ground arith)))) in
    let d = length-drop n all in
    let ih = consume_loop-run fuel (drop n all) v counts (omega arith) in
    rw (consume_loop, t1, t2, t3)
      (skip_additions n all s c (omega arith) (omega arith) (omega arith)
        ∙ ih
        ∙ sym (behind_header-plus n all (consume_loop fuel (drop n all) v)))
consume_loop-run (suc fuel) (b ∷ bytes) s (inr (inr (inr c))) h =
    let t1 : (s.state == 3) ≡ true = ground arith in
    rw (consume_loop, t1) (skip_done (b ∷ bytes) s c)
