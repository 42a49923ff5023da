-- ===== src/Veil/Coalesce/Order.antt =====
-- veil/src/coalesce.rs: nothing is lost, repeated or reordered, and the buffer stays within a record.
use aurora_vpn.Prelude.{
  ℕ, zero, suc, ◌+◌, ◌-◌, ◌≤◌, ◌<◌, min, ◌≡◌, refl, sym, ap, ◌∙◌, ◌⊎◌, inl, inr, false, List, [],
  ◌∷◌, ◌++◌, append_assoc, arith, ltb, leb, ◌==◌, if◌then◌else◌, Bool-cases, length, take, drop,
  length-append, length-take, length-drop, nat_eq, list_eq, pair_eq, if_intro,
}
use aurora_vpn.Veil.Coalesce.{
  limit, Answer, pending, broken, took, Poll, not_ready, failed, ready, Coalesce, new, offered,
  accept, drain, fill, gather, write_vectored, write,
}

-- All that was written and is not lost: what went out, and what waits behind `pos`.
abbrev pub written : Coalesce → List ℕ
written c = c.sent ++ drop c.pos c.buf

-- The place and the size of the buffer.
pub record IsValid (c : Coalesce) : Type 0 where
  pub inside : c.pos ≤ length c.buf
  pub small : length c.buf ≤ limit

pub new-IsValid : IsValid new
unfolding new
new-IsValid = record { inside = omega arith; small = omega arith }

length-offered : (c : Coalesce) → length (offered c) ≤ length c.buf - c.pos
length-offered c =
    let a =
      length-take ((if ltb c.pos c.cut then c.cut else length c.buf) - c.pos) (drop c.pos c.buf) in
    let b = length-drop c.pos c.buf in omega arith

take-take :
    (n k : ℕ) (xs : List ℕ) → take n (take k xs) ++ drop (min n (length (take k xs))) xs ≡ xs
take-take zero k xs = let e : min 0 (length (take k xs)) ≡ 0 = omega arith in rw e refl
take-take (suc n) zero xs = let e : min (suc n) 0 ≡ 0 = omega arith in rw e refl
take-take (suc n) (suc k) [] = let e : min (suc n) 0 ≡ 0 = omega arith in rw e refl
take-take (suc n) (suc k) (x ∷ xs) =
    let e : min (suc n) (suc (length (take k xs))) ≡ suc (min n (length (take k xs))) =
      omega arith in
    rw e (ap (λ r. x ∷ r) (take-take n k xs))

drop-drop : (i j : ℕ) (xs : List ℕ) → drop (i + j) xs ≡ drop j (drop i xs)
drop-drop zero j xs = let e : 0 + j ≡ j = omega arith in rw e refl
drop-drop (suc i) zero [] = let e : suc i + 0 ≡ suc i = omega arith in rw e refl
drop-drop (suc i) (suc j) [] = let e : suc i + suc j ≡ suc (suc i + j) = omega arith in rw e refl
drop-drop (suc i) j (x ∷ xs) =
    let e : suc i + j ≡ suc (i + j) = omega arith in rw e (drop-drop i j xs)

accept-written : (n : ℕ) (c : Coalesce) → written (accept n c) ≡ written c
accept-written n c =
    let k = (if ltb c.pos c.cut then c.cut else length c.buf) - c.pos in
    append_assoc c.sent (take n (offered c)) (drop (c.pos + min n (length (offered c))) c.buf)
    ∙ ap (λ r. c.sent ++ r)
        (ap (λ r. take n (offered c) ++ r) (drop-drop c.pos (min n (length (offered c))) c.buf)
          ∙ take-take n k (drop c.pos c.buf))

accept-IsValid : (n : ℕ) (c : Coalesce) → IsValid c → IsValid (accept n c)
accept-IsValid n c v = record {
  inside = (let h = length-offered c in let i = v.inside in omega arith);
  small = v.small;
}

drop-length : (xs : List ℕ) (n : ℕ) → length xs ≤ n → drop n xs ≡ []
drop-length [] zero h = refl
drop-length [] (suc n) h = refl
drop-length (x ∷ xs) zero h = absurd (omega arith)
drop-length (x ∷ xs) (suc n) h = drop-length xs n (omega arith)

abbrev IsKept : Coalesce → Coalesce × Poll → Type 0
IsKept c r = IsValid r.0 × (written r.0 ≡ written c)

emptied :
    (c : Coalesce)
    → IsValid c
    → ltb c.pos (length c.buf) ≡ false
    → IsKept c (record c { buf = []; pos = 0; cut = 0 }, ready 0)
emptied c v h = (
  record { inside = omega arith; small = omega arith },
  ap (λ r. c.sent ++ r) (sym (drop-length c.buf c.pos (ground arith))),
)

-- Draining loses and reorders nothing, whatever the stream below answers: what went out and what
-- waits, put together, stay the same.
pub drain-written :
    (polls : List Answer) (c : Coalesce)
    → IsValid c
    → IsValid (drain polls c).0 × (written (drain polls c).0 ≡ written c)
unfolding drain
drain-written [] c v =
    if_intro {A = Coalesce × Poll} (IsKept c) (ltb c.pos (length c.buf)) (c, not_ready)
      (record c { buf = []; pos = 0; cut = 0 }, ready 0) (λ _. (v, refl)) (λ h. emptied c v h)
drain-written (pending ∷ polls) c v =
    if_intro {A = Coalesce × Poll} (IsKept c) (ltb c.pos (length c.buf)) (c, not_ready)
      (record c { buf = []; pos = 0; cut = 0 }, ready 0) (λ _. (v, refl)) (λ h. emptied c v h)
drain-written (broken ∷ polls) c v =
    if_intro {A = Coalesce × Poll} (IsKept c) (ltb c.pos (length c.buf)) (c, failed)
      (record c { buf = []; pos = 0; cut = 0 }, ready 0) (λ _. (v, refl)) (λ h. emptied c v h)
drain-written (took n ∷ polls) c v =
    let later = drain-written polls (accept n c) (accept-IsValid n c v) in
    if_intro {A = Coalesce × Poll} (IsKept c) (ltb c.pos (length c.buf))
      (if n == 0 then (c, failed) else drain polls (accept n c))
      (record c { buf = []; pos = 0; cut = 0 }, ready 0)
      (λ _.
        if_intro {A = Coalesce × Poll} (IsKept c) (n == 0) (c, failed) (drain polls (accept n c))
          (λ _. (v, refl)) (λ _. (later.0, later.1 ∙ accept-written n c)))
      (λ h. emptied c v h)

drop-append : (n : ℕ) (xs ys : List ℕ) → n ≤ length xs → drop n (xs ++ ys) ≡ drop n xs ++ ys
drop-append zero xs ys h = refl
drop-append (suc n) [] ys h = absurd (omega arith)
drop-append (suc n) (x ∷ xs) ys h = drop-append n xs ys (omega arith)

-- What became of a write of `bytes` that is answered with a number: so many were taken, some unless
-- there were none, in order, behind what was written before.
pub record IsTaken (c : Coalesce) (bytes : List ℕ) (r : Coalesce × Poll) : Type 0 where
  pub n : ℕ
  pub answer : r.1 ≡ ready n
  pub fits : n ≤ length bytes
  pub progress : 0 < length bytes → 0 < n
  pub order : written r.0 ≡ written c ++ take n bytes
  pub valid : IsValid r.0

gather-IsTaken :
    (bytes : List ℕ) (c : Coalesce)
    → IsValid c
    → length c.buf < limit
    → IsTaken c bytes (gather (bytes ∷ []) c)
unfolding gather fill
gather-IsTaken bytes c v room =
    let n = min (length bytes) (limit - length c.buf) in
    let more : Coalesce × Poll = (record c { buf = c.buf ++ take n bytes }, ready (0 + n)) in
    let z : 0 + n ≡ n = omega arith in
    let order = append_assoc c.sent (drop c.pos c.buf) (take n bytes) in
    let good : IsTaken c bytes more = record {
      n = n;
      answer = ap ready z;
      fits = omega arith;
      progress = λ h. omega arith;
      order = ap (λ r. c.sent ++ r) (drop-append c.pos c.buf (take n bytes) v.inside) ∙ sym order;
      valid =
          (let l = length-append c.buf (take n bytes) in
            let k = length-take n bytes in
            let i = v.inside in
            let s = v.small in record { inside = omega arith; small = omega arith });
    } in
    let some_room : (limit - length c.buf == 0) ≡ false = ground arith in
    elim (Bool-cases (ltb n (length bytes))) [
      | inl f ↦ rw (gather, fill, some_room, f) good
      | inr f ↦ rw (gather, fill, some_room, f) good
    ]

after :
    (c c' : Coalesce) (bytes : List ℕ) (r : Coalesce × Poll)
    → written c' ≡ written c
    → IsTaken c' bytes r
    → IsTaken c bytes r
after c c' bytes r e t = record {
  n = t.n;
  answer = t.answer;
  fits = t.fits;
  progress = t.progress;
  order = t.order ∙ ap (λ x. x ++ take t.n bytes) e;
  valid = t.valid;
}

-- A drain that is done leaves the buffer empty.
abbrev Empties : Coalesce × Poll → Type 0
Empties (c, ready n) = length c.buf ≡ 0
Empties (c, not_ready) = 0 < 1
Empties (c, failed) = 0 < 1

drain-Empties : (polls : List Answer) (c : Coalesce) → Empties (drain polls c)
unfolding drain
drain-Empties [] c =
    if_intro {A = Coalesce × Poll} Empties (ltb c.pos (length c.buf)) _ _ (λ h. omega arith)
      (λ h. refl)
drain-Empties (pending ∷ polls) c =
    if_intro {A = Coalesce × Poll} Empties (ltb c.pos (length c.buf)) _ _ (λ h. omega arith)
      (λ h. refl)
drain-Empties (broken ∷ polls) c =
    if_intro {A = Coalesce × Poll} Empties (ltb c.pos (length c.buf)) _ _ (λ h. omega arith)
      (λ h. refl)
drain-Empties (took n ∷ polls) c =
    let later = drain-Empties polls (accept n c) in
    if_intro {A = Coalesce × Poll} Empties (ltb c.pos (length c.buf)) _ _
      (λ h. if_intro {A = Coalesce × Poll} Empties (n == 0) _ _ (λ z. omega arith) (λ z. later))
      (λ h. refl)

-- What became of a write that is not ready or has failed.
pub record IsRefused (c : Coalesce) (r : Coalesce × Poll) : Type 0 where
  pub answer : (r.1 ≡ not_ready) ⊎ (r.1 ≡ failed)
  pub order : written r.0 ≡ written c
  pub valid : IsValid r.0

-- From a valid state, and whatever the stream below answers, a write either is answered with a
-- number, which is at most the number of bytes it was given and not 0 unless that is, and puts so
-- many bytes from their front behind all that was written before, or it is not ready or fails and
-- leaves what was written as it was; the buffer stays within 16 KB in both cases.
pub write_lem :
    (polls : List Answer) (bytes : List ℕ) (c : Coalesce)
    → IsValid c
    → IsTaken c bytes (write polls bytes c) ⊎ IsRefused c (write polls bytes c)
unfolding write write_vectored
write_lem polls bytes c v =
    let d = drain-written polls c v in
    elim (Bool-cases (leb limit (length c.buf))) [
      | inr e ↦ rw (write, write_vectored, e) (inl (gather-IsTaken bytes c v (ground arith)))
      | inl e ↦
          rw (write, write_vectored, e)
            (by_poll (drain polls c).1 (drain polls c).0 d (drain-Empties polls c))
    ]
  where
    by_poll :
        (r : Poll) (c' : Coalesce)
        → IsValid c' × (written c' ≡ written c)
        → Empties (c', r)
        → let out : Coalesce × Poll = elim r [
          | ready n ↦ gather (bytes ∷ []) c'
          | not_ready ↦ (c', not_ready)
          | failed ↦ (c', failed)
        ] in
          IsTaken c bytes out ⊎ IsRefused c out
    by_poll (ready n) c' d empty =
        inl (
          after c c' bytes (gather (bytes ∷ []) c') d.1 (gather-IsTaken bytes c' d.0 (omega arith)))
    by_poll not_ready c' d empty = inr (record { answer = inl refl; order = d.1; valid = d.0 })
    by_poll failed c' d empty = inr (record { answer = inr refl; order = d.1; valid = d.0 })
