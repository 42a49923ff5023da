-- ===== src/Dns/Wire/Answers.antt =====
-- engine/src/dns.rs: the answer that is written is read back.
use aurora_vpn.Prelude.{
  ℕ, zero, suc, ◌+◌, ◌-◌, ◌^◌, ◌≤◌, ◌<◌, min, ◌≡◌, refl, ap, ◌∙◌, ◌⊎◌, inl, inr, true, false, none,
  some, List, [], ◌∷◌, ◌++◌, arith, ltb, leb, Bool-cases, length, get_elem?, take, replicate,
  length-append, length-take, nat_eq, list_eq, pair_eq, put, length-put, >>=-eq-some,
}
use aurora_vpn.Prelude.Slices.{from_be_back}
use aurora_vpn.Net.{IpAddr, v4, v6, IsIp, octets}
use aurora_vpn.Dns.Wire.{
  u16_at, labels, parse_question, empty_reply, answer_record, answer_with_ip, skip_name,
  skip_questions, read_answers, parse_answers, qtype_a,
}
use aurora_vpn.Prelude.Put.{get_elem?-put_after, get_elem?-put_before, get_elem?-put_at}
use aurora_vpn.Dns.Wire.Records.{labels_forward, skip_loop-labels, read_record}

get_elem?-take : (p : List ℕ) (n i : ℕ) → i < n → get_elem? (take n p) i ≡ get_elem? p i
get_elem?-take p zero i h = absurd (omega arith)
get_elem?-take [] (suc n) i h = refl
get_elem?-take (x ∷ p) (suc n) zero h = refl
get_elem?-take (x ∷ p) (suc n) (suc i) h = get_elem?-take p n i (omega arith)

-- The reply up to its record: the query's header with five fields changed, and its question.
module _ (query : List ℕ) (end : ℕ) where
  abbrev header : List ℕ
  header = put (put (take end query) 2 (129 ∷ [])) 3 (128 ∷ [])

  abbrev front : List ℕ
  front = put (put header 6 (replicate 6 0)) 7 (1 ∷ [])

module _ (query : List ℕ) (end : ℕ) (long : 12 < end) (fits : end ≤ length query) where
  length-header : length (header query end) ≡ end
  length-header =
      let t = take end query in
      let l = length-take end query in
      let a = length-put t 2 (129 ∷ []) in
      let b = length-put (put t 2 (129 ∷ [])) 3 (128 ∷ []) in omega arith

  length-front : length (front query end) ≡ end
  length-front =
      let h = header query end in
      let l = length-header in
      let a = length-put h 6 (replicate 6 0) in
      let b = length-put (put h 6 (replicate 6 0)) 7 (1 ∷ []) in omega arith

  answer_with_ip-front :
      (ip : IpAddr) (ttl : ℕ)
      → answer_with_ip query end ip ttl ≡ front query end ++ answer_record ip ttl
  unfolding answer_with_ip empty_reply
  answer_with_ip-front ip ttl =
      let m : min end (length query) ≡ end = omega arith in
      let l = length-take end query in
      let lh = length-header in
      let a = length-put (header query end) 6 (replicate 6 0) in
      let e1 : leb 12 (length (take end query)) ≡ true = ground arith in
      let e2 : ltb (length (put (header query end) 6 (replicate 6 0))) 12 ≡ false = ground arith in
      rw (m, e1, e2) refl

  -- The bytes of the question, and those of the counts.
  front_same :
      (k : ℕ)
      → (k ≡ 4) ⊎ (k ≡ 5) ⊎ (12 ≤ k)
      → k < end
      → get_elem? (front query end) k ≡ get_elem? query k
  front_same k h1 h2 =
      let t = take end query in
      let h = header query end in
      let z : List ℕ = replicate 6 0 in
      let s = get_elem?-take query end k h2 in
      let s2 = get_elem?-put_after t k 2 (129 ∷ []) (ground arith) in
      let s3 = get_elem?-put_after (put t 2 (129 ∷ [])) k 3 (128 ∷ []) (ground arith) in
      elim (Bool-cases (ltb k 6)) [
        | inl e ↦
            (let s6 = get_elem?-put_before h k 6 z (ground arith) in
              let s7 = get_elem?-put_before (put h 6 z) k 7 (1 ∷ []) (ground arith) in
              s7 ∙ (s6 ∙ (s3 ∙ (s2 ∙ s))))
        | inr e ↦
            (let s6 = get_elem?-put_after h k 6 z (ground arith) in
              let s7 = get_elem?-put_after (put h 6 z) k 7 (1 ∷ []) (ground arith) in
              s7 ∙ (s6 ∙ (s3 ∙ (s2 ∙ s))))
      ]

  front_answers : u16_at (front query end) 6 ≡ some 1
  front_answers =
      let h = header query end in
      let z : List ℕ = replicate 6 0 in
      let lh = length-header in
      let a = length-put h 6 z in
      let e6 =
        get_elem?-put_before (put h 6 z) 6 7 (1 ∷ []) (omega arith)
        ∙ get_elem?-put_at h 6 0 (replicate 5 0) (omega arith) in
      let e7 = get_elem?-put_at (put h 6 z) 7 1 [] (omega arith) in rw (e6, e7) refl

get_elem?-left : (p rest : List ℕ) (i : ℕ) → i < length p → get_elem? (p ++ rest) i ≡ get_elem? p i
get_elem?-left [] rest i h = absurd (omega arith)
get_elem?-left (x ∷ p) rest zero h = refl
get_elem?-left (x ∷ p) rest (suc i) h = get_elem?-left p rest i (omega arith)

read_answer :
    (pre : List ℕ) (ip : IpAddr) (ttl : ℕ)
    → IsIp ip
    → ttl < 2 ^ 32
    → read_answers 1 (pre ++ answer_record ip ttl) (length pre) [] (2 ^ 32 - 1)
      ≡ some (ip ∷ [], ttl)
read_answer pre (v4 a) ttl h ht =
    read_record pre (octets (v4 a)) qtype_a ttl (v4 a) (omega arith) (omega arith) ht
      (ap (λ x. some (v4 x)) (from_be_back 4 a h))
read_answer pre (v6 a) ttl h ht =
    read_record pre (octets (v6 a)) 28 ttl (v6 a) (omega arith) (omega arith) ht
      (ap (λ x. some (v6 x)) (from_be_back 16 a h))

-- If the question of a query that counts one question is read with its end inside the query, the
-- answer that is made of the query with an address of its family's width and a 32-bit time to live
-- is read as this address and this time.
pub parse_answers-answer_with_ip :
    (lossy : List ℕ → List ℕ) (query name : List ℕ) (qtype end : ℕ) (ip : IpAddr) (ttl : ℕ)
    → parse_question lossy query ≡ some (name, qtype, end)
    → u16_at query 4 ≡ some 1
    → end ≤ length query
    → IsIp ip
    → ttl < 2 ^ 32
    → parse_answers (answer_with_ip query end ip ttl) ≡ some (ip ∷ [], ttl)
unfolding parse_question parse_answers skip_questions skip_name
parse_answers-answer_with_ip lossy query name qtype end ip ttl hq one fits hi ht =
    let ((nm, j), read, e1) = >>=-eq-some (labels lossy (length query) query 12 []) _ hq in
    let (q, kind, e2) = >>=-eq-some (u16_at query j) _ e1 in
    let here : j + 4 ≡ end = ap (λ o. elim o [ none ↦ 0 | some r ↦ r.2 ]) e2 in
    let ahead = labels_forward lossy (length query) query 12 [] nm j read in
    let long : 12 < end = omega arith in
    let f = front query end in
    let r = answer_record ip ttl in
    let shape = answer_with_ip-front query end long fits ip ttl in
    let lf = length-front query end long fits in
    let la = length-append f r in
    let same : (k : ℕ)
        → (k ≡ 4) ⊎ (k ≡ 5) ⊎ (12 ≤ k)
        → k < end
        → get_elem? (f ++ r) k ≡ get_elem? query k =
      λ k c h. get_elem?-left f r k (omega arith) ∙ front_same query end long fits k c h in
    let q4 : u16_at (f ++ r) 4 ≡ some 1 =
      rw (same 4 (inl refl) (omega arith), same 5 (inr (inl refl)) (omega arith)) one in
    let g6 = get_elem?-left f r 6 (omega arith) in
    let g7 = get_elem?-left f r 7 (omega arith) in
    let q6 : u16_at (f ++ r) 6 ≡ some 1 = rw (g6, g7) (front_answers query end long fits) in
    let skipped : skip_name (f ++ r) 12 ≡ some j =
      skip_loop-labels lossy (length query) query (f ++ r) 12 [] nm j (length (f ++ r)) read
        (λ k h1 h2. same k (inr (inr h1)) (omega arith)) (omega arith) (omega arith) in
    let at : length f ≡ j + 4 = omega arith in
    let last = rw at at (read_answer f ip ttl hi ht) in
    ap parse_answers shape ∙ rw (parse_answers, q4, q6, skip_questions, skipped) last
