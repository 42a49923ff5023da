-- ===== src/Dns/Wire.antt =====
-- engine/src/dns.rs: the reading and the writing of messages. What `String::from_utf8_lossy` makes
-- of the bytes of a label is the standard library's, and a parameter.
pub mod Names
pub mod Queries
pub mod Records
pub mod Answers
use aurora_vpn.Prelude.{
  ℕ, zero, suc, ◌+◌, ◌-◌, ◌*◌, ◌/◌, ◌%◌, ◌^◌, ◌≤◌, ◌<◌, min, max, ◌≡◌, refl, sym, ap, ◌∙◌, ◌≢◌, ◌↔◌,
  ◌⊎◌, inl, inr, Bool, true, false, ◌&&◌, ◌||◌, not, Option, none, some, List, [], ◌∷◌, ◌++◌, map,
  append_assoc, append-nil, arith, ltb, leb, ◌==◌, if◌then◌else◌, ltb→lt, lt→ltb, leb→le, ==_iff,
  tests, Bool-cases, Option-cases, length, get_elem?, get_or, take, drop, replicate, length-append,
  length-take, length-drop, take-append-drop, length-map, length-replicate, Eq, ◌=?◌, =?_iff,
  nat_eq, list_beq, list_beq_iff, list_eq, pair_eq, is_some, get, remove, insert, get-remove,
  get-insert, All, IsByte, All-append, to_be, from_be, length-to_be, to_be-IsByte, byte_at,
  byte_at-IsByte, u16_be, slice?, put, length-put, ◌>>=◌, >>=-eq-some, if_intro, insert_by, sort_by,
  min_by, length-insert_by, length-sort_by,
}
use aurora_vpn.Net.{IpAddr, v4, v6, octets}
use aurora_vpn.Target.{to_lower}

abbrev pub qtype_a : ℕ
qtype_a = 1

abbrev pub qtype_aaaa : ℕ
qtype_aaaa = 28

abbrev pub u16_at : List ℕ → ℕ → Option ℕ
u16_at p i = get_elem? p i >>= (λ hi. get_elem? p (i + 1) >>= (λ lo. some (u16_be hi lo)))

-- `v = (v << 8) | b` over the bytes.
abbrev pub shift_in : ℕ → List ℕ → ℕ
shift_in v [] = v
shift_in v (b ∷ bs) = shift_in (v * 256 + b) bs

unfoldable pub quic_varint : List ℕ → Option (ℕ × ℕ)
quic_varint bytes = get_elem? bytes 0 >>= (λ first.
    slice? bytes 0 (2 ^ (first / 64))
    >>= (λ raw. some (shift_in (first % 64) (drop 1 raw), 2 ^ (first / 64))))

abbrev pub join : List ℕ → List ℕ → List ℕ
join [] label = label
join (c ∷ name) label = (c ∷ name) ++ (46 ∷ label)

module _ (lossy : List ℕ → List ℕ) where
  -- The loop of `parse_question` over the labels: the name and the place behind it.
  unfoldable pub labels : ℕ → List ℕ → ℕ → List ℕ → Option (List ℕ × ℕ)
  labels zero p i name = none
  labels (suc fuel) p i name = get_elem? p i >>= (λ len.
      if len == 0
      then some (name, i + 1)
      else if leb 64 len || ltb 253 (length name + len)
      then none
      else (slice? p (i + 1) len
          >>= (λ label. labels fuel p (i + 1 + len) (join name (to_lower (lossy label))))))

  -- The name in lower case, the type and the end of the question. Each label takes a byte at
  -- least, so the length of the packet is fuel enough.
  unfoldable pub parse_question : List ℕ → Option (List ℕ × ℕ × ℕ)
  unfolding labels
  parse_question p =
      labels (length p) p 12 [] >>= (λ r. u16_at p r.1 >>= (λ qtype. some (r.0, qtype, r.1 + 4)))

  unfoldable pub question_name : List ℕ → Option (List ℕ)
  unfolding parse_question
  question_name p = parse_question p >>= (λ q. some q.0)

-- The reply code is at most 5. `0x81 | (query[2] & 0x01)` is 0x81 for both values of the bit.
unfoldable pub empty_reply : List ℕ → ℕ → ℕ → List ℕ
empty_reply query end rcode =
    let out = take (min end (length query)) query in
    if leb 12 (length out)
    then put (put (put out 2 (129 ∷ [])) 3 ((128 + rcode) ∷ [])) 6 (replicate 6 0)
    else out

-- The record that answers with an address; the name is a pointer to the question.
abbrev pub answer_record : IpAddr → ℕ → List ℕ
answer_record (v4 a) ttl =
    192 ∷ 12 ∷ (to_be 2 qtype_a ++ (0 ∷ 1 ∷ (to_be 4 ttl ++ (0 ∷ 4 ∷ octets (v4 a)))))
answer_record (v6 a) ttl =
    192 ∷ 12 ∷ (to_be 2 qtype_aaaa ++ (0 ∷ 1 ∷ (to_be 4 ttl ++ (0 ∷ 16 ∷ octets (v6 a)))))

unfoldable pub answer_with_ip : List ℕ → ℕ → IpAddr → ℕ → List ℕ
unfolding empty_reply
answer_with_ip query end ip ttl =
    let out = empty_reply query end 0 in
    if ltb (length out) 12 then out else put out 7 (1 ∷ []) ++ answer_record ip ttl

-- Each round moves on by a byte at least.
unfoldable pub skip_loop : ℕ → List ℕ → ℕ → Option ℕ
skip_loop zero p i = none
skip_loop (suc fuel) p i = get_elem? p i >>= (λ len.
    if len == 0
    then some (i + 1)
    else if leb 192 len
    then some (i + 2)
    else skip_loop fuel p (i + (1 + len)))

unfoldable pub skip_name : List ℕ → ℕ → Option ℕ
unfolding skip_loop
skip_name p i = skip_loop (length p) p i

unfoldable pub skip_questions : ℕ → List ℕ → ℕ → Option ℕ
unfolding skip_name
skip_questions zero p i = some i
skip_questions (suc n) p i = skip_name p i >>= (λ j. skip_questions n p (j + 4))

-- The address of a record, if it has one.
abbrev pub address : ℕ → List ℕ → Option IpAddr
address kind bytes =
    if kind == qtype_a && length bytes == 4
    then some (v4 (from_be bytes))
    else if kind == qtype_aaaa && length bytes == 16
    then some (v6 (from_be bytes))
    else none

unfoldable pub read_answers : ℕ → List ℕ → ℕ → List IpAddr → ℕ → Option (List IpAddr × ℕ)
unfolding skip_name
read_answers zero p i ips ttl = some (ips, ttl)
read_answers (suc n) p i ips ttl = skip_name p i >>= (λ j. u16_at p j >>= (λ kind.
    slice? p (j + 4) 4 >>= (λ t. u16_at p (j + 8) >>= (λ len. slice? p (j + 10) len >>= (λ bytes.
      elim (address kind bytes) [
        | none ↦ read_answers n p (j + (10 + len)) ips ttl
        | some a ↦ read_answers n p (j + (10 + len)) (ips ++ (a ∷ [])) (min ttl (from_be t))
      ])))))

unfoldable pub parse_answers : List ℕ → Option (List IpAddr × ℕ)
unfolding skip_questions read_answers
parse_answers p = u16_at p 4 >>= (λ qd.
    u16_at p 6 >>= (λ an. skip_questions qd p 12 >>= (λ i. read_answers an p i [] (2 ^ 32 - 1))))

-- `trim_end_matches('.')`
abbrev pub is_nil : List ℕ → Bool
is_nil [] = true
is_nil (x ∷ xs) = false

abbrev pub trim_end : List ℕ → List ℕ
trim_end [] = []
trim_end (c ∷ t) = let rest = trim_end t in if c == 46 && is_nil rest then [] else c ∷ rest

-- `split('.')`, which has one part at least.
abbrev pub before_dot : List ℕ → List ℕ
before_dot [] = []
before_dot (c ∷ t) = let rest = before_dot t in if c == 46 then [] else c ∷ rest

abbrev pub behind_dots : List ℕ → List (List ℕ)
behind_dots [] = []
behind_dots (c ∷ t) = let rest = behind_dots t in if c == 46 then before_dot t ∷ rest else rest

abbrev pub split_dots : List ℕ → List (List ℕ)
split_dots t = before_dot t ∷ behind_dots t

-- `label.as_bytes()[..label.len().min(63)]` behind its length.
abbrev pub write_labels : List (List ℕ) → List ℕ
write_labels [] = 0 ∷ []
write_labels (l ∷ ls) = min (length l) 63 ∷ (take (min (length l) 63) l ++ write_labels ls)

unfoldable pub encode_query : List ℕ → ℕ → ℕ → List ℕ
encode_query name qtype id =
    to_be 2 id
    ++ (1 ∷ 0 ∷ 0 ∷ 1 ∷ 0 ∷ 0 ∷ 0 ∷ 0 ∷ 0 ∷ 0 ∷ [])
    ++ (write_labels (split_dots (trim_end name)) ++ (to_be 2 qtype ++ (0 ∷ 1 ∷ [])))
