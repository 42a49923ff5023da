-- ===== src/Dns/Wire/Queries.antt =====
-- engine/src/dns.rs: a query that was encoded is read back.
use aurora_vpn.Prelude.{
  ℕ, ◌+◌, ◌/◌, ◌%◌, ◌^◌, ◌≤◌, ◌<◌, min, ◌≡◌, refl, sym, ap, ◌∙◌, some, List, [], ◌∷◌, ◌++◌,
  append_assoc, arith, length, get_elem?, take, length-append, nat_eq, list_eq, pair_eq, All, to_be,
  u16_be,
}
use aurora_vpn.Prelude.Slices.{get_elem?-append}
use aurora_vpn.Dns.Wire.{
  u16_at, labels, parse_question, trim_end, split_dots, write_labels, encode_query,
}
use aurora_vpn.Dns.Wire.Names.{IsLabel, joined, joined_split, labels-write_labels}

-- A name all of whose labels a query carries as they are, of at most 253 bytes.
abbrev pub IsName : (List ℕ → List ℕ) → List ℕ → Type 0
IsName lossy name =
    All (IsLabel lossy) (split_dots (trim_end name)) × (length (trim_end name) ≤ 253)

pub u16_at-append :
    (pre rest : List ℕ) (v : ℕ)
    → v < 65536
    → u16_at (pre ++ (to_be 2 v ++ rest)) (length pre) ≡ some v
u16_at-append pre rest v h =
    let hi = v / 256 ^ 1 % 256 in
    let lo = v / 256 ^ 0 % 256 in
    let e1 = get_elem?-append pre (lo ∷ rest) hi in
    let e2 = get_elem?-append (pre ++ (hi ∷ [])) rest lo in
    let at = length-append pre (hi ∷ []) in
    let at' : length (pre ++ (hi ∷ [])) ≡ length pre + 1 = omega arith in
    let shape = append_assoc pre (hi ∷ []) (lo ∷ rest) in
    let e3 : get_elem? (pre ++ (hi ∷ lo ∷ rest)) (length pre + 1) ≡ some lo =
      ap (λ p. get_elem? p (length pre + 1)) (sym shape)
      ∙ ap (λ i. get_elem? ((pre ++ (hi ∷ [])) ++ (lo ∷ rest)) i) (sym at')
      ∙ e2 in
    let back : u16_be hi lo ≡ v = omega (arith, h) in rw (e1, e3) (ap some back)

enough : (ls : List (List ℕ)) → length ls < length (write_labels ls)
enough [] = omega arith
enough (l ∷ ls) =
    let a = length-append (take (min (length l) 63) l) (write_labels ls) in
    let ih = enough ls in omega arith

-- If the labels of a name have 1 to 63 bytes each and 253 with their dots, and are in lower case and
-- UTF-8, the question of the query for it with a 16-bit type is read as the name without the dots at
-- its end, the type, and the length of the query.
pub parse_question-encode_query :
    (lossy : List ℕ → List ℕ) (name : List ℕ) (qtype id : ℕ)
    → IsName lossy name
    → qtype < 65536
    → parse_question lossy (encode_query name qtype id)
      ≡ some (trim_end name, qtype, length (encode_query name qtype id))
unfolding parse_question encode_query
parse_question-encode_query lossy name qtype id h hq =
    let t = trim_end name in
    let ls = split_dots t in
    let head = to_be 2 id ++ (1 ∷ 0 ∷ 0 ∷ 1 ∷ 0 ∷ 0 ∷ 0 ∷ 0 ∷ 0 ∷ 0 ∷ []) in
    let w = write_labels ls in
    let tail = to_be 2 qtype ++ (0 ∷ 1 ∷ []) in
    let whole = head ++ (w ++ tail) in
    let name_back = joined_split t h.0.0.0 in
    let sized = enough ls in
    let l1 = length-append head (w ++ tail) in
    let l2 = length-append w tail in
    let read : labels lossy (length whole) whole 12 [] ≡ some (joined [] ls, 12 + length w) =
      labels-write_labels lossy (length whole) ls head tail [] (omega arith) h.0
        (rw name_back (h.1)) in
    let shape = append_assoc head w tail in
    let l3 = length-append head w in
    let l4 : length (head ++ w) ≡ 12 + length w = omega arith in
    let kind : u16_at whole (12 + length w) ≡ some qtype =
      ap (λ p. u16_at p (12 + length w)) (sym shape)
      ∙ ap (λ i. u16_at ((head ++ w) ++ tail) i) (sym l4)
      ∙ u16_at-append (head ++ w) (0 ∷ 1 ∷ []) qtype hq in
    let end : 12 + length w + 4 ≡ length whole = omega arith in rw (read, kind, name_back, end) refl
