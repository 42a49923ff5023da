-- ===== src/Tun/Packet/Rewrite.antt =====
-- `rewrite_tcp` on a parsed segment never leaves the buffer; its result written out.
use aurora_vpn.Prelude.{
  ℕ, zero, suc, ◌+◌, ◌-◌, ◌≤◌, ◌<◌, ◌≡◌, ◌∙◌, refl, Bool, true, false, some, List, [], ◌∷◌, arith,
  length, get_elem?, byte_at, u16_be, to_be, take, drop, slice?, put, put?, length-put,
}
use aurora_vpn.Tun.Packet.{rewrite, fix_header, word_at, sum_words, adjust, add32}

pub get_elem?-byte_at : (p : List ℕ) (i : ℕ) → i < length p → get_elem? p i ≡ some (byte_at p i)
get_elem?-byte_at [] i h = absurd (omega arith)
get_elem?-byte_at (x ∷ p) zero h = refl
get_elem?-byte_at (x ∷ p) (suc i) h = get_elem?-byte_at p i (omega arith)

abbrev pub word : List ℕ → ℕ → ℕ
word p i = u16_be (byte_at p i) (byte_at p (i + 1))

word_at-some : (p : List ℕ) (i : ℕ) → i + 2 ≤ length p → word_at p i ≡ some (word p i)
unfolding word_at
word_at-some p i h =
    rw (get_elem?-byte_at p i (omega arith), get_elem?-byte_at p (i + 1) (omega arith))

put?-some :
    (p : List ℕ) (i : ℕ) (bs : List ℕ) → i + length bs ≤ length p → put? p i bs ≡ some (put p i bs)
put?-some p i bs h = ground arith

slice?-some : (p : List ℕ) (i n : ℕ) → i + n ≤ length p → slice? p i n ≡ some (take n (drop i p))
slice?-some p i n h = ground arith

-- The packet after the correction of the header checksum.
abbrev pub header_fixed : Bool → List ℕ → ℕ → ℕ → List ℕ
header_fixed false p old new = p
header_fixed true p old new = put p 10 (to_be 2 (adjust (word p 10) old new))

fix_header-some :
    (is4 : Bool) (p : List ℕ) (old new : ℕ)
    → 20 ≤ length p
    → fix_header is4 p old new ≡ some (header_fixed is4 p old new)
unfolding fix_header
fix_header-some false p old new h = refl
fix_header-some true p old new h =
    rw (word_at-some p 10 (omega arith))
      (put?-some p 10 (to_be 2 (adjust (word p 10) old new)) (omega arith))

pub length-header_fixed :
    (is4 : Bool) (p : List ℕ) (old new : ℕ) → length (header_fixed is4 p old new) ≡ length p
length-header_fixed false p old new = refl
length-header_fixed true p old new = length-put p 10 (to_be 2 (adjust (word p 10) old new))

-- The steps of `rewrite`, for a family whose addresses stand at `at_src` and `at_dst`.
module _ (is4 : Bool) (at_src at_dst len : ℕ) (p : List ℕ) (l4 : ℕ) (src : List ℕ) (sport : ℕ)
    (dst : List ℕ) (dport : ℕ) where
  abbrev pub old_sum : ℕ
  old_sum = sum_words (take (at_dst + len - at_src) (drop at_src p)) 0

  abbrev pub new_sum : ℕ
  new_sum = sum_words dst (sum_words src 0)

  abbrev pub step_header : List ℕ
  step_header = header_fixed is4 p old_sum new_sum

  abbrev pub new_check : ℕ
  new_check =
      adjust (word step_header (l4 + 16))
        (add32 old_sum (sum_words (take 4 (drop l4 step_header)) 0)) (add32 new_sum (sport + dport))

  abbrev pub step_check : List ℕ
  step_check = put step_header (l4 + 16) (to_be 2 new_check)

  abbrev pub step_addrs : List ℕ
  step_addrs = put (put step_check at_src src) at_dst dst

  abbrev pub rewritten : List ℕ
  rewritten = put (put step_addrs l4 (to_be 2 sport)) (l4 + 2) (to_be 2 dport)

  pub length-rewritten : length rewritten ≡ length p
  length-rewritten = simp (length-put, length-header_fixed)

  pub rewrite-eq :
      20 ≤ l4
      → l4 + 20 ≤ length p
      → length src ≡ len
      → length dst ≡ len
      → at_src ≤ at_dst
      → at_dst + len ≤ l4
      → rewrite is4 at_src at_dst len p l4 src sport dst dport ≡ some rewritten
  unfolding rewrite
  rewrite-eq h20 fits es ed order inside =
      let n0 : length step_header ≡ length p = length-header_fixed is4 p old_sum new_sum in
      let n1 : length step_check ≡ length p =
        length-put step_header (l4 + 16) (to_be 2 new_check) ∙ n0 in
      let n2 : length (put step_check at_src src) ≡ length p =
        length-put step_check at_src src ∙ n1 in
      let n3 : length step_addrs ≡ length p =
        length-put (put step_check at_src src) at_dst dst ∙ n2 in
      let n4 : length (put step_addrs l4 (to_be 2 sport)) ≡ length p =
        length-put step_addrs l4 (to_be 2 sport) ∙ n3 in
      rw (
        slice?-some p at_src (at_dst + len - at_src) (omega arith),
        fix_header-some is4 p old_sum new_sum (omega arith),
        slice?-some step_header l4 4 (omega arith),
        word_at-some step_header (l4 + 16) (omega arith),
        put?-some step_header (l4 + 16) (to_be 2 new_check) (omega arith),
        put?-some step_check at_src src (omega arith),
        put?-some (put step_check at_src src) at_dst dst (omega arith),
        put?-some step_addrs l4 (to_be 2 sport) (omega arith),
        put?-some (put step_addrs l4 (to_be 2 sport)) (l4 + 2) (to_be 2 dport) (omega arith),
      )
