-- ===== src/Ws/Frames.antt =====
-- engine/src/transport/ws.rs: the header of a frame, as RFC 6455 has it, is read back.
use aurora_vpn.Prelude.{
  ℕ, zero, suc, ◌+◌, ◌%◌, ◌^◌, ◌<◌, ◌≡◌, refl, sym, ap, ◌∙◌, inl, inr, false, none, List, [], ◌∷◌,
  ◌++◌, append_assoc, arith, ltb, leb, ◌==◌, Bool-cases, length, take, drop, length-append,
  length-take, nat_eq, list_eq, pair_eq, All, IsByte, to_be, slice?,
}
use aurora_vpn.Prelude.Slices.{from_be_back, slice?-append, drop-length-append}
use aurora_vpn.Ws.{more, head, parse_frame_header, masked, size_bytes, encode_frame}
use aurora_vpn.Ws.Mask.{masked_twice}

-- The header that a server sends: the last frame of a message, without a mask.
abbrev pub plain_head : ℕ → ℕ → List ℕ
plain_head opcode n = (128 + opcode) ∷ size_bytes 0 n

parse_size :
    (b n : ℕ) (rest : List ℕ)
    → n < 2 ^ 64
    → parse_frame_header (b ∷ (size_bytes 0 n ++ rest))
      ≡ head (b % 16) n (suc (length (size_bytes 0 n)))
unfolding parse_frame_header
parse_size b n rest h = elim (Bool-cases (ltb n 126)) [
  | inl small ↦
      (let t1 : leb 128 (0 + n) ≡ false = ground arith in
        let t2 : ((0 + n) % 128 == 126) ≡ false = ground arith in
        let t3 : ((0 + n) % 128 == 127) ≡ false = ground arith in
        let t4 : (0 + n) % 128 ≡ n = ground arith in
        rw (small, parse_frame_header, t1, t2, t3, t4) refl)
  | inr large ↦ elim (Bool-cases (leb n 65535)) [
    | inl t ↦
        (let back = from_be_back 2 n (ground arith) in
          let part = slice?-append [] (to_be 2 n) rest 0 2 refl refl in
          rw (large, t, parse_frame_header, part) (ap (λ v. head (b % 16) v 4) back))
    | inr t ↦
        (let back = from_be_back 8 n h in
          let part = slice?-append [] (to_be 8 n) rest 0 8 refl refl in
          rw (large, t, parse_frame_header, part) (ap (λ v. head (b % 16) v 10) back))
  ]
]

-- The header of a server's frame of a type below 16 and a length below 2^64 is read as its type, its
-- length and its own size, whatever bytes follow.
pub parse_frame_header-plain_head :
    (opcode n : ℕ) (rest : List ℕ)
    → opcode < 16
    → n < 2 ^ 64
    → parse_frame_header (plain_head opcode n ++ rest)
      ≡ head opcode n (length (plain_head opcode n))
parse_frame_header-plain_head opcode n rest ho hn =
    let e : (128 + opcode) % 16 ≡ opcode = omega arith in
    parse_size (128 + opcode) n rest hn ∙ ap (λ o. head o n (suc (length (size_bytes 0 n)))) e

slice?_short : (bytes : List ℕ) (n : ℕ) → length bytes < n → slice? bytes 0 n ≡ none
slice?_short bytes n h = let t : leb (0 + n) (length bytes) ≡ false = ground arith in rw t

short_size :
    (b k n : ℕ)
    → n < 2 ^ 64
    → k < length (size_bytes 0 n)
    → parse_frame_header (b ∷ take k (size_bytes 0 n)) ≡ more
unfolding parse_frame_header
short_size b zero n hn hk = refl
short_size b (suc k) n hn hk = elim (Bool-cases (ltb n 126)) [
  | inl small ↦ (let hk2 = rw small at hk in absurd (omega arith))
  | inr large ↦ elim (Bool-cases (leb n 65535)) [
    | inl t ↦
        (let hk2 = rw (large, t) at hk in
          let l = length-take k (to_be 2 n) in
          let part = slice?_short (take k (to_be 2 n)) 2 (omega arith) in
          rw (large, t, parse_frame_header, part) refl)
    | inr t ↦
        (let hk2 = rw (large, t) at hk in
          let l = length-take k (to_be 8 n) in
          let part = slice?_short (take k (to_be 8 n)) 8 (omega arith) in
          rw (large, t, parse_frame_header, part) refl)
  ]
]

-- A header that is not there as a whole is waited for: no proper part of it is taken for another one.
pub parse_frame_header-take :
    (opcode n k : ℕ)
    → n < 2 ^ 64
    → k < length (plain_head opcode n)
    → parse_frame_header (take k (plain_head opcode n)) ≡ more
unfolding parse_frame_header
parse_frame_header-take opcode n zero hn hk = refl
parse_frame_header-take opcode n (suc k) hn hk = short_size (128 + opcode) k n hn (omega arith)

-- With a mask of four bytes, taking the mask off what follows the header and the mask of an encoded
-- frame gives the payload back, whatever stands before the frame.
pub encode_frame_payload :
    (mask payload out : List ℕ) (opcode : ℕ)
    → length mask ≡ 4
    → All IsByte mask
    → All IsByte payload
    → masked 0 mask (
        drop
          (length out + 1 + length (size_bytes 128 (length payload)) + 4)
          (encode_frame mask opcode payload out))
      ≡ payload
unfolding encode_frame
encode_frame_payload mask payload out opcode hm bm bp =
    let h = 128 + opcode in
    let sz = size_bytes 128 (length payload) in
    let m = masked 0 mask payload in
    let pre = out ++ (h ∷ (sz ++ mask)) in
    let shape : pre ++ m ≡ encode_frame mask opcode payload out =
      append_assoc out (h ∷ (sz ++ mask)) m ∙ ap (λ r. out ++ (h ∷ r)) (append_assoc sz mask m) in
    let l1 = length-append out (h ∷ (sz ++ mask)) in
    let l2 = length-append sz mask in
    let at : length out + 1 + length sz + 4 ≡ length pre = omega arith in
    ap (λ r. masked 0 mask (drop (length out + 1 + length sz + 4) r)) (sym shape)
    ∙ ap (λ k. masked 0 mask (drop k (pre ++ m))) at
    ∙ ap (masked 0 mask) (drop-length-append pre m)
    ∙ masked_twice 0 mask payload bm bp
