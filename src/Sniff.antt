-- ===== src/Sniff.antt =====
-- engine/src/sniff.rs: the name of the host in the first bytes of a connection. Whether bytes are UTF-8 is
-- a parameter, as are the keys that open a packet of QUIC.
pub mod Extensions
pub mod Hello
mod Tests
use aurora_vpn.Prelude.{
  ℕ, zero, suc, ◌+◌, ◌-◌, ◌*◌, ◌/◌, ◌%◌, ◌^◌, ◌≤◌, ◌<◌, min, max, ◌≡◌, refl, sym, ap, ◌∙◌, ◌≢◌, ◌↔◌,
  ◌⊎◌, inl, inr, Bool, true, false, ◌&&◌, ◌||◌, not, Option, none, some, List, [], ◌∷◌, ◌++◌, map,
  append_assoc, append-nil, arith, ltb, leb, ◌==◌, if◌then◌else◌, ltb→lt, lt→ltb, leb→le, ==_iff,
  tests, Bool-cases, Option-cases, length, get_elem?, get_or, take, drop, replicate, length-append,
  length-take, length-drop, take-append-drop, length-map, length-replicate, Eq, ◌=?◌, =?_iff,
  nat_eq, list_beq, list_beq_iff, list_eq, pair_eq, is_some, get, remove, insert, get-remove,
  get-insert, All, IsByte, All-append, to_be, from_be, length-to_be, to_be-IsByte, byte_at,
  byte_at-IsByte, u16_be, slice?, put, length-put, ◌>>=◌, >>=-eq-some, if_intro, insert_by, sort_by,
  min_by, length-insert_by, length-sort_by,
}
use aurora_vpn.Target.{to_lower}
use aurora_vpn.Dns.Wire.{quic_varint, question_name}

unfoldable pub u16_at : List ℕ → ℕ → Option ℕ
u16_at d i = get_elem? d i >>= (λ a. get_elem? d (i + 1) >>= (λ b. some (u16_be a b)))

-- A letter, a digit, `.`, `-` or `_`.
abbrev pub host_byte : ℕ → Bool
host_byte b =
    (leb 65 b && leb b 90)
    || (leb 97 b && leb b 122)
    || (leb 48 b && leb b 57)
    || b == 46
    || b == 45
    || b == 95

abbrev pub all_host : List ℕ → Bool
all_host [] = true
all_host (b ∷ name) = host_byte b && all_host name

abbrev pub valid_host : List ℕ → Bool
valid_host name = ltb 0 (length name) && leb (length name) 253 && all_host name

pub record Sniffed : Type 0 where
  pub protocol : List ℕ
  pub domain : Option (List ℕ)

module _ (is_utf8 : List ℕ → Bool) where
  -- The first name of the list in the extension.
  unfoldable pub name_in : List ℕ → Option (List ℕ)
  name_in entry = u16_at entry 3 >>= (λ n. slice? entry 5 n >>= (λ name.
      if is_utf8 name
      then (if valid_host (to_lower name) then some (to_lower name) else none)
      else none))

  -- The loop over the extensions from `i`, on fuel that counts the bytes.
  unfoldable pub find_name : ℕ → List ℕ → ℕ → ℕ → Option (List ℕ)
  find_name zero body i end = none
  find_name (suc fuel) body i end =
      if not (leb (i + 4) end)
      then none
      else u16_at body i >>= (λ kind. u16_at body (i + 2) >>= (λ len. elim (kind == 0) [
        | true ↦ slice? body (i + 4) len >>= name_in
        | false ↦ find_name fuel body (i + (4 + len)) end
      ]))

  unfoldable pub sni_in_hello : List ℕ → Option (List ℕ)
  sni_in_hello body = get_elem? body 34 >>= (λ sid. u16_at body (34 + (1 + sid)) >>= (λ ciphers.
      (let i = 34 + (1 + sid) + (2 + ciphers) in
        get_elem? body i >>= (λ comp.
          (let j = i + (1 + comp) in
            u16_at body j >>= (λ total.
              find_name (length body) body (j + 2) (min (j + 2 + total) (length body))))))))

  unfoldable pub tls : List ℕ → Option Sniffed
  tls bytes =
      if ltb (length bytes) 6
        || not (byte_at bytes 0 == 22)
        || not (byte_at bytes 1 == 3)
        || not (byte_at bytes 5 == 1)
      then none
      else if leb 9 (length bytes)
      then some (record { protocol = 116 ∷ 108 ∷ 115 ∷ []; domain = sni_in_hello (drop 9 bytes) })
      else none

abbrev pub bytes_from : ℕ → List ℕ → Option (List ℕ)
bytes_from i bytes = if leb i (length bytes) then some (drop i bytes) else none

-- The number that stands at `i`, and the put_piece behind it.
abbrev pub varint_at : List ℕ → ℕ → Option (ℕ × ℕ)
varint_at frames i = bytes_from i frames >>= quic_varint >>= (λ v. some (v.0, i + v.1))

abbrev pub skip_varints : ℕ → List ℕ → ℕ → Option ℕ
skip_varints zero frames i = some i
skip_varints (suc n) frames i = varint_at frames i >>= (λ v. skip_varints n frames v.1)

-- Where an ACK frame ends.
unfoldable pub ack_end : List ℕ → Option ℕ
ack_end frames = skip_varints 2 frames 1 >>= (λ i. varint_at frames i >>= (λ ranges.
    skip_varints (1 + min ranges.0 256 * 2 + (if byte_at frames 0 == 3 then 3 else 0)) frames
      ranges.1))

-- `resize` to the end of the piece, if the hello is shorter, and `copy_from_slice`.
unfoldable pub put_piece : ℕ → List ℕ → List ℕ → List ℕ
put_piece offset piece hello =
    put (hello ++ replicate (offset + length piece - length hello) 0) offset piece

-- A CRYPTO frame: the hello with its piece, and what follows the frame.
unfoldable pub crypto_frame : List ℕ → List ℕ → Option (List ℕ × List ℕ)
unfolding put_piece
crypto_frame frames hello = varint_at frames 1 >>= (λ offset. varint_at frames offset.1 >>= (λ len.
    slice? frames len.1 len.0 >>= (λ piece.
      if ltb (64 * 1024) (offset.0 + length piece)
      then none
      else some (put_piece offset.0 piece hello, drop (len.1 + len.0) frames))))

-- The frames up to the first of another kind, on fuel that counts the bytes.
unfoldable pub gather : ℕ → List ℕ → List ℕ → Option (List ℕ)
unfolding ack_end crypto_frame
gather zero frames hello = some hello
gather (suc fuel) [] hello = some hello
gather (suc fuel) (kind ∷ rest) hello = elim (leb kind 1) [
  | true ↦ gather fuel rest hello
  | false ↦ elim (leb kind 3) [
    | true ↦
        ack_end (kind ∷ rest)
        >>= (λ i. bytes_from i (kind ∷ rest) >>= (λ frames. gather fuel frames hello))
    | false ↦ elim (kind == 6) [
      | true ↦ crypto_frame (kind ∷ rest) hello >>= (λ r. gather fuel r.1 r.0)
      | false ↦ some hello
    ]
  ]
]

unfoldable pub sni_in_crypto : (List ℕ → Bool) → List ℕ → Option (List ℕ)
unfolding gather
sni_in_crypto is_utf8 frames = gather (length frames) frames [] >>= (λ hello.
    get_elem? hello 0
    >>= (λ kind. if kind == 1 then bytes_from 4 hello >>= sni_in_hello is_utf8 else none))

unfoldable pub dns : (List ℕ → List ℕ) → List ℕ → Option Sniffed
dns lossy bytes =
    if ltb (length bytes) 12 || leb 128 (byte_at bytes 2)
    then none
    else u16_at bytes 4 >>= (λ qd.
      if qd == 0 || ltb 16 qd
      then none
      else some (record { protocol = 100 ∷ 110 ∷ 115 ∷ []; domain = question_name lossy bytes }))
