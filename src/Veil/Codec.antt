-- ===== src/Veil/Codec.antt =====
-- veil/src/codec.rs: the records of the tunnel. The cipher (ChaCha20-Poly1305 of a crate) is a
-- parameter, a function of the counter that the nonce encodes; the lengths that `rand` draws are
-- arguments. A stream is the bytes on the wire, in order.
pub mod Stream
use aurora_vpn.Prelude.{
  ℕ, zero, suc, ◌+◌, ◌-◌, ◌*◌, ◌/◌, ◌%◌, ◌^◌, ◌≤◌, ◌<◌, min, max, ◌≡◌, refl, sym, ap, ◌∙◌, ◌≢◌, ◌↔◌,
  ◌⊎◌, inl, inr, Bool, true, false, ◌&&◌, ◌||◌, not, Option, none, some, List, [], ◌∷◌, ◌++◌, map,
  append_assoc, append-nil, arith, ltb, leb, ◌==◌, if◌then◌else◌, ltb→lt, lt→ltb, leb→le, ==_iff,
  tests, Bool-cases, Option-cases, length, get_elem?, get_or, take, drop, replicate, length-append,
  length-take, length-drop, take-append-drop, length-map, length-replicate, Eq, ◌=?◌, =?_iff,
  nat_eq, list_beq, list_beq_iff, list_eq, pair_eq, is_some, get, remove, insert, get-remove,
  get-insert, All, IsByte, All-append, to_be, from_be, length-to_be, to_be-IsByte, byte_at,
  byte_at-IsByte, u16_be, slice?, put, length-put, ◌>>=◌, >>=-eq-some, if_intro, insert_by, sort_by,
  min_by, length-insert_by, length-sort_by,
}

abbrev pub tag_len : ℕ
tag_len = 16

abbrev pub overhead : ℕ
overhead = 2 + 1 + 2 + tag_len

abbrev pub shaped_records : ℕ
shaped_records = 8

abbrev pub shape_min : ℕ
shape_min = 900

abbrev pub shape_max : ℕ
shape_max = 1400

abbrev pub max_record_data : ℕ
max_record_data = 65535 - overhead - shape_max

-- The detached cipher under a key: the text and the tag of a plain text, and back. What the code
-- relies on: sealing keeps the length, tags have 16 bytes, and what was sealed under a counter opens under it.
pub record Aead : Type 0 where
  pub encrypt : ℕ → List ℕ → List ℕ × List ℕ
  pub decrypt : ℕ → List ℕ → List ℕ → Option (List ℕ)
  pub length_text : (n : ℕ) (p : List ℕ) → length (encrypt n p).0 ≡ length p
  pub length_tag : (n : ℕ) (p : List ℕ) → length (encrypt n p).1 ≡ tag_len
  pub opens : (n : ℕ) (p : List ℕ) → decrypt n (encrypt n p).0 (encrypt n p).1 ≡ some p

pub record Sealer : Type 0 where
  pub counter : ℕ
  pub shaped : ℕ

abbrev pub new_sealer : Sealer
new_sealer = record { counter = 0; shaped = 0 }

-- The two numbers drawn: the target length in 900..1400, the small padding in 0..64.
pub record Draw : Type 0 where
  pub target : ℕ
  pub small : ℕ

abbrev pub IsDraw : Draw → Type 0
IsDraw d = (shape_min ≤ d.target) × (d.target < shape_max) × (d.small < 64)

unfoldable pub padding : Draw → ℕ → Sealer → Sealer × ℕ
padding d len s =
    if leb shaped_records s.shaped
    then (s, 0)
    else (record s { shaped = s.shaped + 1 }, if ltb len d.target then d.target - len else d.small)

-- The record's plain text.
abbrev pub plain : ℕ → List ℕ → ℕ → List ℕ
plain kind bytes pad = kind ∷ (to_be 2 (length bytes) ++ (bytes ++ replicate pad 0))

pub data Failure : Type 0 where
  too_short forged too_long : Failure

-- `io::Result<Option<(u8, Bytes)>>`
pub data Got : Type 0 where
  failed : Failure → Got
  waiting : Got
  got : ℕ → List ℕ → Got

pub record Opener : Type 0 where
  pub counter : ℕ
  pub buf : List ℕ

abbrev pub new_opener : Opener
new_opener = record { counter = 0; buf = [] }

unfoldable pub push : List ℕ → Opener → Opener
push chunk o = record o { buf = o.buf ++ chunk }

unfoldable pub has_partial : Opener → Bool
has_partial o = ltb 0 (length o.buf)

-- The plain text of a record: its kind, the length of its data and the data.
unfoldable pub content : List ℕ → Got
content [] = failed too_long
content (kind ∷ rest) =
    let len = u16_be (byte_at rest 0) (byte_at rest 1) in
    if leb (3 + len) (length (kind ∷ rest))
    then got kind (take len (drop 2 rest))
    else failed too_long

module _ (aead : Aead) where
  -- `none` is the assertion that the data is short enough.
  unfoldable pub seal : Draw → ℕ → List ℕ → Sealer → Option (Sealer × List ℕ)
  unfolding padding
  seal d kind bytes s =
      if leb (length bytes) max_record_data
      then (let (s', pad) = padding d (length bytes) s in
          let (text, tag) = aead.encrypt s'.counter (plain kind bytes pad) in
          some (
            record s' { counter = s'.counter + 1 },
            to_be 2 ((1 + 2 + length bytes + pad + tag_len) % 2 ^ 16) ++ (text ++ tag),
          ))
      else none

  -- A whole record that was taken off the buffer.
  unfoldable pub open_record : ℕ → List ℕ → Opener → Opener × Got
  unfolding content
  open_record sealed rec o =
      elim (aead.decrypt o.counter (take (sealed - tag_len) rec) (drop (sealed - tag_len) rec)) [
        | none ↦ (o, failed forged)
        | some p ↦ (record o { counter = o.counter + 1 }, content p)
      ]

  unfoldable pub next : Opener → Opener × Got
  unfolding open_record
  next o =
      let sealed = u16_be (byte_at o.buf 0) (byte_at o.buf 1) in
      if ltb (length o.buf) 2
      then (o, waiting)
      else if ltb sealed (1 + 2 + tag_len)
      then (o, failed too_short)
      else if ltb (length o.buf) (2 + sealed)
      then (o, waiting)
      else open_record sealed (take sealed (drop 2 o.buf))
          (record o { buf = drop (2 + sealed) o.buf })
