-- ===== src/Xudp.antt =====
-- engine/src/outbound/xudp.rs: datagrams in the frames of one session over a stream. The stream that the
-- receiver reads is the list of the bytes that arrive until it ends.
pub mod Frames
pub mod Fuel
mod Tests
use aurora_vpn.Prelude.{
  ℕ, zero, suc, ◌+◌, ◌-◌, ◌*◌, ◌/◌, ◌%◌, ◌^◌, ◌≤◌, ◌<◌, min, max, ◌≡◌, refl, sym, ap, ◌∙◌, ◌≢◌, ◌↔◌,
  ◌⊎◌, inl, inr, Bool, true, false, ◌&&◌, ◌||◌, not, Option, none, some, List, [], ◌∷◌, ◌++◌, map,
  append_assoc, append-nil, arith, ltb, leb, ◌==◌, if◌then◌else◌, ltb→lt, lt→ltb, leb→le, ==_iff,
  tests, Bool-cases, Option-cases, length, get_elem?, get_or, take, drop, replicate, length-append,
  length-take, length-drop, take-append-drop, length-map, length-replicate, Eq, ◌=?◌, =?_iff,
  nat_eq, list_beq, list_beq_iff, list_eq, pair_eq, is_some, get, remove, insert, get-remove,
  get-insert, All, IsByte, All-append, to_be, from_be, length-to_be, to_be-IsByte, byte_at,
  byte_at-IsByte, u16_be, slice?, put, length-put, ◌>>=◌, >>=-eq-some, if_intro, insert_by, sort_by,
  min_by, length-insert_by, length-sort_by,
}
use aurora_vpn.Target.{Target, ip_host, write_vless, read_vless}
use aurora_vpn.Net.{v4}

abbrev pub zeros : ℕ → List ℕ
zeros n = replicate n 0

abbrev pub meta_of : Bool → Target → List ℕ
meta_of first to =
    0 ∷ 0 ∷ (if first then 1 else 2) ∷ 1 ∷ 2 ∷ (write_vless to ++ (if first then zeros 8 else []))

-- A frame; the first of the session says that it is new and has a global identifier.
unfoldable pub encode : Bool → List ℕ → Target → List ℕ
encode first datagram to =
    to_be 2 (length (meta_of first to))
    ++ (meta_of first to ++ (to_be 2 (length datagram) ++ datagram))

pub record Meta : Type 0 where
  pub status : ℕ
  pub has_data : Bool
  pub from : Option Target

-- What `send` writes, and whether the session has started.
unfoldable pub send : List ℕ → Target → Bool → List ℕ × Bool
unfolding encode
send datagram to started = (encode (not started) datagram to, true)

-- `read_exact`: none if the stream ends before.
unfoldable pub read_exact : ℕ → List ℕ → Option (List ℕ × List ℕ)
read_exact n bytes = if leb n (length bytes) then some (take n bytes, drop n bytes) else none

-- What a call gives: a datagram, its sender and the rest of the stream, `InvalidData`, or
-- `UnexpectedEof` for a stream or a session that has ended.
pub data Recv : Type 0 where
  packet : List ℕ → Target → List ℕ → Recv
  invalid : Recv
  ended : Recv

-- What a frame leads to: the end of the call, or the next frame.
pub data Turn : Type 0 where
  done : Recv → Turn
  more : Target → List ℕ → Turn

abbrev pub found : Option (Target × ℕ) → Option Target
found none = none
found (some (t, n)) = some t

abbrev pub newer : Option Target → Target → Target
newer none last = last
newer (some from) last = from

abbrev pub nowhere : Target
nowhere = record { host = ip_host (v4 0); port = 0 }

module _ (is_utf8 : List ℕ → Bool) where
  unfoldable pub parse_meta : List ℕ → Option Meta
  parse_meta meta = get_elem? meta 2 >>= (λ status. get_elem? meta 3 >>= (λ option. some (record {
    status = status;
    has_data = option % 2 == 1;
    from =
        if ltb 5 (length meta) && byte_at meta 4 == 2
        then found (read_vless is_utf8 (drop 5 meta))
        else none;
  })))

  -- The data of a frame, for a buffer of `limit` bytes.
  unfoldable pub read_data : ℕ → ℕ → Target → List ℕ → Turn
  read_data limit status from bytes = elim (read_exact 2 bytes) [
    | none ↦ done ended
    | some (size, rest) ↦
        if ltb limit (from_be size) then done invalid else elim (read_exact (from_be size) rest) [
          | none ↦ done ended
          | some (datagram, behind) ↦
              if status == 3 then done ended else done (packet datagram from behind)
        ]
  ]

  unfoldable pub read_frame : ℕ → Target → List ℕ → Turn
  read_frame limit last bytes = elim (read_exact 2 bytes) [
    | none ↦ done ended
    | some (size, rest) ↦
        if not (leb 4 (from_be size) && leb (from_be size) 512)
        then done invalid
        else elim (read_exact (from_be size) rest) [
          | none ↦ done ended
          | some (meta, behind) ↦ elim (parse_meta meta) [
            | none ↦ done invalid
            | some m ↦
                if m.has_data
                then read_data limit m.status (newer m.from last) behind
                else if m.status == 3
                then done ended
                else more (newer m.from last) behind
          ]
        ]
  ]

  -- The loop of `recv`, on fuel that counts the bytes.
  unfoldable pub recv_loop : ℕ → ℕ → Target → List ℕ → Recv
  unfolding read_frame
  recv_loop zero limit last bytes = ended
  recv_loop (suc fuel) limit last bytes = elim (read_frame limit last bytes) [
    | done r ↦ r
    | more from rest ↦ recv_loop fuel limit from rest
  ]

  unfoldable pub recv : ℕ → List ℕ → Recv
  unfolding recv_loop
  recv limit bytes = recv_loop (suc (length bytes)) limit nowhere bytes
