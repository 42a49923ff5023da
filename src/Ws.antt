-- ===== src/Ws.antt =====
-- engine/src/transport/ws.rs: the frames of WebSocket and the stream over them. Bytes that arrive stand
-- in `reads`, a chunk for a read of the connection below, an empty one for its end; that such a read
-- fails is not modelled. `accept` is how many bytes of the buffer a drain writes in all, `none` for an
-- error, after which the state is of no further use; `masks` are the random masks, in their order.
pub mod Mask
pub mod Frames
pub mod Turns
pub mod Stream
pub mod Delivery
pub mod Written
mod Tests
use aurora_vpn.Prelude.{
  ℕ, zero, suc, ◌+◌, ◌-◌, ◌*◌, ◌/◌, ◌%◌, ◌^◌, ◌≤◌, ◌<◌, min, max, ◌≡◌, refl, sym, ap, ◌∙◌, ◌≢◌, ◌↔◌,
  ◌⊎◌, inl, inr, Bool, true, false, ◌&&◌, ◌||◌, not, Option, none, some, List, [], ◌∷◌, ◌++◌, map,
  append_assoc, append-nil, arith, ltb, leb, ◌==◌, if◌then◌else◌, ltb→lt, lt→ltb, leb→le, ==_iff,
  tests, Bool-cases, Option-cases, length, get_elem?, get_or, take, drop, replicate, length-append,
  length-take, length-drop, take-append-drop, length-map, length-replicate, Eq, ◌=?◌, =?_iff,
  nat_eq, list_beq, list_beq_iff, list_eq, pair_eq, is_some, get, remove, insert, get-remove,
  get-insert, All, IsByte, All-append, to_be, from_be, length-to_be, to_be-IsByte, byte_at,
  byte_at-IsByte, u16_be, slice?, put, length-put, ◌>>=◌, >>=-eq-some, if_intro, insert_by, sort_by,
  min_by, length-insert_by, length-sort_by,
}
use Prim.Native.Nat.{bit_xor}

abbrev pub rbuf_size : ℕ
rbuf_size = 16384

abbrev pub max_frame : ℕ
max_frame = 16384

pub data Head : Type 0 where
  more refused : Head
  head : ℕ → ℕ → ℕ → Head

-- `none` of the slice: the bytes are not there yet.
abbrev pub sized : ℕ → ℕ → Option (List ℕ) → Head
sized opcode size none = more
sized opcode size (some bytes) = head opcode (from_be bytes) size

-- The type, the length and the size of the header.
unfoldable pub parse_frame_header : List ℕ → Head
parse_frame_header [] = more
parse_frame_header (b ∷ []) = more
parse_frame_header (b ∷ c ∷ rest) =
    if leb 128 c
    then refused
    else if c % 128 == 126
    then sized (b % 16) 4 (slice? rest 0 2)
    else if c % 128 == 127
    then sized (b % 16) 10 (slice? rest 0 8)
    else head (b % 16) (c % 128) 2

-- The bytes under the mask, from the place `i` on.
unfoldable pub masked : ℕ → List ℕ → List ℕ → List ℕ
masked i mask [] = []
masked i mask (b ∷ bytes) = bit_xor b (byte_at mask (i % 4)) ∷ masked (i + 1) mask bytes

-- The length of a payload, with the bit `flag` of the mask.
abbrev pub size_bytes : ℕ → ℕ → List ℕ
size_bytes flag n =
    if ltb n 126
    then (flag + n) ∷ []
    else if leb n 65535
    then (flag + 126) ∷ to_be 2 n
    else (flag + 127) ∷ to_be 8 n

unfoldable pub encode_frame : List ℕ → ℕ → List ℕ → List ℕ → List ℕ
unfolding masked
encode_frame mask opcode payload out =
    out ++ ((128 + opcode) ∷ (size_bytes 128 (length payload) ++ (mask ++ masked 0 mask payload)))

pub record Control : Type 0 where
  pub opcode : ℕ
  pub need : ℕ
  pub content : List ℕ

-- `buf` is what `rbuf` holds between `rpos` and `rend`, `wbuf` what it holds from `wpos` on; `sent` is
-- what went out, `frames` the number of masks that were drawn.
pub record Ws : Type 0 where
  pub reads : List (List ℕ)
  pub buf : List ℕ
  pub remaining : ℕ
  pub control : Option Control
  pub wbuf : List ℕ
  pub sent : List ℕ
  pub frames : ℕ
  pub closed : Bool

pub data Polled : Type 0 where
  pending failed : Polled
  got : List ℕ → Polled

pub data Turn : Type 0 where
  again : Ws → Turn
  stop : Ws → Polled → Turn

-- A read of the connection below into `k` bytes of room.
abbrev pub receive : ℕ → List (List ℕ) → Option (List ℕ × List (List ℕ))
receive k [] = none
receive k (c ∷ cs) = some (take k c, if leb (length c) k then cs else drop k c ∷ cs)

-- `poll_fill`, and what each caller does with its result.
abbrev pub filled : Ws → Option (List ℕ × List (List ℕ)) → Turn
filled s none = stop s pending
filled s (some ([], cs)) = stop (record s { reads = cs }) (got [])
filled s (some (b ∷ c, cs)) = again (record s { reads = cs; buf = s.buf ++ (b ∷ c) })

abbrev pub fill : Ws → Turn
fill s = filled s (receive (rbuf_size - length s.buf) s.reads)

module _ (accept : List ℕ → Option ℕ) (masks : ℕ → List ℕ) where
  -- Without bytes the connection is not asked.
  abbrev pub accepted : List ℕ → Option ℕ
  accepted [] = some 0
  accepted (b ∷ bytes) = accept (b ∷ bytes)

  -- `poll_drain`: the connection takes some of the bytes, or fails.
  abbrev pub drain : Ws → Option Ws
  drain s =
      accepted s.wbuf
      >>= (λ k. some (record s { wbuf = drop k s.wbuf; sent = s.sent ++ take k s.wbuf }))

  abbrev pub drained : Ws → Option Ws → Turn
  drained s none = stop s failed
  drained s (some s') = again s'

  abbrev pub drain_turn : Ws → Turn
  drain_turn s = drained s (drain s)

  abbrev pub push_frame : ℕ → List ℕ → Ws → Ws
  push_frame opcode payload s = record s {
    wbuf = encode_frame (masks s.frames) opcode payload s.wbuf;
    frames = s.frames + 1;
  }

  abbrev pub finish : Control → Ws → Turn
  finish c s =
      if c.opcode == 9
      then drain_turn (push_frame 10 c.content s)
      else if c.opcode == 8
      then stop (record s { closed = true }) (got [])
      else drain_turn s

  abbrev pub control_turn : Control → Ws → Turn
  control_turn c s =
      let have = min (length s.buf) c.need in
      let c' : Control = record c {
        need = c.need - have;
        content = c.content ++ take have s.buf;
      } in
      let s' : Ws = record s { buf = drop have s.buf } in
      if ltb 0 (c.need - have)
      then fill (record s' { control = some c' })
      else finish c' (record s' { control = none })

  -- A data frame goes to the reader from the buffer, or past it.
  abbrev pub deliver : ℕ → Ws → Option (List ℕ × List (List ℕ)) → Turn
  deliver room s none = stop s pending
  deliver room s (some (c, cs)) =
      stop (record s { reads = cs; remaining = s.remaining - length c }) (got c)

  abbrev pub data_turn : ℕ → Ws → Turn
  data_turn room s =
      let n = min (min (length s.buf) s.remaining) room in
      if ltb 0 (length s.buf)
      then stop (record s { buf = drop n s.buf; remaining = s.remaining - n }) (got (take n s.buf))
      else deliver room s (receive (min room s.remaining) s.reads)

  abbrev pub open_frame : Ws → Head → Turn
  open_frame s more = fill s
  open_frame s refused = stop s failed
  open_frame s (head opcode len size) =
      let s' : Ws = record s { buf = drop size s.buf } in
      if leb opcode 2
      then again (record s' { remaining = len })
      else if leb 8 opcode && leb opcode 10
      then (if ltb 125 len
          then stop s' failed
          else again
              (record s' { control = some (record { opcode = opcode; need = len; content = [] }) }))
      else stop s' failed

  abbrev pub inner_turn : ℕ → Ws → Option Control → Turn
  inner_turn room s (some c) = control_turn c s
  inner_turn room s none =
      if ltb 0 s.remaining then data_turn room s else open_frame s (parse_frame_header s.buf)

  -- One round of the loop of `poll_read`.
  unfoldable pub turn : ℕ → Ws → Turn
  unfolding parse_frame_header encode_frame
  turn room s = if s.closed then stop s (got []) else inner_turn room s s.control

  -- The loop, on fuel: `none` where it runs out.
  unfoldable pub poll_read : ℕ → ℕ → Ws → Option (Ws × Polled)
  unfolding turn
  poll_read zero room s = none
  poll_read (suc fuel) room s = elim (turn room s) [
    | stop s' p ↦ some (s', p)
    | again s' ↦ poll_read fuel room s'
  ]

  -- `poll_write`: nothing is taken while bytes of an earlier frame wait.
  abbrev pub wrote : List ℕ → Ws → Option Ws → Ws × Polled
  wrote part s none = (s, failed)
  wrote part s (some s') = (s', got part)

  abbrev pub write_drained : List ℕ → Ws → Option Ws → Ws × Polled
  write_drained bytes s none = (s, failed)
  write_drained bytes s (some s1) =
      let part = take (min (length bytes) max_frame) bytes in
      let s2 = push_frame 2 part s1 in
      if ltb 0 (length s1.wbuf)
      then (s1, pending)
      else if length bytes == 0
      then (s1, got [])
      else wrote part s2 (drain s2)

  unfoldable pub poll_write : List ℕ → Ws → Ws × Polled
  unfolding encode_frame
  poll_write bytes s = write_drained bytes s (drain s)
