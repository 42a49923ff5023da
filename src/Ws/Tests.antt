-- ===== src/Ws/Tests.antt =====
-- engine/src/transport/ws.rs: the theorems at concrete frames.
use aurora_vpn.Prelude.{
  ℕ, ◌≡◌, refl, inl, inr, false, Option, none, some, List, [], ◌∷◌, arith, length, nat_eq, list_eq,
  pair_eq,
}
use aurora_vpn.Ws.{poll_write, Ws, Polled, poll_read}
use aurora_vpn.Ws.Written.{IsWritten, poll_write-IsWritten}
use aurora_vpn.Ws.Turns.{poll_read_ends}
use aurora_vpn.Ws.Stream.{Has, Gets, Frame}
use aurora_vpn.Ws.Delivery.{poll_read-Gets}

abbrev mask : List ℕ
mask = 1 ∷ 2 ∷ 3 ∷ 4 ∷ []

abbrev earlier : List ℕ
earlier = 9 ∷ []

-- A ping of one byte and a piece of data of two, in two chunks that split the ping's header.
abbrev stream : Ws
stream = record {
  reads = (137 ∷ []) ∷ (1 ∷ 5 ∷ 130 ∷ 2 ∷ 7 ∷ 8 ∷ []) ∷ [];
  buf = [];
  remaining = 0;
  control = none;
  wbuf = [];
  sent = [];
  frames = 0;
  closed = false;
}

abbrev ping : Frame
ping = record { kind = 9; payload = 5 ∷ [] }

abbrev data_frame : Frame
data_frame = record { kind = 2; payload = 7 ∷ 8 ∷ [] }

abbrev all_taken : List ℕ → Option ℕ
all_taken bytes = some (length bytes)

stream-Has : Has stream (7 ∷ 8 ∷ [])
stream-Has = (
  [],
  ping ∷ data_frame ∷ [],
  (
    refl,
    (inr (omega arith, omega arith, omega arith), (inl (omega arith, omega arith), tt)),
    (refl, refl),
  ),
  refl,
)

poll_read-Gets_example :
    (s : Ws) × (p : Polled) × (poll_read all_taken (λ n. mask) 40 10 stream ≡ some (s, p))
    × Gets (7 ∷ 8 ∷ []) s p
poll_read-Gets_example =
    poll_read-Gets all_taken (λ n. mask) (λ bytes. (length bytes, refl)) 40 10 (7 ∷ 8 ∷ []) stream
      stream-Has (omega arith)

poll_read_ends_example :
    (s : Ws) × (p : Polled) × (poll_read all_taken (λ n. mask) 40 10 stream ≡ some (s, p))
poll_read_ends_example = poll_read_ends all_taken (λ n. mask) 40 10 stream (omega arith)

-- The data arrives and the pong is sent: its header, the mask and the masked byte.
reads_data :
    poll_read all_taken (λ n. mask) 40 10 stream
    ≡ some (
      record stream { reads = []; frames = 1; sent = 138 ∷ 129 ∷ 1 ∷ 2 ∷ 3 ∷ 4 ∷ 4 ∷ [] },
      Polled.got (7 ∷ 8 ∷ []),
    )
unfolding poll_read
reads_data = refl

poll_write-IsWritten_example :
    IsWritten mask (7 ∷ 8 ∷ []) stream (poll_write all_taken (λ n. mask) (7 ∷ 8 ∷ []) stream)
poll_write-IsWritten_example = poll_write-IsWritten all_taken (λ n. mask) (7 ∷ 8 ∷ []) stream
