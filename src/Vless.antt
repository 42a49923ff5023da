-- ===== src/Vless.antt =====
-- engine/src/outbound/vless.rs: the request, the header of the response, and the padding of Vision. The
-- numbers that the generator of random numbers gives are a parameter. `-1` in both counters of `Unpad`
-- is `started = false`; of `partial` the list has the first `partial_len` bytes.
pub mod Response
pub mod Pieces
pub mod Feed
pub mod Blocks
pub mod Vision
mod Tests
use aurora_vpn.Prelude.{
  ℕ, zero, suc, ◌+◌, ◌-◌, ◌*◌, ◌/◌, ◌%◌, ◌^◌, ◌≤◌, ◌<◌, min, max, ◌≡◌, refl, sym, ap, ◌∙◌, ◌≢◌, ◌↔◌,
  ◌⊎◌, inl, inr, Bool, true, false, ◌&&◌, ◌||◌, not, Option, none, some, List, [], ◌∷◌, ◌++◌, map,
  append_assoc, append-nil, arith, ltb, leb, ◌==◌, if◌then◌else◌, ltb→lt, lt→ltb, leb→le, ==_iff,
  tests, Bool-cases, Option-cases, length, get_elem?, get_or, take, drop, replicate, length-append,
  length-take, length-drop, take-append-drop, length-map, length-replicate, Eq, ◌=?◌, =?_iff,
  nat_eq, list_beq, list_beq_iff, list_eq, pair_eq, is_some, get, remove, insert, get-remove,
  get-insert, All, IsByte, All-append, to_be, from_be, length-to_be, to_be-IsByte, byte_at,
  byte_at-IsByte, u16_be, slice?, put, length-put, ◌>>=◌, >>=-eq-some, if_intro, insert_by, sort_by,
  min_by, length-insert_by, length-sort_by,
}
use aurora_vpn.Target.{Target, write_vless}

abbrev pub flow_vision : List ℕ
flow_vision =
    120 ∷ 116 ∷ 108 ∷ 115 ∷ 45 ∷ 114 ∷ 112 ∷ 114 ∷ 120 ∷ 45 ∷ 118 ∷ 105 ∷ 115 ∷ 105 ∷ 111 ∷ 110 ∷ []

-- The additions, the command and the destination behind the version and the identifier.
unfoldable pub header : Bool → List ℕ → ℕ → Option Target → List ℕ
header vision uuid cmd target =
    0
    ∷ (uuid
        ++ ((if vision
              then (length flow_vision + 2) ∷ 10 ∷ length flow_vision ∷ flow_vision
              else 0 ∷ [])
            ++ (cmd ∷ elim target [ none ↦ [] | some t ↦ write_vless t ])))

-- `state` is 0 before the version, 1 before the length, 2 inside the additions and 3 behind them.
pub record ResponseSkip : Type 0 where
  pub state : ℕ
  pub skip : ℕ

abbrev pub plus : ℕ → Option (ℕ × ResponseSkip) → Option (ℕ × ResponseSkip)
plus n none = none
plus n (some (m, s)) = some (n + m, s)

-- How many bytes belong to the header, on fuel that counts the bytes; `none` for a wrong version.
unfoldable pub consume_loop : ℕ → List ℕ → ResponseSkip → Option (ℕ × ResponseSkip)
consume_loop zero bytes s = some (0, s)
consume_loop (suc fuel) [] s = some (0, s)
consume_loop (suc fuel) (b ∷ bytes) s =
    let n = min s.skip (length (b ∷ bytes)) in
    let version = plus 1 (consume_loop fuel bytes (record s { state = 1 })) in
    let size =
      plus 1 (consume_loop fuel bytes (record { state = if b == 0 then 3 else 2; skip = b })) in
    let rest = plus n (
      consume_loop fuel (drop n (b ∷ bytes))
        (record { state = if s.skip - n == 0 then 3 else s.state; skip = s.skip - n })) in
    if s.state == 3
    then some (0, s)
    else if s.state == 0
    then (if b == 0 then version else none)
    else if s.state == 1
    then size
    else rest

unfoldable pub consume : List ℕ → ResponseSkip → Option (ℕ × ResponseSkip)
unfolding consume_loop
consume bytes s = consume_loop (length bytes) bytes s

pub record Unpad : Type 0 where
  pub uuid : List ℕ
  pub started : Bool
  pub content : ℕ
  pub padding : ℕ
  pub command : ℕ
  pub partial : List ℕ

abbrev pub new_unpad : List ℕ → Unpad
new_unpad uuid = record {
  uuid = uuid;
  started = false;
  content = 0;
  padding = 0;
  command = 0;
  partial = [];
}

-- More bytes of a block's header; with five of them the block starts.
unfoldable pub opened : Unpad → List ℕ → Unpad
opened u p =
    if length p == 5
    then record u {
      command = byte_at p 0;
      content = u16_be (byte_at p 1) (byte_at p 2);
      padding = u16_be (byte_at p 3) (byte_at p 4);
      partial = [];
    }
    else record u { partial = p }

abbrev pub behind : List ℕ → Unpad × List ℕ → Unpad × List ℕ
behind out (u, more) = (u, out ++ more)

-- The loop of `feed`, on fuel that counts the bytes: the state and the bytes that it puts out.
unfoldable pub feed_loop : ℕ → List ℕ → Unpad → Unpad × List ℕ
unfolding opened
feed_loop zero bytes u = (u, [])
feed_loop (suc fuel) [] u = (u, [])
feed_loop (suc fuel) (b ∷ rest) u =
    let bytes : List ℕ = b ∷ rest in
    let k = min (5 - length u.partial) (length bytes) in
    let head = feed_loop fuel (drop k bytes) (opened u (u.partial ++ take k bytes)) in
    let n = min u.content (length bytes) in
    let text =
      behind (take n bytes)
        (feed_loop fuel (drop n bytes) (record u { content = u.content - n })) in
    let m = min u.padding (length bytes) in
    let pad = feed_loop fuel (drop m bytes) (record u { padding = u.padding - m }) in
    if u.content == 0 && u.padding == 0
    then (if u.command == 1 then (u, bytes) else head)
    else if ltb 0 u.content
    then text
    else pad

unfoldable pub feed : List ℕ → Unpad → Unpad × List ℕ
unfolding feed_loop
feed bytes u =
    let begun : Unpad = record u { started = true; content = 0; padding = 0; command = 0 } in
    if u.started
    then feed_loop (length bytes) bytes u
    else if leb 21 (length bytes) && list_beq ◌==◌ (take 16 bytes) u.uuid
    then feed_loop (length (drop 16 bytes)) (drop 16 bytes) begun
    else (u, bytes)

abbrev pub block_finished : Unpad → Bool
block_finished u = u.started && u.content == 0 && u.padding == 0 && length u.partial == 0

-- The two draws of a padding, `0..500` and `0..256`, from one number.
abbrev pub pad_len : Bool → ℕ → ℕ → ℕ
pad_len long r n = if ltb n 900 && long then r % 500 + 900 - n else r % 256

abbrev pub block : ℕ → List ℕ → ℕ → List ℕ
block command bytes padding =
    command ∷ (to_be 2 (length bytes) ++ (to_be 2 padding ++ (bytes ++ replicate padding 0)))

abbrev pub or_nothing : Option (List ℕ) → List ℕ
or_nothing none = []
or_nothing (some uuid) = uuid

-- What `pad_into` puts behind `out`.
unfoldable pub pad_into : Option (List ℕ) → ℕ → List ℕ → Bool → ℕ → List ℕ
pad_into uuid command bytes long r =
    or_nothing uuid ++ block command bytes (pad_len long r (length bytes))
