-- ===== src/Vless/Vision.antt =====
-- engine/src/outbound/vless.rs: what Vision observes of the traffic, and what it does with a write.
pub mod Writes
use aurora_vpn.Prelude.{
  ℕ, zero, suc, ◌+◌, ◌-◌, ◌*◌, ◌/◌, ◌%◌, ◌^◌, ◌≤◌, ◌<◌, min, max, ◌≡◌, refl, sym, ap, ◌∙◌, ◌≢◌, ◌↔◌,
  ◌⊎◌, inl, inr, Bool, true, false, ◌&&◌, ◌||◌, not, Option, none, some, List, [], ◌∷◌, ◌++◌, map,
  append_assoc, append-nil, arith, ltb, leb, ◌==◌, if◌then◌else◌, ltb→lt, lt→ltb, leb→le, ==_iff,
  tests, Bool-cases, Option-cases, length, get_elem?, get_or, take, drop, replicate, length-append,
  length-take, length-drop, take-append-drop, length-map, length-replicate, Eq, ◌=?◌, =?_iff,
  nat_eq, list_beq, list_beq_iff, list_eq, pair_eq, is_some, get, remove, insert, get-remove,
  get-insert, All, IsByte, All-append, to_be, from_be, length-to_be, to_be-IsByte, byte_at,
  byte_at-IsByte, u16_be, slice?, put, length-put, ◌>>=◌, >>=-eq-some, if_intro, insert_by, sort_by,
  min_by, length-insert_by, length-sort_by,
}
use aurora_vpn.Vless.{pad_into}

pub record Filter : Type 0 where
  pub remaining_packets : ℕ
  pub is_tls : Bool
  pub is_tls12_or_above : Bool
  pub remaining_server_hello : ℕ
  pub cipher : ℕ
  pub enable_xtls : Bool

abbrev pub new_filter : Filter
new_filter = record {
  remaining_packets = 8;
  is_tls = false;
  is_tls12_or_above = false;
  remaining_server_hello = 0;
  cipher = 0;
  enable_xtls = false;
}

abbrev pub starts : List ℕ → List ℕ → Bool
starts [] bytes = true
starts (k ∷ ks) [] = false
starts (k ∷ ks) (b ∷ bytes) = k == b && starts ks bytes

abbrev pub tls_app_data : List ℕ
tls_app_data = 23 ∷ 3 ∷ 3 ∷ []

-- `windows(6).any(…)`
abbrev pub has_window : List ℕ → List ℕ → Bool
has_window w [] = false
has_window w (b ∷ bytes) = starts w (b ∷ bytes) || has_window w bytes

abbrev pub supported_versions : List ℕ
supported_versions = 0 ∷ 43 ∷ 0 ∷ 2 ∷ 3 ∷ 4 ∷ []

abbrev pub cipher_at : List ℕ → ℕ → ℕ
cipher_at bytes old = elim (slice? bytes (43 + byte_at bytes 43 + 1) 2) [
  | none ↦ old
  | some c ↦ from_be c
]

abbrev pub server_hello : List ℕ → Filter → Filter
server_hello bytes f =
    let n = u16_be (byte_at bytes 3) (byte_at bytes 4) + 5 in
    let read = leb 79 (length bytes) && leb 79 n in
    record f {
      is_tls = true;
      is_tls12_or_above = true;
      remaining_server_hello = n;
      cipher = if read then cipher_at bytes f.cipher else f.cipher;
    }

-- The record that the bytes begin with.
abbrev pub recognise : List ℕ → Filter → Filter
recognise bytes f =
    if not (ltb 6 (length bytes))
    then f
    else if starts (22 ∷ 3 ∷ 3 ∷ []) bytes
    then (if byte_at bytes 5 == 2 then server_hello bytes f else record f { is_tls = true })
    else if starts (22 ∷ 3 ∷ []) bytes && byte_at bytes 5 == 1
    then record f { is_tls = true }
    else f

-- All ciphers of TLS 1.3 but CCM_8.
abbrev pub is_xtls_cipher : ℕ → Bool
is_xtls_cipher c = leb 4865 c && leb c 4868

abbrev pub hello_part : List ℕ → Filter → Filter
hello_part bytes f =
    let n = min f.remaining_server_hello (length bytes) in
    let left = f.remaining_server_hello - n in
    if not (ltb 0 f.remaining_server_hello)
    then f
    else if has_window supported_versions (take n bytes)
    then record f {
      remaining_server_hello = left;
      enable_xtls = is_xtls_cipher f.cipher;
      remaining_packets = 0;
    }
    else record f {
      remaining_server_hello = left;
      remaining_packets = if left == 0 then 0 else f.remaining_packets;
    }

unfoldable pub observe : List ℕ → Filter → Filter
observe bytes f =
    if f.remaining_packets == 0
    then f
    else hello_part bytes
        (recognise bytes (record f { remaining_packets = f.remaining_packets - 1 }))

abbrev pub chunk : ℕ
chunk = 8192

-- The last place where an application record begins.
abbrev pub last_app : List ℕ → Option ℕ
last_app [] = none
last_app (b ∷ bytes) = elim (last_app bytes) [
  | some i ↦ some (i + 1)
  | none ↦ if starts tls_app_data (b ∷ bytes) then some 0 else none
]

abbrev pub cut_at : Option ℕ → ℕ
cut_at none = chunk / 2
cut_at (some zero) = chunk / 2
cut_at (some (suc i)) = suc i

unfoldable pub parts : List ℕ → List ℕ × List ℕ
parts bytes =
    let at = cut_at (last_app bytes) in
    if leb (chunk - 21) (length bytes) then (take at bytes, drop at bytes) else (bytes, [])

-- The writing side of `VisionStream`; `frames` counts the draws of random numbers.
pub record Writer : Type 0 where
  pub uuid : List ℕ
  pub write_uuid : Bool
  pub filter : Filter
  pub is_padding : Bool
  pub direct_write : Bool
  pub out : List ℕ
  pub raw_tail : List ℕ
  pub frames : ℕ

abbrev pub uuid_once : Writer → Option (List ℕ)
uuid_once w = if w.write_uuid then some w.uuid else none

module _ (random : ℕ → ℕ) where
  abbrev pub push_block : ℕ → List ℕ → Bool → Writer → Writer
  push_block command bytes long w = record w {
    write_uuid = false;
    frames = w.frames + 1;
    out = w.out ++ pad_into (uuid_once w) command bytes long (random w.frames);
  }

  -- One round of the loop: with `true` the rest has been dealt with.
  unfoldable pub write_part : List ℕ → List ℕ → Bool → Writer → Writer × Bool
  write_part part rest long w =
      let last = push_block (if w.filter.enable_xtls then 2 else 1) part true w in
      let end = push_block 1 part long w in
      if w.filter.is_tls && ltb 6 (length part) && starts tls_app_data part
      then (if w.filter.enable_xtls
          then (
            record last { is_padding = false; direct_write = true; raw_tail = w.raw_tail ++ rest },
            true,
          )
          else (record last { is_padding = false; out = last.out ++ rest }, true))
      else if not w.filter.is_tls12_or_above && leb w.filter.remaining_packets 1
      then (record end { is_padding = false; out = end.out ++ rest }, true)
      else (push_block 0 part long w, false)

  -- An empty second part is left out.
  abbrev pub write_second : List ℕ → Bool → Writer × Bool → Writer
  write_second [] long (w, done) = w
  write_second (b ∷ part) long (w, true) = w
  write_second (b ∷ part) long (w, false) = (write_part (b ∷ part) [] long w).0

  unfoldable pub pad_write : List ℕ → Writer → Writer
  unfolding parts write_part
  pad_write bytes w =
      let (first, second) = parts bytes in
      write_second second w.filter.is_tls (write_part first second w.filter.is_tls w)
