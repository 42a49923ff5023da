-- ===== src/Veil/Coalesce.antt =====
-- veil/src/coalesce.rs: writes are gathered until a flush. The stream below answers each write with
-- the number of bytes it takes, 0 and an error included: `polls` is what it will answer, in order,
-- and `sent` the bytes it took. Each answer is at most what was offered.
pub mod Order
use aurora_vpn.Prelude.{
  ℕ, zero, suc, ◌+◌, ◌-◌, ◌*◌, ◌/◌, ◌%◌, ◌^◌, ◌≤◌, ◌<◌, min, max, ◌≡◌, refl, sym, ap, ◌∙◌, ◌≢◌, ◌↔◌,
  ◌⊎◌, inl, inr, Bool, true, false, ◌&&◌, ◌||◌, not, Option, none, some, List, [], ◌∷◌, ◌++◌, map,
  append_assoc, append-nil, arith, ltb, leb, ◌==◌, if◌then◌else◌, ltb→lt, lt→ltb, leb→le, ==_iff,
  tests, Bool-cases, Option-cases, length, get_elem?, get_or, take, drop, replicate, length-append,
  length-take, length-drop, take-append-drop, length-map, length-replicate, Eq, ◌=?◌, =?_iff,
  nat_eq, list_beq, list_beq_iff, list_eq, pair_eq, is_some, get, remove, insert, get-remove,
  get-insert, All, IsByte, All-append, to_be, from_be, length-to_be, to_be-IsByte, byte_at,
  byte_at-IsByte, u16_be, slice?, put, length-put, ◌>>=◌, >>=-eq-some, if_intro, insert_by, sort_by,
  min_by, length-insert_by, length-sort_by,
}

abbrev pub limit : ℕ
limit = 16 * 1024

-- "PRI * HTTP/2.0\r\n\r\nSM\r\n\r\n"
abbrev pub preface : List ℕ
preface =
    80 ∷ 82 ∷ 73 ∷ 32 ∷ 42 ∷ 32 ∷ 72 ∷ 84 ∷ 84 ∷ 80 ∷ 47 ∷ 50 ∷ 46 ∷ 48 ∷ 13 ∷ 10 ∷ 13 ∷ 10 ∷ 83
    ∷ 77 ∷ 13 ∷ 10 ∷ 13 ∷ 10 ∷ []

abbrev pub starts_with : List ℕ → List ℕ → Bool
starts_with [] t = true
starts_with (k ∷ ks) [] = false
starts_with (k ∷ ks) (c ∷ t) = k == c && starts_with ks t

-- The loop over the frames behind the preface: `rest` is what stands at `off`.
unfoldable pub cut_loop : ℕ → ℕ → List ℕ → ℕ
cut_loop zero off rest = 0
cut_loop (suc fuel) off rest =
    let len = byte_at rest 0 * 65536 + u16_be (byte_at rest 1) (byte_at rest 2) in
    let kind = byte_at rest 3 in
    let later = cut_loop fuel (off + (9 + len)) (drop (9 + len) rest) in
    if ltb (length rest) 9 then 0 else if kind == 4 || kind == 8 then later else off

-- Each round takes nine bytes at least, so the length is fuel enough.
unfoldable pub opening_cut : List ℕ → ℕ
unfolding cut_loop
opening_cut buf =
    if starts_with preface buf
    then cut_loop (suc (length buf)) (length preface) (drop (length preface) buf)
    else 0

-- What a write of the stream below answers: not ready, an error, or a number of bytes.
pub data Answer : Type 0 where
  pending : Answer
  broken : Answer
  took : ℕ → Answer

pub data Poll : Type 0 where
  not_ready : Poll
  failed : Poll
  ready : ℕ → Poll

pub record Coalesce : Type 0 where
  pub sent : List ℕ
  pub records : List (List ℕ)
  pub buf : List ℕ
  pub pos : ℕ
  pub cut : ℕ
  pub opening : Bool

unfoldable pub new : Coalesce
new = record { sent = []; records = []; buf = []; pos = 0; cut = 0; opening = true }

-- What one write offers: up to the cut if it lies ahead, or all.
abbrev pub offered : Coalesce → List ℕ
offered c = take ((if ltb c.pos c.cut then c.cut else length c.buf) - c.pos) (drop c.pos c.buf)

abbrev pub accept : ℕ → Coalesce → Coalesce
accept n c = record c {
  sent = c.sent ++ take n (offered c);
  records = c.records ++ (take n (offered c) ∷ []);
  pos = c.pos + min n (length (offered c));
}

-- The loop of `poll_drain`; when the answers run out, the stream is not ready.
unfoldable pub drain : List Answer → Coalesce → Coalesce × Poll
drain [] c =
    if ltb c.pos (length c.buf)
    then (c, not_ready)
    else (record c { buf = []; pos = 0; cut = 0 }, ready 0)
drain (a ∷ as') c =
    let empty : Coalesce × Poll = (record c { buf = []; pos = 0; cut = 0 }, ready 0) in
    let go : Coalesce × Poll = elim a [
      | pending ↦ (c, not_ready)
      | broken ↦ (c, failed)
      | took n ↦ (let later = drain as' (accept n c) in if n == 0 then (c, failed) else later)
    ] in
    if ltb c.pos (length c.buf) then go else empty

-- The loop over the slices of a vectored write.
unfoldable pub fill : List (List ℕ) → ℕ → List ℕ → List ℕ × ℕ
fill [] taken buf = (buf, taken)
fill (s ∷ ss) taken buf =
    let room = limit - length buf in
    let n = min (length s) room in
    let later = fill ss (taken + n) (buf ++ take n s) in
    if room == 0
    then (buf, taken)
    else if ltb n (length s)
    then (buf ++ take n s, taken + n)
    else later

unfoldable pub gather : List (List ℕ) → Coalesce → Coalesce × Poll
unfolding fill
gather bufs c = let (buf, taken) = fill bufs 0 c.buf in (record c { buf = buf }, ready taken)

unfoldable pub write_vectored : List Answer → List (List ℕ) → Coalesce → Coalesce × Poll
unfolding drain gather
write_vectored polls bufs c =
    if leb limit (length c.buf)
    then (let (c', r) = drain polls c in
        elim r [ ready n ↦ gather bufs c' | not_ready ↦ (c', not_ready) | failed ↦ (c', failed) ])
    else gather bufs c

unfoldable pub write : List Answer → List ℕ → Coalesce → Coalesce × Poll
unfolding write_vectored
write polls bytes c = write_vectored polls (bytes ∷ []) c

-- Up to the flush of the stream below.
unfoldable pub flush : List Answer → Coalesce → Coalesce × Poll
unfolding drain opening_cut
flush polls c = drain polls (
    if c.opening && ltb 0 (length c.buf)
    then record c { opening = false; cut = opening_cut c.buf }
    else c)
