-- ===== src/Veil/Codec/Stream.antt =====
-- veil/src/codec.rs: what a sealer writes an opener reads, in order.
use aurora_vpn.Prelude.{
  ℕ, zero, suc, ◌+◌, ◌-◌, ◌/◌, ◌%◌, ◌^◌, ◌≤◌, ◌<◌, ◌≡◌, refl, sym, ap, ◌∙◌, true, false, Option,
  some, List, [], ◌∷◌, ◌++◌, arith, ltb, leb, length, take, drop, replicate, length-append,
  length-replicate, nat_eq, list_eq, pair_eq, All, to_be, u16_be, ◌>>=◌,
}
use aurora_vpn.Prelude.Slices.{take-length-append, drop-length-append}
use aurora_vpn.Veil.Codec.{
  tag_len, shape_max, max_record_data, Aead, Sealer, Draw, IsDraw, padding, plain, failed, waiting,
  got, Opener, push, content, seal, open_record, next,
}

padding_bound : (d : Draw) (len : ℕ) (s : Sealer) → IsDraw d → (padding d len s).1 ≤ shape_max
unfolding padding
padding_bound d len s h = ground (arith, h.0, h.1, h.2)

padding_counter : (d : Draw) (len : ℕ) (s : Sealer) → (padding d len s).0.counter ≡ s.counter
unfolding padding
padding_counter d len s = ground arith

-- The size of a record on the wire.
abbrev pub wire_of : Aead → ℕ → ℕ → List ℕ → ℕ → List ℕ
wire_of aead n kind bytes pad =
    let (text, tag) = aead.encrypt n (plain kind bytes pad) in
    to_be 2 ((1 + 2 + length bytes + pad + tag_len) % 2 ^ 16) ++ (text ++ tag)

length-plain :
    (kind : ℕ) (bytes : List ℕ) (pad : ℕ)
    → length (plain kind bytes pad) ≡ 1 + 2 + length bytes + pad
length-plain kind bytes pad =
    let a = length-append bytes (replicate pad 0) in
    let b = length-replicate {A = ℕ} pad 0 in omega arith

content-plain :
    (kind : ℕ) (bytes : List ℕ) (pad : ℕ)
    → length bytes < 65536
    → content (plain kind bytes pad) ≡ got kind bytes
unfolding content
content-plain kind bytes pad h =
    let n : u16_be (length bytes / 256 ^ 1 % 256) (length bytes / 256 ^ 0 % 256) ≡ length bytes =
      omega arith in
    let l = length-plain kind bytes pad in
    let fits : leb (3 + length bytes) (length (plain kind bytes pad)) ≡ true = ground arith in
    rw (n, fits, take-length-append bytes (replicate pad 0)) refl

module _ (aead : Aead) where
  -- Opening what was sealed under the same counter.
  open_record-sealed :
      (n kind pad sealed : ℕ) (bytes rest : List ℕ)
      → length bytes < 65536
      → sealed ≡ 1 + 2 + length bytes + pad + tag_len
      → open_record aead sealed
          ((aead.encrypt n (plain kind bytes pad)).0 ++ (aead.encrypt n (plain kind bytes pad)).1)
          (record { counter = n; buf = rest })
        ≡ (record { counter = n + 1; buf = rest }, got kind bytes)
  unfolding open_record
  open_record-sealed n kind pad sealed bytes rest h size =
      let p = plain kind bytes pad in
      let text = (aead.encrypt n p).0 in
      let tag = (aead.encrypt n p).1 in
      let lt = aead.length_text n p in
      let lp = length-plain kind bytes pad in
      let e : sealed - tag_len ≡ length text = omega arith in
      rw
        (
          open_record,
          e,
          take-length-append text tag,
          drop-length-append text tag,
          aead.opens n p,
          content-plain kind bytes pad h,
        )
        refl

  next-wire :
      (n kind pad : ℕ) (bytes rest : List ℕ)
      → length bytes ≤ max_record_data
      → pad ≤ shape_max
      → next aead (record { counter = n; buf = wire_of aead n kind bytes pad ++ rest })
        ≡ (record { counter = n + 1; buf = rest }, got kind bytes)
  unfolding next
  next-wire n kind pad bytes rest hb hp =
      let p = plain kind bytes pad in
      let text = (aead.encrypt n p).0 in
      let tag = (aead.encrypt n p).1 in
      let lt = aead.length_text n p in
      let lg = aead.length_tag n p in
      let lp = length-plain kind bytes pad in
      let sealed = 1 + 2 + length bytes + pad + tag_len in
      let la = length-append text tag in
      let lr = length-append (text ++ tag) rest in
      let size : sealed ≡ length (text ++ tag) = omega arith in
      let v = sealed % 2 ^ 16 in
      let same : u16_be (v / 256 ^ 1 % 256) (v / 256 ^ 0 % 256) ≡ sealed = omega arith in
      let f1 : ltb (length (wire_of aead n kind bytes pad ++ rest)) 2 ≡ false = ground arith in
      let f2 : ltb sealed (1 + 2 + tag_len) ≡ false = ground arith in
      let f3 : ltb (length (wire_of aead n kind bytes pad ++ rest)) (2 + sealed) ≡ false =
        ground arith in
      let e1 : take sealed ((text ++ tag) ++ rest) ≡ text ++ tag =
        rw size (take-length-append (text ++ tag) rest) in
      let e2 : drop sealed ((text ++ tag) ++ rest) ≡ rest =
        rw size (drop-length-append (text ++ tag) rest) in
      let o = open_record-sealed n kind pad sealed bytes rest (omega arith) refl in
      let s2 : 2 + sealed ≡ suc (suc sealed) = omega arith in
      rw (next, f1, same, f2, f3, s2, e1, e2) o

  -- What `seal` puts out is one record under the sealer's counter, which it raises by one.
  seal-wire :
      (d : Draw) (kind : ℕ) (bytes : List ℕ) (s : Sealer)
      → IsDraw d
      → length bytes ≤ max_record_data
      → (s' : Sealer) × (pad : ℕ) × (seal aead d kind bytes s
          ≡ some (s', wire_of aead s.counter kind bytes pad))
        × (pad ≤ shape_max)
        × (s'.counter ≡ s.counter + 1)
  unfolding seal
  seal-wire d kind bytes s hd hb =
      let fits : leb (length bytes) max_record_data ≡ true = ground arith in
      let s1 = (padding d (length bytes) s).0 in
      let pad = (padding d (length bytes) s).1 in
      let c = padding_counter d (length bytes) s in
      (
        record s1 { counter = s1.counter + 1 },
        pad,
        rw (seal, fits, c) refl,
        padding_bound d (length bytes) s hd,
        omega arith,
      )

-- The messages of a stream, each with the lengths drawn for it.
abbrev pub Message : Type 0
Message = Draw × ℕ × List ℕ

abbrev pub IsMessage : Message → Type 0
IsMessage m = IsDraw m.0 × (length m.2 ≤ max_record_data)

abbrev pub send : Aead → List Message → Sealer → Option (Sealer × List ℕ)
send aead [] s = some (s, [])
send aead ((d, kind, bytes) ∷ ms) s =
    seal aead d kind bytes s >>= (λ r. send aead ms r.0 >>= (λ q. some (q.0, r.1 ++ q.1)))

-- The reader's loop: it takes records until there is no whole one, at most `fuel` of them.
abbrev pub receive : Aead → ℕ → Opener → Opener × List (ℕ × List ℕ)
receive aead zero o = (o, [])
receive aead (suc fuel) o =
    let (o', r) = next aead o in
    elim r [
      | got kind bytes ↦ (let (o2, rest) = receive aead fuel o' in (o2, (kind, bytes) ∷ rest))
      | waiting ↦ (o', [])
      | failed e ↦ (o', [])
    ]

abbrev pub contents : List Message → List (ℕ × List ℕ)
contents [] = []
contents ((d, kind, bytes) ∷ ms) = (kind, bytes) ∷ contents ms

next_empty :
    (aead : Aead) (c : ℕ)
    → receive aead 1 (record { counter = c; buf = [] }) ≡ (record { counter = c; buf = [] }, [])
unfolding next
next_empty aead c = refl

receive_got :
    (aead : Aead) (fuel : ℕ) (o o' : Opener) (kind : ℕ) (bytes : List ℕ)
    → next aead o ≡ (o', got kind bytes)
    → receive aead (suc fuel) o
      ≡ ((receive aead fuel o').0, (kind, bytes) ∷ (receive aead fuel o').1)
receive_got aead fuel o o' kind bytes e = rw (receive, e) (rw e refl)

-- For a cipher that opens what it sealed under the same counter, every list of messages within the
-- record limit is sealed, and an opener that starts at the sealer's counter and gets all the bytes
-- reads the same kinds and data in the same order, with no byte left over and its counter equal to
-- the sealer's.
pub receive-send :
    (aead : Aead) (ms : List Message) (s : Sealer)
    → All IsMessage ms
    → (s' : Sealer) × (wire : List ℕ) × (send aead ms s ≡ some (s', wire))
      × (receive aead (suc (length ms)) (push wire (record { counter = s.counter; buf = [] }))
          ≡ (record { counter = s'.counter; buf = [] }, contents ms))
unfolding push
receive-send aead [] s h = (s, [], refl, next_empty aead s.counter)
receive-send aead ((d, kind, bytes) ∷ ms) s h =
    let (s1, pad, e, hp, hc) = seal-wire aead d kind bytes s h.0.0 h.0.1 in
    let (s2, wire, e2, r) = receive-send aead ms s1 h.1 in
    let n = next-wire aead s.counter kind pad bytes wire h.0.1 hp in
    (
      s2,
      wire_of aead s.counter kind bytes pad ++ wire,
      rw (e, e2) refl,
      receive_got aead (suc (length ms)) _ _ kind bytes n
          ∙ ap {A = Opener × List (ℕ × List ℕ)} (λ q. (q.0, (kind, bytes) ∷ q.1)) (rw (sym hc) r),
    )
