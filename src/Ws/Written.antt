-- ===== src/Ws/Written.antt =====
-- engine/src/transport/ws.rs: what a write puts on its way.
use aurora_vpn.Prelude.{
  ℕ, zero, suc, ◌<◌, min, ◌≡◌, refl, sym, ap, ◌∙◌, Option, none, some, List, [], ◌∷◌, ◌++◌,
  append_assoc, arith, ltb, ◌==◌, length, take, drop, length-take, take-append-drop, nat_eq,
  list_eq, pair_eq, >>=-eq-some, if_intro,
}
use aurora_vpn.Ws.{
  Ws, Polled, pending, failed, got, accepted, drain, push_frame, encode_frame, wrote, write_drained,
  poll_write, max_frame,
}

-- What went out and what waits to go out, in order.
abbrev pub outgoing : Ws → List ℕ
outgoing s = s.sent ++ s.wbuf

-- A write takes a front of its bytes of at most one frame and puts this frame behind what was on its way;
-- where it takes nothing, what is on its way stays.
abbrev pub IsWritten : List ℕ → List ℕ → Ws → Ws × Polled → Type 0
IsWritten mask bytes s (s', failed) = Unit
IsWritten mask bytes s (s', pending) = outgoing s' ≡ outgoing s
IsWritten mask bytes s (s', got []) = outgoing s' ≡ outgoing s
IsWritten mask bytes s (s', got (b ∷ part)) =
    (b ∷ part ≡ take max_frame bytes)
    × (outgoing s' ≡ outgoing s ++ encode_frame mask 2 (b ∷ part) [])

take_at_most : (n : ℕ) (bytes : List ℕ) → take (min (length bytes) n) bytes ≡ take n bytes
take_at_most zero bytes = let e : min (length bytes) 0 ≡ 0 = omega arith in rw e refl
take_at_most (suc n) [] = let e : min 0 (suc n) ≡ 0 = omega arith in rw e refl
take_at_most (suc n) (b ∷ bytes) =
    let e : min (suc (length bytes)) (suc n) ≡ suc (min (length bytes) n) = omega arith in
    rw e (ap (λ r. b ∷ r) (take_at_most n bytes))

module _ (accept : List ℕ → Option ℕ) (masks : ℕ → List ℕ) where
  outgoing-drain :
      (s s' : Ws)
      → drain accept masks s ≡ some s'
      → (outgoing s' ≡ outgoing s) × (s'.frames ≡ s.frames)
  outgoing-drain s s' e =
      let (k, ek, es) = >>=-eq-some (accepted accept masks s.wbuf) _ e in
      let keep : s.sent ++ take k s.wbuf ++ drop k s.wbuf ≡ outgoing s =
        append_assoc s.sent (take k s.wbuf) (drop k s.wbuf)
        ∙ ap (λ r. s.sent ++ r) (take-append-drop k s.wbuf) in
      (
        ap (λ o. elim o [ none ↦ [] | some r ↦ outgoing r ]) (sym es) ∙ keep,
        ap (λ o. elim o [ none ↦ s.frames | some r ↦ r.frames ]) (sym es),
      )

  outgoing-push_frame :
      (opcode : ℕ) (payload : List ℕ) (s : Ws)
      → outgoing (push_frame accept masks opcode payload s)
        ≡ outgoing s ++ encode_frame (masks s.frames) opcode payload []
  unfolding encode_frame
  outgoing-push_frame opcode payload s =
      sym (append_assoc s.sent s.wbuf (encode_frame (masks s.frames) opcode payload []))

  wrote-IsWritten :
      (mask bytes part : List ℕ) (s s2 : Ws) (o : Option Ws)
      → part ≡ take max_frame bytes
      → 0 < length part
      → outgoing s2 ≡ outgoing s ++ encode_frame mask 2 part []
      → drain accept masks s2 ≡ o
      → IsWritten mask bytes s (wrote accept masks part s2 o)
  wrote-IsWritten mask bytes part s s2 none front some_bytes there e = tt
  wrote-IsWritten mask bytes [] s s2 (some s3) front some_bytes there e = absurd (omega arith)
  wrote-IsWritten mask bytes (b ∷ part) s s2 (some s3) front some_bytes there e =
      (front, (outgoing-drain s2 s3 e).0 ∙ there)

  write_drained-IsWritten :
      (bytes : List ℕ) (s : Ws) (o : Option Ws)
      → drain accept masks s ≡ o
      → IsWritten (masks s.frames) bytes s (write_drained accept masks bytes s o)
  write_drained-IsWritten bytes s none e = tt
  write_drained-IsWritten bytes s (some s1) e =
      let (keep, count) = outgoing-drain s s1 e in
      let P = IsWritten (masks s.frames) bytes s in
      let part = take (min (length bytes) max_frame) bytes in
      let s2 = push_frame accept masks 2 part s1 in
      let l = length-take (min (length bytes) max_frame) bytes in
      let there : outgoing s2 ≡ outgoing s ++ encode_frame (masks s.frames) 2 part [] =
        outgoing-push_frame 2 part s1
        ∙ ap (λ r. r ++ encode_frame (masks s1.frames) 2 part []) keep
        ∙ ap (λ n. outgoing s ++ encode_frame (masks n) 2 part []) count in
      if_intro P (ltb 0 (length s1.wbuf)) _ _ (λ t. keep)
        (λ t.
          if_intro P (length bytes == 0) _ _ (λ u. keep)
            (λ u.
              wrote-IsWritten (masks s.frames) bytes part s s2 (drain accept masks s2)
                (take_at_most max_frame bytes) (ground arith) there refl))

  -- Whatever the connection takes, a write that gets through takes the first 16384 bytes at most of
  -- what it is given and puts one frame with them behind all that was on its way, and a write that
  -- takes nothing and does not fail leaves what is on its way as it was.
  pub poll_write-IsWritten :
      (bytes : List ℕ) (s : Ws)
      → IsWritten (masks s.frames) bytes s (poll_write accept masks bytes s)
  unfolding poll_write
  poll_write-IsWritten bytes s = write_drained-IsWritten bytes s (drain accept masks s) refl
