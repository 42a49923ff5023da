-- ===== src/Vless/Vision/Writes.antt =====
-- engine/src/outbound/vless.rs: what `pad_write` puts out is what the peer reads.
use aurora_vpn.Prelude.{
  ℕ, ◌-◌, ◌<◌, ◌≡◌, refl, sym, ap, ◌∙◌, ◌⊎◌, inl, inr, Bool, true, false, ◌&&◌, not, List, [], ◌∷◌,
  ◌++◌, append_assoc, append-nil, arith, ltb, leb, if◌then◌else◌, length, length-append,
  take-append-drop, nat_eq, list_eq, pair_eq, if_intro,
}
use mathlib.Core.Path.{subst}
use aurora_vpn.Vless.{pad_len, block, or_nothing, pad_into, behind, Unpad}
use aurora_vpn.Vless.Pieces.{run, run-append, run_tail}
use aurora_vpn.Vless.Blocks.{between, run-block}
use aurora_vpn.Vless.Vision.{
  starts, tls_app_data, chunk, last_app, cut_at, parts, Writer, uuid_once, push_block, write_part,
  write_second, pad_write,
}

-- The command of the block that has been written last.
abbrev pub last_command : Writer → ℕ
last_command w = if w.is_padding then 0 else if w.direct_write then 2 else 1

-- Behind `out` and the identifier, if it is still due, stand blocks that a reader turns into the first
-- part of the bytes; what is left of them has been put behind `raw_tail`, which is sent past TLS.
abbrev pub Wrote : List ℕ → Writer → Writer → Type 0
Wrote bytes w v =
    (new text left : List ℕ) × (v.out ≡ w.out ++ (or_nothing (uuid_once w) ++ new))
    × (v.raw_tail ≡ w.raw_tail ++ left)
    × (text ++ left ≡ bytes)
    × ((left ≡ []) ⊎ (v.direct_write ≡ true))
    × ((uuid : List ℕ) → run new (between uuid 0) ≡ (between uuid (last_command v), text))

-- Still padding, with the identifier written.
abbrev Padding : Writer → Type 0
Padding w = (w.is_padding ≡ true) × (w.direct_write ≡ false) × (w.write_uuid ≡ false)

abbrev Outcome : List ℕ → List ℕ → Writer → Writer × Bool → Type 0
Outcome part rest w (v, true) = Wrote (part ++ rest) w v
Outcome part rest w (v, false) = Wrote part w v × Padding v

pad_len_bound : (long : Bool) (r n : ℕ) → pad_len long r n < 65536
pad_len_bound long r n = ground arith

module _ (random : ℕ → ℕ) (part rest : List ℕ) (long : Bool) (w : Writer)
    (pad : w.is_padding ≡ true) (indirect : w.direct_write ≡ false)
    (short : length part < 65536) where
  own_block :
      (uuid : List ℕ) (c : ℕ) (l : Bool)
      → run (block c part (pad_len l (random w.frames) (length part))) (between uuid 0)
        ≡ (between uuid c, part)
  own_block uuid c l =
      run-block uuid 0 c part (pad_len l (random w.frames) (length part)) (λ q. omega arith) short
        (pad_len_bound l (random w.frames) (length part))

  direct_part : Wrote (part ++ rest) w (record (push_block random 2 part true w) {
    is_padding = false;
    direct_write = true;
    raw_tail = w.raw_tail ++ rest;
  })
  unfolding pad_into
  direct_part = (
    block 2 part (pad_len true (random w.frames) (length part)),
    part,
    rest,
    refl,
    refl,
    refl,
    inr refl,
    λ uuid. own_block uuid 2 true,
  )

  end_part :
      (l : Bool)
      → Wrote (part ++ rest) w (record (push_block random 1 part l w) {
        is_padding = false;
        out = (push_block random 1 part l w).out ++ rest;
      })
  unfolding pad_into
  end_part l =
      let b = block 1 part (pad_len l (random w.frames) (length part)) in
      let u = or_nothing (uuid_once w) in
      let v : Writer = record (push_block random 1 part l w) {
        is_padding = false;
        out = (push_block random 1 part l w).out ++ rest;
      } in
      let c : last_command v ≡ 1 = rw indirect refl in
      (
        b ++ rest,
        part ++ rest,
        [],
        append_assoc w.out (u ++ b) rest ∙ ap (λ x. w.out ++ x) (append_assoc u b rest),
        sym (append-nil w.raw_tail),
        append-nil (part ++ rest),
        inl refl,
        λ uuid.
            run-append b rest (between uuid 0)
            ∙ ap (λ r. behind r.1 (run rest r.0)) (own_block uuid 1 l)
            ∙ ap (behind part) (run_tail rest (between uuid 1) refl refl refl)
            ∙ ap (λ k. (between uuid k, part ++ rest)) (sym c),
      )

  more_part :
      Wrote part w (push_block random 0 part long w) × Padding (push_block random 0 part long w)
  unfolding pad_into
  more_part =
      let b = block 0 part (pad_len long (random w.frames) (length part)) in
      let v = push_block random 0 part long w in
      let c : last_command v ≡ 0 = rw pad refl in
      (
        (
          b,
          part,
          [],
          refl,
          sym (append-nil w.raw_tail),
          append-nil part,
          inl refl,
          λ uuid. own_block uuid 0 long ∙ ap (λ k. (between uuid k, part)) (sym c),
        ),
        (pad, indirect, refl),
      )

  write_part-Outcome : Outcome part rest w (write_part random part rest long w)
  unfolding write_part
  write_part-Outcome =
      let P = Outcome part rest w in
      if_intro P (w.filter.is_tls && ltb 6 (length part) && starts tls_app_data part) _ _
        (λ t.
          if_intro P w.filter.enable_xtls _ _ (λ y. rw y direct_part) (λ y. rw y (end_part true)))
        (λ t.
          if_intro P (not w.filter.is_tls12_or_above && leb w.filter.remaining_packets 1) _ _
            (λ y. end_part long) (λ y. more_part))

no_left :
    (left : List ℕ) (v : Writer)
    → v.direct_write ≡ false
    → (left ≡ []) ⊎ (v.direct_write ≡ true)
    → left ≡ []
no_left left v d (inl e) = e
no_left left v d (inr e) = absurd (cc)

behind_run :
    (a b : List ℕ) (u v z : Unpad) (s t : List ℕ)
    → run a u ≡ (v, s)
    → run b v ≡ (z, t)
    → run (a ++ b) u ≡ (z, s ++ t)
behind_run a b u v z s t e f =
    run-append a b u ∙ ap (λ r. behind r.1 (run b r.0)) e ∙ ap (behind s) f

Wrote-append :
    (a b : List ℕ) (w v z : Writer) → Wrote a w v → Padding v → Wrote b v z → Wrote (a ++ b) w z
Wrote-append a b w v z (n1, t1, l1, o1, r1, e1, d1, m1) (pad, direct, done)
      (n2, t2, l2, o2, r2, e2, d2, m2) =
    let empty = no_left l1 v direct d1 in
    let text : t1 ≡ a = sym (append-nil t1) ∙ ap (λ l. t1 ++ l) (sym empty) ∙ e1 in
    let tail : v.raw_tail ≡ w.raw_tail =
      r1 ∙ ap (λ l. w.raw_tail ++ l) empty ∙ append-nil w.raw_tail in
    let once : or_nothing (uuid_once v) ≡ [] = rw done refl in
    let zero_last : last_command v ≡ 0 = rw pad refl in
    let u = or_nothing (uuid_once w) in
    (
      n1 ++ n2,
      t1 ++ t2,
      l2,
      o2
          ∙ ap (λ o. o ++ (or_nothing (uuid_once v) ++ n2)) o1
          ∙ ap (λ x. (w.out ++ (u ++ n1)) ++ (x ++ n2)) once
          ∙ append_assoc w.out (u ++ n1) n2
          ∙ ap (λ x. w.out ++ x) (append_assoc u n1 n2),
      r2 ∙ ap (λ x. x ++ l2) tail,
      append_assoc t1 t2 l2 ∙ ap (λ x. t1 ++ x) e2 ∙ ap (λ x. x ++ b) text,
      d2,
      λ uuid.
          behind_run n1 n2 (between uuid 0) (between uuid 0) (between uuid (last_command z)) t1 t2
            (m1 uuid ∙ ap (λ k. (between uuid k, t1)) zero_last) (m2 uuid),
    )

Outcome-nil :
    (part : List ℕ) (w : Writer) (r : Writer × Bool) → Outcome part [] w r → Wrote part w r.0
Outcome-nil part w (v, true) h = subst (λ p. Wrote p w v) (append-nil part) h
Outcome-nil part w (v, false) (h, p) = h

parts-append : (bytes : List ℕ) → (parts bytes).0 ++ (parts bytes).1 ≡ bytes
unfolding parts
parts-append bytes =
    if_intro (λ (r : List ℕ × List ℕ). r.0 ++ r.1 ≡ bytes) (leb (chunk - 21) (length bytes)) _ _
      (λ t. take-append-drop (cut_at (last_app bytes)) bytes) (λ t. append-nil bytes)

module _ (random : ℕ → ℕ) where
  write_second-Wrote :
      (first second : List ℕ) (long : Bool) (w : Writer) (r : Writer × Bool)
      → length second < 65536
      → Outcome first second w r
      → Wrote (first ++ second) w (write_second random second long r)
  write_second-Wrote first [] long w (v, true) h o = o
  write_second-Wrote first [] long w (v, false) h (o, p) =
      subst (λ x. Wrote x w v) (sym (append-nil first)) o
  write_second-Wrote first (b ∷ second) long w (v, true) h o = o
  write_second-Wrote first (b ∷ second) long w (v, false) h (o, (p, d, f)) =
      let r = write_part random (b ∷ second) [] long v in
      Wrote-append first (b ∷ second) w v r.0 o (p, d, f)
        (Outcome-nil (b ∷ second) v r (write_part-Outcome random (b ∷ second) [] long v p d h))

  -- While a connection is padded, a write of fewer than 65536 bytes, whatever the filter has seen
  -- and the random numbers are, puts behind out the identifier if it is still due and then bytes
  -- that the byte-by-byte reader of blocks, from between two blocks, turns into the first part of
  -- the bytes written, and ends between blocks under the command 0, 1 or 2 that the writer's state
  -- says; the rest of the bytes is put behind raw_tail, and is empty unless writing is direct from
  -- now on.
  pub pad_write-Wrote :
      (bytes : List ℕ) (w : Writer)
      → w.is_padding ≡ true
      → w.direct_write ≡ false
      → length bytes < 65536
      → Wrote bytes w (pad_write random bytes w)
  unfolding pad_write
  pad_write-Wrote bytes w pad direct h =
      let first = (parts bytes).0 in
      let second = (parts bytes).1 in
      let whole = parts-append bytes in
      let l = length-append first second in
      let l2 : length (first ++ second) ≡ length bytes = ap length whole in
      let long = w.filter.is_tls in
      subst (λ x. Wrote x w (pad_write random bytes w)) whole
        (write_second-Wrote first second long w (write_part random first second long w)
          (omega arith) (write_part-Outcome random first second long w pad direct (omega arith)))
