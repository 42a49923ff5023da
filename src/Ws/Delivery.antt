-- ===== src/Ws/Delivery.antt =====
-- engine/src/transport/ws.rs: no round of the loop loses, adds or swaps a byte for the reader.
use aurora_vpn.Prelude.{
  ℕ, zero, suc, ◌-◌, ◌^◌, ◌<◌, min, ◌≡◌, refl, sym, ap, ◌∙◌, inl, inr, true, false, ◌&&◌, Option,
  none, some, List, [], ◌∷◌, ◌++◌, append_assoc, arith, ltb, leb, ◌==◌, if◌then◌else◌, length, take,
  drop, length-append, length-take, length-drop, nat_eq, list_eq, pair_eq, All, if_intro,
}
use mathlib.Core.Path.{subst}
use aurora_vpn.Prelude.Slices.{drop-length-append}
use aurora_vpn.Ws.{
  more, head, parse_frame_header, Control, Ws, Polled, got, Turn, again, stop, receive, accepted,
  drain_turn, push_frame, control_turn, deliver, data_turn, open_frame, inner_turn, turn, poll_read,
}
use aurora_vpn.Prelude.Slices.{split_front}
use aurora_vpn.Ws.Frames.{plain_head, parse_frame_header-plain_head, parse_frame_header-take}
use aurora_vpn.Ws.Turns.{flat, receive_flat, measure, poll_read_ends}
use aurora_vpn.Ws.Stream.{
  Frame, IsFrame, wire, body, At, Inside, Has, Gets, Good, same-At, fill-Good, length-zero,
  take_front, header_front,
}

frame_kind : (f : Frame) → IsFrame f → f.kind < 16
frame_kind f (inl (k, n)) = omega arith
frame_kind f (inr (k, l, n)) = omega arith

frame_short : (f : Frame) → IsFrame f → length f.payload < 2 ^ 64
frame_short f (inl (k, n)) = n
frame_short f (inr (k, l, n)) = omega arith

module _ (accept : List ℕ → Option ℕ) (masks : ℕ → List ℕ)
    (takes : (bytes : List ℕ) → (k : ℕ) × (accept bytes ≡ some k)) where
  accepted_total : (bytes : List ℕ) → (k : ℕ) × (accepted accept masks bytes ≡ some k)
  accepted_total [] = (0, refl)
  accepted_total (b ∷ bytes) = takes (b ∷ bytes)

  drain_turn-Good :
      (s : Ws) (d : List ℕ) (fs : List Frame)
      → Inside s d fs
      → Good (d ++ body fs) (drain_turn accept masks s)
  drain_turn-Good s d fs (o, v, at) =
      let (k, e) = accepted_total s.wbuf in
      let s' : Ws = record s { wbuf = drop k s.wbuf; sent = s.sent ++ take k s.wbuf } in
      rw e (d, fs, (o, v, same-At s.control s s' d fs refl refl at), refl)

  control_turn-Good :
      (c : Control) (s : Ws) (d : List ℕ) (fs : List Frame)
      → s.closed ≡ false
      → All IsFrame fs
      → At (some c) s d fs
      → Good (d ++ body fs) (control_turn accept masks c s)
  control_turn-Good c s d fs o v (h1, h2, h3, rest, h4, h5) =
      let have = min (length s.buf) c.need in
      let (f1, f2) = take_front s have rest (wire fs) h5 (omega arith) (omega arith) in
      let c' : Control = record c {
        need = c.need - have;
        content = c.content ++ take have s.buf;
      } in
      let l = length-drop have rest in
      if_intro (Good (d ++ body fs)) (ltb 0 (c.need - have)) _ _
        (λ t.
          (let s' : Ws = record s { buf = drop have s.buf; control = some c' } in
            fill-Good s' d fs (o, v, (h1, h2, h3, drop have rest, omega arith, f2))))
        (λ t.
          (let s' : Ws = record s { buf = drop have s.buf; control = none } in
            let le : c.need - have ≡ 0 = ground arith in
            let nothing : drop have rest ≡ [] = length-zero (drop have rest) (omega arith) in
            let size : s.remaining ≡ length d = h2 ∙ ap length (sym h1) in
            let at : drop have s.buf ++ flat s.reads ≡ d ++ wire fs =
              f2 ∙ ap (λ r. r ++ wire fs) (nothing ∙ sym h1) in
            let i : Inside s' d fs = (o, v, (size, at)) in
            let other : (c.opcode == 8) ≡ false = ground arith in
            if_intro (Good (d ++ body fs)) (c.opcode == 9) _ _
              (λ u. drain_turn-Good (push_frame accept masks 10 c'.content s') d fs i)
              (λ u. rw other (drain_turn-Good s' d fs i))))

  deliver-Good :
      (room : ℕ) (s : Ws) (d : List ℕ) (fs : List Frame) (reads : List (List ℕ))
      → s.closed ≡ false
      → All IsFrame fs
      → s.control ≡ none
      → s.remaining ≡ length d
      → s.buf ≡ []
      → reads ≡ s.reads
      → flat s.reads ≡ d ++ wire fs
      → Good (d ++ body fs) (deliver accept masks room s (receive (min room s.remaining) reads))
  deliver-Good room s d fs [] o v off h1 empty e all =
      let at : At s.control s d fs = rw off (h1, ap (λ b. b ++ flat s.reads) empty ∙ all) in
      (d, fs, (o, v, at), refl)
  deliver-Good room s d fs (c ∷ cs) o v off h1 empty e all =
      let k = min room s.remaining in
      let part = take k c in
      let cs' = if leb (length c) k then cs else drop k c ∷ cs in
      let l = length-take k c in
      let (f1, f2) =
        split_front part (flat cs') d (wire fs) (receive_flat k c cs ∙ ap flat e ∙ all)
          (omega arith) in
      let d' = drop (length part) d in
      let ld = length-drop (length part) d in
      let s' : Ws = record s { reads = cs'; remaining = s.remaining - length part } in
      let at : At s.control s' d' fs = rw off (omega arith, ap (λ b. b ++ flat cs') empty ∙ f2) in
      (
        d' ++ body fs,
        (d', fs, (o, v, at), refl),
        sym (append_assoc part d' (body fs)) ∙ ap (λ r. r ++ body fs) f1,
      )

  data_turn-Good :
      (room : ℕ) (s : Ws) (d : List ℕ) (fs : List Frame)
      → s.closed ≡ false
      → All IsFrame fs
      → s.control ≡ none
      → At none s d fs
      → Good (d ++ body fs) (data_turn accept masks room s)
  data_turn-Good room s d fs o v off (h1, h2) =
      let n = min (min (length s.buf) s.remaining) room in
      let (f1, f2) = take_front s n d (wire fs) h2 (omega arith) (omega arith) in
      let l = length-drop n d in
      if_intro (Good (d ++ body fs)) (ltb 0 (length s.buf)) _ _
        (λ t.
          (let s' : Ws = record s { buf = drop n s.buf; remaining = s.remaining - n } in
            let i : Inside s' (drop n d) fs = (o, v, rw off (omega arith, f2)) in
            (
              drop n d ++ body fs,
              (drop n d, fs, i, refl),
              sym (append_assoc (take n s.buf) (drop n d) (body fs)) ∙ ap (λ r. r ++ body fs) f1,
            )))
        (λ t.
          (let empty : s.buf ≡ [] = length-zero s.buf (ground arith) in
            let all : flat s.reads ≡ d ++ wire fs = ap (λ b. b ++ flat s.reads) (sym empty) ∙ h2 in
            deliver-Good room s d fs s.reads o v off h1 empty refl all))

  head-Good :
      (s : Ws) (f : Frame) (fs : List Frame) (size : ℕ)
      → s.closed ≡ false
      → IsFrame f
      → All IsFrame fs
      → s.control ≡ none
      → s.remaining ≡ 0
      → drop size s.buf ++ flat s.reads ≡ f.payload ++ wire fs
      → Good (body (f ∷ fs)) (open_frame accept masks s (head f.kind (length f.payload) size))
  head-Good s f fs size o (inl (small, short)) v off h1 at =
      let t : leb f.kind 2 ≡ true = ground arith in
      let s' : Ws = record s { buf = drop size s.buf; remaining = length f.payload } in
      let i : Inside s' f.payload fs = (o, v, rw off (refl, at)) in rw t (f.payload, fs, i, refl)
  head-Good s f fs size o (inr (low, high, short)) v off h1 at =
      let t : leb f.kind 2 ≡ false = ground arith in
      let u : (leb 8 f.kind && leb f.kind 10) ≡ true = ground arith in
      let w : ltb 125 (length f.payload) ≡ false = ground arith in
      let c : Control = record { opcode = f.kind; need = length f.payload; content = [] } in
      let s' : Ws = record s { buf = drop size s.buf; control = some c } in
      let i : Inside s' [] fs = (o, v, (refl, h1, low, f.payload, refl, at)) in
      rw (t, u, w) ([], fs, i, refl)

  open_frame-Good :
      (s : Ws) (fs : List Frame)
      → s.closed ≡ false
      → All IsFrame fs
      → s.control ≡ none
      → s.remaining ≡ 0
      → s.buf ++ flat s.reads ≡ wire fs
      → Good (body fs) (open_frame accept masks s (parse_frame_header s.buf))
  unfolding parse_frame_header
  open_frame-Good s [] o v off h1 h2 =
      let empty : s.buf ≡ [] =
        length-zero s.buf
          (let a = length-append s.buf (flat s.reads) in let b = ap length h2 in omega arith) in
      let e : parse_frame_header s.buf ≡ more = ap parse_frame_header empty in
      subst (λ h. Good [] (open_frame accept masks s h)) (sym e)
        (fill-Good s [] [] (o, v, rw off (h1, h2)))
  open_frame-Good s (f ∷ fs) o (vf, v) off h1 h2 =
      let hd = plain_head f.kind (length f.payload) in
      elim (header_front s.buf (flat s.reads) hd (f.payload ++ wire fs) h2) [
        | inl (l, q) ↦
            (let e : parse_frame_header s.buf ≡ more =
                ap parse_frame_header q
                ∙ parse_frame_header-take f.kind (length f.payload) (length s.buf)
                    (frame_short f vf) l in
              subst (λ h. Good (body (f ∷ fs)) (open_frame accept masks s h)) (sym e)
                (fill-Good s [] (f ∷ fs) (o, (vf, v), rw off (h1, h2))))
        | inr (x, q, t) ↦
            (let e : parse_frame_header s.buf ≡ head f.kind (length f.payload) (length hd) =
                ap parse_frame_header q
                ∙ parse_frame_header-plain_head f.kind (length f.payload) x (frame_kind f vf)
                    (frame_short f vf) in
              let rest : drop (length hd) s.buf ++ flat s.reads ≡ f.payload ++ wire fs =
                ap (λ r. drop (length hd) r ++ flat s.reads) q
                ∙ ap (λ r. r ++ flat s.reads) (drop-length-append hd x)
                ∙ t in
              subst (λ h. Good (body (f ∷ fs)) (open_frame accept masks s h)) (sym e)
                (head-Good s f fs (length hd) o vf v off h1 rest))
      ]

  inner_turn-Good :
      (room : ℕ) (s : Ws) (d : List ℕ) (fs : List Frame) (c : Option Control)
      → s.control ≡ c
      → s.closed ≡ false
      → All IsFrame fs
      → At c s d fs
      → Good (d ++ body fs) (inner_turn accept masks room s c)
  inner_turn-Good room s d fs (some c) e o v at = control_turn-Good c s d fs o v at
  inner_turn-Good room s d fs none e o v (h1, h2) =
      if_intro (Good (d ++ body fs)) (ltb 0 s.remaining) _ _
        (λ t. data_turn-Good room s d fs o v e (h1, h2))
        (λ t.
          (let none_left : d ≡ [] = length-zero d (ground arith) in
            rw none_left
              (open_frame-Good s fs o v e (ground arith) (h2 ∙ ap (λ r. r ++ wire fs) none_left))))

  turn-Good :
      (room : ℕ) (s : Ws) (d : List ℕ) (fs : List Frame)
      → Inside s d fs
      → Good (d ++ body fs) (turn accept masks room s)
  unfolding turn
  turn-Good room s d fs (o, v, at) =
      if_intro (Good (d ++ body fs)) s.closed (stop s (got [])) _ (λ t. absurd (cc))
        (λ t. inner_turn-Good room s d fs s.control refl o v at)

  rounds-Good :
      (fuel room : ℕ) (text : List ℕ) (t : Turn) (s' : Ws) (p : Polled)
      → ((s : Ws) → Has s text → poll_read accept masks fuel room s ≡ some (s', p) → Gets text s' p)
      → Good text t
      → elim t [ stop s2 q ↦ some (s2, q) | again s2 ↦ poll_read accept masks fuel room s2 ]
        ≡ some (s', p)
      → Gets text s' p
  rounds-Good fuel room text (stop s q) s' p more_rounds h e =
      let e1 : s ≡ s' = ap (λ o. elim o [ none ↦ s | some r ↦ r.0 ]) e in
      let e2 : q ≡ p = ap (λ o. elim o [ none ↦ q | some r ↦ r.1 ]) e in
      subst (λ r. Gets text r p) e1 (subst (λ r. Gets text s r) e2 h)
  rounds-Good fuel room text (again s) s' p more_rounds h e = more_rounds s h e

  poll_read_front :
      (fuel room : ℕ) (text : List ℕ) (s s' : Ws) (p : Polled)
      → Has s text
      → poll_read accept masks fuel room s ≡ some (s', p)
      → Gets text s' p
  unfolding poll_read
  poll_read_front zero room text s s' p h e = absurd (cc)
  poll_read_front (suc fuel) room text s s' p (d, fs, i, same) e =
      rounds-Good fuel room text (turn accept masks room s) s' p
        (λ r. poll_read_front fuel room text r s' p)
        (subst (λ x. Good x (turn accept masks room s)) same (turn-Good room s d fs i)) e

  -- If every write below is taken in part or whole, and a stream that is not closed has `text` for
  -- its reader in the frames that its bytes and its coming reads make up, data, pings and pongs in
  -- any cut, then with fuel above the measure a read ends without an error, and what it gives is the
  -- front of `text`, of which the stream still has the rest.
  pub poll_read-Gets :
      (fuel room : ℕ) (text : List ℕ) (s : Ws)
      → Has s text
      → measure s < fuel
      → (s' : Ws) × (p : Polled) × (poll_read accept masks fuel room s ≡ some (s', p))
        × Gets text s' p
  poll_read-Gets fuel room text s h m =
      let (s', p, e) = poll_read_ends accept masks fuel room s m in
      (s', p, e, poll_read_front fuel room text s s' p h e)
