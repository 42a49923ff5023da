-- ===== src/Ws/Turns.antt =====
-- engine/src/transport/ws.rs: the loop of `poll_read` ends.
use aurora_vpn.Prelude.{
  ℕ, zero, suc, ◌+◌, ◌-◌, ◌*◌, ◌%◌, ◌≤◌, ◌<◌, min, ◌≡◌, refl, sym, ap, ◌∙◌, inl, inr, ◌&&◌, Option,
  none, some, List, [], ◌∷◌, ◌++◌, append_assoc, arith, ltb, leb, ◌==◌, if◌then◌else◌, Bool-cases,
  Option-cases, length, take, drop, length-append, length-drop, take-append-drop, nat_eq, list_eq,
  pair_eq, slice?, if_intro,
}
use aurora_vpn.Ws.{
  Head, more, refused, head, parse_frame_header, sized, Control, Ws, Polled, failed, got, Turn,
  again, stop, receive, filled, fill, accepted, drain_turn, push_frame, finish, control_turn,
  deliver, open_frame, inner_turn, turn, poll_read,
}

-- The bytes that the reads will bring.
abbrev pub flat : List (List ℕ) → List ℕ
flat [] = []
flat (c ∷ cs) = c ++ flat cs

abbrev pub held : Option Control → ℕ
held none = 0
held (some c) = 1

-- Each round spends some of this: it moves bytes into the buffer, takes bytes from it, or ends a control frame.
abbrev pub measure : Ws → ℕ
measure s = 3 * length (flat s.reads) + 2 * length s.buf + held s.control

-- What a round leaves, if another one follows.
abbrev pub After : (Ws → Type 0) → Turn → Type 0
After P (again s) = P s
After P (stop s p) = Unit

take_whole : (k : ℕ) (c : List ℕ) → length c ≤ k → take k c ≡ c
take_whole zero [] h = refl
take_whole zero (x ∷ c) h = absurd (omega arith)
take_whole (suc k) [] h = refl
take_whole (suc k) (x ∷ c) h = ap (λ r. x ∷ r) (take_whole k c (omega arith))

-- A read takes a part of the bytes from their front.
pub receive_flat :
    (k : ℕ) (c : List ℕ) (cs : List (List ℕ))
    → take k c ++ flat (if leb (length c) k then cs else drop k c ∷ cs) ≡ flat (c ∷ cs)
receive_flat k c cs = elim (Bool-cases (leb (length c) k)) [
  | inl t ↦ rw (t, take_whole k c (ground arith)) refl
  | inr t ↦ rw t (
      sym (append_assoc (take k c) (drop k c) (flat cs))
      ∙ ap (λ r. r ++ flat cs) (take-append-drop k c))
]

filled_less :
    (s : Ws) (c : List ℕ) (cs : List (List ℕ))
    → c ++ flat cs ≡ flat s.reads
    → After (λ s'. measure s' < measure s) (filled s (some (c, cs)))
filled_less s [] cs e = tt
filled_less s (b ∷ c) cs e =
    let a = length-append c (flat cs) in
    let l = ap length e in let g = length-append s.buf (b ∷ c) in omega arith

receive_less :
    (s : Ws) (k : ℕ) (reads : List (List ℕ))
    → reads ≡ s.reads
    → After (λ s'. measure s' < measure s) (filled s (receive k reads))
receive_less s k [] e = tt
receive_less s k (c ∷ cs) e =
    filled_less s (take k c) (if leb (length c) k then cs else drop k c ∷ cs)
      (receive_flat k c cs ∙ ap flat e)

fill_less : (s : Ws) → After (λ s'. measure s' < measure s) (fill s)
fill_less s = receive_less s (16384 - length s.buf) s.reads refl

weaken-After :
    (m n : ℕ) (t : Turn) → m ≤ n → After (λ s. measure s < m) t → After (λ s. measure s < n) t
weaken-After m n (again s) h a = omega arith
weaken-After m n (stop s p) h a = tt

-- A header that is read has two bytes or more, and lies in the buffer.
abbrev Within : ℕ → Head → Type 0
Within n more = Unit
Within n refused = Unit
Within n (head opcode len size) = (2 ≤ size) × (size ≤ n)

sized-Within :
    (opcode size n : ℕ) (rest : List ℕ)
    → size ≡ n + 2
    → Within (suc (suc (length rest))) (sized opcode size (slice? rest 0 n))
sized-Within opcode size n rest h = elim (Bool-cases (leb (0 + n) (length rest))) [
  | inl t ↦ rw t (omega arith, ground arith)
  | inr t ↦ rw t tt
]

parse_frame_header-Within : (p : List ℕ) → Within (length p) (parse_frame_header p)
unfolding parse_frame_header
parse_frame_header-Within [] = tt
parse_frame_header-Within (b ∷ []) = tt
parse_frame_header-Within (b ∷ c ∷ rest) =
    let P = Within (suc (suc (length rest))) in
    if_intro P (leb 128 c) _ _ (λ t. tt)
      (λ t.
        if_intro P (c % 128 == 126) _ _ (λ u. sized-Within (b % 16) 4 2 rest refl)
          (λ u.
            if_intro P (c % 128 == 127) _ _ (λ v. sized-Within (b % 16) 10 8 rest refl)
              (λ v. (omega arith, omega arith))))

module _ (accept : List ℕ → Option ℕ) (masks : ℕ → List ℕ) where
  drain_less :
      (s : Ws) (n : ℕ) → measure s < n → After (λ s'. measure s' < n) (drain_turn accept masks s)
  drain_less s n h = elim (Option-cases (accepted accept masks s.wbuf)) [
    | inl e ↦ rw e tt
    | inr (k, e) ↦ rw e h
  ]

  finish_less :
      (c : Control) (s : Ws) (n : ℕ)
      → measure s < n
      → After (λ s'. measure s' < n) (finish accept masks c s)
  finish_less c s n h = elim (Bool-cases (c.opcode == 9)) [
    | inl t ↦ rw t (drain_less (push_frame accept masks 10 c.content s) n h)
    | inr t ↦ elim (Bool-cases (c.opcode == 8)) [
      | inl u ↦ rw (t, u) tt
      | inr u ↦ rw (t, u) (drain_less s n h)
    ]
  ]

  control_less :
      (c : Control) (s : Ws)
      → s.control ≡ some c
      → After (λ s'. measure s' < measure s) (control_turn accept masks c s)
  control_less c s e =
      let have = min (length s.buf) c.need in
      let l = length-drop have s.buf in
      let c' : Control = record c {
        need = c.need - have;
        content = c.content ++ take have s.buf;
      } in
      let on = ap held e in
      elim (Bool-cases (ltb 0 (c.need - have))) [
        | inl t ↦ rw t (
            let s' : Ws = record s { buf = drop have s.buf; control = some c' } in
            weaken-After (measure s') (measure s) (fill s') (omega arith) (fill_less s'))
        | inr t ↦ rw t (
            let s' : Ws = record s { buf = drop have s.buf; control = none } in
            finish_less c' s' (measure s) (omega arith))
      ]

  open_less :
      (s : Ws) (h : Head)
      → s.control ≡ none
      → parse_frame_header s.buf ≡ h
      → After (λ s'. measure s' < measure s) (open_frame accept masks s h)
  open_less s more off e = fill_less s
  open_less s refused off e = tt
  open_less s (head opcode len size) off e =
      let fits = rw e at (parse_frame_header-Within s.buf) in
      let l = length-drop size s.buf in
      let out = ap held off in
      let s' : Ws = record s { buf = drop size s.buf } in
      let P = After (λ s'. measure s' < measure s) in
      if_intro P (leb opcode 2) _ _ (λ t. omega (arith, fits))
        (λ t.
          if_intro P (leb 8 opcode && leb opcode 10) _ _
            (λ u. if_intro P (ltb 125 len) (stop s' failed) _ (λ v. tt) (λ v. omega (arith, fits)))
            (λ u. tt))

  deliver_ends :
      (room : ℕ) (s : Ws) (r : Option (List ℕ × List (List ℕ)))
      → After (λ s'. measure s' < measure s) (deliver accept masks room s r)
  deliver_ends room s none = tt
  deliver_ends room s (some (c, cs)) = tt

  inner_less :
      (room : ℕ) (s : Ws) (c : Option Control)
      → s.control ≡ c
      → After (λ s'. measure s' < measure s) (inner_turn accept masks room s c)
  inner_less room s (some c) e = control_less c s e
  inner_less room s none e =
      let P = After (λ s'. measure s' < measure s) in
      if_intro P (ltb 0 s.remaining) _ _
        (λ t.
          if_intro P (ltb 0 (length s.buf)) _ _ (λ u. tt)
            (λ u. deliver_ends room s (receive (min room s.remaining) s.reads)))
        (λ t. open_less s (parse_frame_header s.buf) e refl)

  turn_less : (room : ℕ) (s : Ws) → After (λ s'. measure s' < measure s) (turn accept masks room s)
  unfolding turn
  turn_less room s =
      if_intro (After (λ s'. measure s' < measure s)) s.closed (stop s (got [])) _ (λ t. tt)
        (λ t. inner_less room s s.control refl)

  rounds_end :
      (fuel room : ℕ) (t : Turn)
      → ((s : Ws)
          → measure s < fuel
          → (s' : Ws) × (p : Polled) × (poll_read accept masks fuel room s ≡ some (s', p)))
      → After (λ s'. measure s' < fuel) t
      → (s' : Ws) × (p : Polled) × (elim t [
        | stop s2 q ↦ some (s2, q)
        | again s2 ↦ poll_read accept masks fuel room s2
      ]
          ≡ some (s', p))
  rounds_end fuel room (stop s p) ends h = (s, p, refl)
  rounds_end fuel room (again s) ends h = ends s h

  -- From any state, whatever bytes come and however the writes go, the loop of poll_read ends with
  -- fuel above the measure of the state, which counts the bytes in the buffer twice, those still to
  -- be read three times, and a control frame once.
  pub poll_read_ends :
      (fuel room : ℕ) (s : Ws)
      → measure s < fuel
      → (s' : Ws) × (p : Polled) × (poll_read accept masks fuel room s ≡ some (s', p))
  unfolding poll_read
  poll_read_ends zero room s h = absurd (omega arith)
  poll_read_ends (suc fuel) room s h =
      rounds_end fuel room (turn accept masks room s) (poll_read_ends fuel room)
        (weaken-After (measure s) fuel (turn accept masks room s) (omega arith) (turn_less room s))
