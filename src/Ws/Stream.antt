-- ===== src/Ws/Stream.antt =====
-- engine/src/transport/ws.rs: what the reader of the stream gets is what the frames carry.
use aurora_vpn.Prelude.{
  ℕ, ◌-◌, ◌^◌, ◌≤◌, ◌<◌, ◌≡◌, refl, sym, ap, ◌∙◌, ◌⊎◌, inl, inr, false, Option, none, some, List,
  [], ◌∷◌, ◌++◌, append_assoc, arith, leb, if◌then◌else◌, length, take, drop, length-take,
  take-append-drop, nat_eq, list_eq, pair_eq, All,
}
use aurora_vpn.Prelude.Slices.{split_front}
use aurora_vpn.Ws.{
  Control, Ws, Polled, pending, failed, got, Turn, again, stop, receive, filled, fill,
}
use aurora_vpn.Ws.Frames.{plain_head}
use aurora_vpn.Ws.Turns.{flat, receive_flat}

-- A frame that a server sends.
pub record Frame : Type 0 where
  pub kind : ℕ
  pub payload : List ℕ

-- A piece of data, a ping or a pong.
abbrev pub IsFrame : Frame → Type 0
IsFrame f =
    ((f.kind ≤ 2) × (length f.payload < 2 ^ 64))
    ⊎ ((8 < f.kind) × (f.kind ≤ 10) × (length f.payload ≤ 125))

abbrev pub wire : List Frame → List ℕ
wire [] = []
wire (f ∷ fs) = plain_head f.kind (length f.payload) ++ (f.payload ++ wire fs)

-- The data that the frames carry.
abbrev pub body : List Frame → List ℕ
body [] = []
body (f ∷ fs) = (if leb f.kind 2 then f.payload else []) ++ body fs

-- Where the stream stands: before `d`, the rest of a piece of data, and the frames `fs`.
abbrev pub At : Option Control → Ws → List ℕ → List Frame → Type 0
At none s d fs = (s.remaining ≡ length d) × (s.buf ++ flat s.reads ≡ d ++ wire fs)
At (some c) s d fs =
    (d ≡ [])
    × (s.remaining ≡ 0)
    × (8 < c.opcode)
    × (rest : List ℕ) × (length rest ≡ c.need)
    × (s.buf ++ flat s.reads ≡ rest ++ wire fs)

abbrev pub Inside : Ws → List ℕ → List Frame → Type 0
Inside s d fs = (s.closed ≡ false) × All IsFrame fs × At s.control s d fs

-- The stream stands somewhere where `text` is what it still has for its reader.
abbrev pub Has : Ws → List ℕ → Type 0
Has s text = (d : List ℕ) × (fs : List Frame) × Inside s d fs × (d ++ body fs ≡ text)

-- What a reader gets is the front of `text`, and the stream has the rest.
abbrev pub Gets : List ℕ → Ws → Polled → Type 0
Gets text s pending = Has s text
Gets text s failed = ⊥
Gets text s (got bytes) = (rest : List ℕ) × Has s rest × (bytes ++ rest ≡ text)

abbrev pub Good : List ℕ → Turn → Type 0
Good text (again s) = Has s text
Good text (stop s p) = Gets text s p

pub same-At :
    (c : Option Control) (s s' : Ws) (d : List ℕ) (fs : List Frame)
    → s'.remaining ≡ s.remaining
    → s'.buf ++ flat s'.reads ≡ s.buf ++ flat s.reads
    → At c s d fs
    → At c s' d fs
same-At none s s' d fs er eb (h1, h2) = (er ∙ h1, eb ∙ h2)
same-At (some c) s s' d fs er eb (h1, h2, h3, rest, h4, h5) = (h1, er ∙ h2, h3, rest, h4, eb ∙ h5)

filled-Good :
    (s : Ws) (c : List ℕ) (cs : List (List ℕ)) (d : List ℕ) (fs : List Frame)
    → c ++ flat cs ≡ flat s.reads
    → Inside s d fs
    → Good (d ++ body fs) (filled s (some (c, cs)))
filled-Good s [] cs d fs e (o, v, at) =
    let s' : Ws = record s { reads = cs } in
    (
      d ++ body fs,
      (d, fs, (o, v, same-At s.control s s' d fs refl (ap (λ r. s.buf ++ r) e) at), refl),
      refl,
    )
filled-Good s (b ∷ c) cs d fs e (o, v, at) =
    let s' : Ws = record s { reads = cs; buf = s.buf ++ (b ∷ c) } in
    (
      d,
      fs,
      (
        o,
        v,
        same-At s.control s s' d fs refl
            (append_assoc s.buf (b ∷ c) (flat cs) ∙ ap (λ r. s.buf ++ r) e) at,
      ),
      refl,
    )

receive-Good :
    (s : Ws) (k : ℕ) (reads : List (List ℕ)) (d : List ℕ) (fs : List Frame)
    → reads ≡ s.reads
    → Inside s d fs
    → Good (d ++ body fs) (filled s (receive k reads))
receive-Good s k [] d fs e i = (d, fs, i, refl)
receive-Good s k (c ∷ cs) d fs e i =
    filled-Good s (take k c) (if leb (length c) k then cs else drop k c ∷ cs) d fs
      (receive_flat k c cs ∙ ap flat e) i

pub fill-Good :
    (s : Ws) (d : List ℕ) (fs : List Frame) → Inside s d fs → Good (d ++ body fs) (fill s)
fill-Good s d fs i = receive-Good s (16384 - length s.buf) s.reads d fs refl i

pub length-zero : (d : List ℕ) → length d ≡ 0 → d ≡ []
length-zero [] h = refl
length-zero (x ∷ d) h = absurd (omega arith)

take_exact : (n : ℕ) (xs : List ℕ) → n ≤ length xs → length (take n xs) ≡ n
take_exact n xs h = let l = length-take n xs in omega arith

-- The first `n` bytes of what waits, where they are in the buffer and before the end of `d`.
pub take_front :
    (s : Ws) (n : ℕ) (d y : List ℕ)
    → s.buf ++ flat s.reads ≡ d ++ y
    → n ≤ length s.buf
    → n ≤ length d
    → (take n s.buf ++ drop n d ≡ d) × (drop n s.buf ++ flat s.reads ≡ drop n d ++ y)
take_front s n d y e hb hd =
    let whole =
      sym (append_assoc (take n s.buf) (drop n s.buf) (flat s.reads))
      ∙ ap (λ r. r ++ flat s.reads) (take-append-drop n s.buf)
      ∙ e in
    let l = take_exact n s.buf hb in
    let r = split_front (take n s.buf) (drop n s.buf ++ flat s.reads) d y whole (omega arith) in
    rw l at r

-- What waits behind the header of the next frame, or that the header is not there yet.
pub header_front :
    (p tail hd rest : List ℕ)
    → p ++ tail ≡ hd ++ rest
    → ((length p < length hd) × (p ≡ take (length p) hd))
      ⊎ ((x : List ℕ) × (p ≡ hd ++ x) × (x ++ tail ≡ rest))
header_front p tail [] rest e = inr (p, refl, e)
header_front [] tail (h ∷ hd) rest e = inl (omega arith, refl)
header_front (b ∷ p) tail (h ∷ hd) rest e = elim (header_front p tail hd rest (cc)) [
  | inl (l, q) ↦ (let same : b ≡ h = cc in inl (omega arith, rw same (ap (λ r. h ∷ r) q)))
  | inr (x, q, t) ↦ (let same : b ≡ h = cc in inr (x, rw same (ap (λ r. h ∷ r) q), t))
]
