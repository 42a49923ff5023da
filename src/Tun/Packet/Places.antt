-- ===== src/Tun/Packet/Places.antt =====
-- engine/src/inbound/tun/packet.rs: what stands at each place of a segment that has been rewritten.
use aurora_vpn.Prelude.{
  ℕ, zero, suc, ◌+◌, ◌/◌, ◌%◌, ◌^◌, ◌≤◌, ◌<◌, ◌≡◌, ◌∙◌, refl, sym, ap, Bool, true, false, List, [],
  ◌∷◌, arith, length, byte_at, u16_be, to_be, take, drop, put, length-put, nat_eq,
}
use aurora_vpn.Prelude.Put.{take-drop-put, take-drop-put_before, drop-put_after}
use aurora_vpn.Tun.Packet.Rewrite.{
  header_fixed, length-header_fixed, step_check, step_addrs, rewritten,
}

byte_at-put_before :
    (xs : List ℕ) (i j : ℕ) (bs : List ℕ) → i < j → byte_at (put xs j bs) i ≡ byte_at xs i
byte_at-put_before [] i j bs h = refl
byte_at-put_before (x ∷ xs) i zero bs h = absurd (omega arith)
byte_at-put_before (x ∷ xs) zero (suc j) bs h = refl
byte_at-put_before (x ∷ xs) (suc i) (suc j) bs h = byte_at-put_before xs i j bs (omega arith)

byte_at-put_at :
    (xs : List ℕ) (i b : ℕ) (bs : List ℕ) → i < length xs → byte_at (put xs i (b ∷ bs)) i ≡ b
byte_at-put_at [] i b bs h = absurd (omega arith)
byte_at-put_at (x ∷ xs) zero b bs h = refl
byte_at-put_at (x ∷ xs) (suc i) b bs h = byte_at-put_at xs i b bs (omega arith)

byte_at-put_next :
    (xs : List ℕ) (i a b : ℕ) (bs : List ℕ)
    → i + 1 < length xs
    → byte_at (put xs i (a ∷ b ∷ bs)) (i + 1) ≡ b
byte_at-put_next [] i a b bs h = absurd (omega arith)
byte_at-put_next (x ∷ xs) zero a b bs h = byte_at-put_at xs 0 b bs (omega arith)
byte_at-put_next (x ∷ xs) (suc i) a b bs h =
    let e : suc i + 1 ≡ suc (i + 1) = omega arith in
    rw e (byte_at-put_next xs i a b bs (omega arith))

-- The two bytes of a 16-bit number that was written.
word_put :
    (xs : List ℕ) (i v : ℕ)
    → i + 1 < length xs
    → v ≤ 65535
    → u16_be (byte_at (put xs i (to_be 2 v)) i) (byte_at (put xs i (to_be 2 v)) (i + 1)) ≡ v
word_put xs i v h hv =
    let a = byte_at-put_at xs i (v / 256 ^ 1 % 256) ((v / 256 ^ 0 % 256) ∷ []) (omega arith) in
    let b = byte_at-put_next xs i (v / 256 ^ 1 % 256) (v / 256 ^ 0 % 256) [] h in
    omega (arith, a, b)

header_fixed_before :
    (is4 : Bool) (p : List ℕ) (old new j : ℕ)
    → j < 10
    → byte_at (header_fixed is4 p old new) j ≡ byte_at p j
header_fixed_before false p old new j h = refl
header_fixed_before true p old new j h = byte_at-put_before p j 10 _ h

module _ (is4 : Bool) (at_src at_dst len : ℕ) (p : List ℕ) (l4 : ℕ) (src : List ℕ) (sport : ℕ)
    (dst : List ℕ) (dport : ℕ) (order : at_src + len ≤ at_dst) (inside : at_dst + len ≤ l4)
    (fits : l4 + 20 ≤ length p) (ls : length src ≡ len) (ld : length dst ≡ len) (hs : sport ≤ 65535)
    (hd : dport ≤ 65535) where
  unfoldable pub out : List ℕ
  out = rewritten is4 at_src at_dst len p l4 src sport dst dport

  -- The fields of the IP header before the addresses.
  pub byte_kept : (j : ℕ) → j < 10 → j < at_src → byte_at out j ≡ byte_at p j
  unfolding out
  byte_kept j h k =
      byte_at-put_before _ j (l4 + 2) (to_be 2 dport) (omega arith)
      ∙ byte_at-put_before _ j l4 (to_be 2 sport) (omega arith)
      ∙ byte_at-put_before _ j at_dst dst (omega arith)
      ∙ byte_at-put_before _ j at_src src (omega arith)
      ∙ byte_at-put_before _ j (l4 + 16) _ (omega arith)
      ∙ header_fixed_before is4 p _ _ j h

  length-step_check : length (step_check is4 at_src at_dst len p l4 src sport dst dport) ≡ length p
  length-step_check = simp (length-put, length-header_fixed)

  length-step_addrs : length (step_addrs is4 at_src at_dst len p l4 src sport dst dport) ≡ length p
  length-step_addrs = simp (length-put, length-header_fixed)

  pub source : take len (drop at_src out) ≡ src
  unfolding out
  source =
      let check = step_check is4 at_src at_dst len p l4 src sport dst dport in
      take-drop-put_before _ at_src len (l4 + 2) (to_be 2 dport) (omega arith)
      ∙ take-drop-put_before _ at_src len l4 (to_be 2 sport) (omega arith)
      ∙ take-drop-put_before _ at_src len at_dst dst order
      ∙ ap (λ n. take n (drop at_src (put check at_src src))) (sym ls)
      ∙ take-drop-put check at_src src (omega (arith, length-step_check))

  pub destination : take len (drop at_dst out) ≡ dst
  unfolding out
  destination =
      let placed = put (step_check is4 at_src at_dst len p l4 src sport dst dport) at_src src in
      let l = length-put (step_check is4 at_src at_dst len p l4 src sport dst dport) at_src src in
      take-drop-put_before _ at_dst len (l4 + 2) (to_be 2 dport) (omega arith)
      ∙ take-drop-put_before _ at_dst len l4 (to_be 2 sport) (omega arith)
      ∙ ap (λ n. take n (drop at_dst (put placed at_dst dst))) (sym ld)
      ∙ take-drop-put placed at_dst dst (omega (arith, length-step_check))

  pub source_port : u16_be (byte_at out l4) (byte_at out (l4 + 1)) ≡ sport
  unfolding out
  source_port =
      let addrs = step_addrs is4 at_src at_dst len p l4 src sport dst dport in
      let one = put addrs l4 (to_be 2 sport) in
      let a = byte_at-put_before one l4 (l4 + 2) (to_be 2 dport) (omega arith) in
      let b = byte_at-put_before one (l4 + 1) (l4 + 2) (to_be 2 dport) (omega arith) in
      ap (λ x. u16_be x (byte_at out (l4 + 1))) a
      ∙ ap (λ x. u16_be (byte_at one l4) x) b
      ∙ word_put addrs l4 sport (omega (arith, length-step_addrs)) hs

  pub destination_port : u16_be (byte_at out (l4 + 2)) (byte_at out (l4 + 3)) ≡ dport
  unfolding out
  destination_port =
      let one =
        put (step_addrs is4 at_src at_dst len p l4 src sport dst dport) l4 (to_be 2 sport) in
      let l =
        length-put (step_addrs is4 at_src at_dst len p l4 src sport dst dport) l4 (to_be 2 sport) in
      let e : l4 + 3 ≡ l4 + 2 + 1 = omega arith in
      ap (λ k. u16_be (byte_at out (l4 + 2)) (byte_at out k)) e
      ∙ word_put one (l4 + 2) dport (omega (arith, length-step_addrs)) hd

-- What of a TCP segment is neither a port nor the checksum: the numbers, flags and window, and all that
-- is behind the checksum.
abbrev pub IsCarried : List ℕ → List ℕ → ℕ → Type 0
IsCarried p q l4 =
    (take 12 (drop (l4 + 4) q) ≡ take 12 (drop (l4 + 4) p)) × (drop (l4 + 18) q ≡ drop (l4 + 18) p)

header_fixed_behind :
    (is4 : Bool) (p : List ℕ) (old new i : ℕ)
    → 12 ≤ i
    → drop i (header_fixed is4 p old new) ≡ drop i p
header_fixed_behind false p old new i h = refl
header_fixed_behind true p old new i h = drop-put_after p i 10 _ h

module _ (is4 : Bool) (at_src at_dst len : ℕ) (p : List ℕ) (l4 : ℕ) (src : List ℕ) (sport : ℕ)
    (dst : List ℕ) (dport : ℕ) (order : at_src + len ≤ at_dst) (inside : at_dst + len ≤ l4)
    (room : 20 ≤ l4) (ls : length src ≡ len) (ld : length dst ≡ len) where
  -- Behind the ports only the checksum differs.
  drop-out :
      (i : ℕ)
      → l4 + 4 ≤ i
      → drop i (rewritten is4 at_src at_dst len p l4 src sport dst dport)
        ≡ drop i (step_check is4 at_src at_dst len p l4 src sport dst dport)
  drop-out i h =
      drop-put_after _ i (l4 + 2) (to_be 2 dport) (omega arith)
      ∙ drop-put_after _ i l4 (to_be 2 sport) (omega arith)
      ∙ drop-put_after _ i at_dst dst (omega arith)
      ∙ drop-put_after _ i at_src src (omega arith)

  pub rewritten-IsCarried :
      IsCarried p (rewritten is4 at_src at_dst len p l4 src sport dst dport) l4
  rewritten-IsCarried = (
    ap (take 12) (drop-out (l4 + 4) (omega arith))
        ∙ take-drop-put_before _ (l4 + 4) 12 (l4 + 16) _ (omega arith)
        ∙ ap (take 12) (header_fixed_behind is4 p _ _ (l4 + 4) (omega arith)),
    drop-out (l4 + 18) (omega arith)
        ∙ drop-put_after _ (l4 + 18) (l4 + 16) _ (omega arith)
        ∙ header_fixed_behind is4 p _ _ (l4 + 18) (omega arith),
  )
