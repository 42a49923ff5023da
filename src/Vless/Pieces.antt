-- ===== src/Vless/Pieces.antt =====
-- engine/src/outbound/vless.rs: what a run of bytes inside one piece of a block does to the reader.
use aurora_vpn.Prelude.{
  ℕ, suc, ◌+◌, ◌-◌, ◌≤◌, ◌<◌, ◌≡◌, refl, sym, ap, ◌∙◌, ◌≢◌, inl, inr, true, false, ◌&&◌, List, [],
  ◌∷◌, ◌++◌, append_assoc, append-nil, arith, ltb, ◌==◌, if◌then◌else◌, Bool-cases, length, take,
  drop, length-append, length-take, take-append-drop, nat_eq, list_eq, pair_eq,
}
use aurora_vpn.Vless.{Unpad, opened, behind}

-- What one byte does to a reader that has found the identifier.
unfoldable pub byte : ℕ → Unpad → Unpad × List ℕ
unfolding opened
byte b u =
    if u.content == 0 && u.padding == 0
    then (if u.command == 1 then (u, b ∷ []) else (opened u (u.partial ++ (b ∷ [])), []))
    else if ltb 0 u.content
    then (record u { content = u.content - 1 }, b ∷ [])
    else (record u { padding = u.padding - 1 }, [])

unfoldable pub run : List ℕ → Unpad → Unpad × List ℕ
unfolding byte
run [] u = (u, [])
run (b ∷ bytes) u = behind (byte b u).1 (run bytes (byte b u).0)

behind_twice : (a b : List ℕ) (r : Unpad × List ℕ) → behind a (behind b r) ≡ behind (a ++ b) r
behind_twice a b (u, out) = ap (λ o. (u, o)) (sym (append_assoc a b out))

pub run-append :
    (a b : List ℕ) (u : Unpad) → run (a ++ b) u ≡ behind (run a u).1 (run b (run a u).0)
unfolding run
run-append [] b u = refl
run-append (c ∷ a) b u =
    ap (behind (byte c u).1) (run-append a b (byte c u).0)
    ∙ behind_twice (byte c u).1 (run a (byte c u).0).1 (run b (run a (byte c u).0).0)

pub run_content :
    (a : List ℕ) (u : Unpad)
    → length a ≤ u.content
    → run a u ≡ (record u { content = u.content - length a }, a)
unfolding run
run_content [] u h =
    let e : u.content - 0 ≡ u.content = omega arith in
    ap (λ c. (record u { content = c }, [])) (sym e)
run_content (b ∷ a) u h =
    let t1 : (u.content == 0 && u.padding == 0) ≡ false = ground arith in
    let t2 : ltb 0 u.content ≡ true = ground arith in
    let here : byte b u ≡ (record u { content = u.content - 1 }, b ∷ []) = rw (byte, t1, t2) refl in
    let ih = run_content a (record u { content = u.content - 1 }) (omega arith) in
    let e : u.content - 1 - length a ≡ u.content - suc (length a) = omega arith in
    ap (λ r. behind r.1 (run a r.0)) here
    ∙ ap (behind (b ∷ [])) ih
    ∙ ap (λ c. (record u { content = c }, b ∷ a)) e

pub run_padding :
    (a : List ℕ) (u : Unpad)
    → u.content ≡ 0
    → length a ≤ u.padding
    → run a u ≡ (record u { padding = u.padding - length a }, [])
unfolding run
run_padding [] u z h =
    let e : u.padding - 0 ≡ u.padding = omega arith in
    ap (λ c. (record u { padding = c }, [])) (sym e)
run_padding (b ∷ a) u z h =
    let t1 : (u.content == 0 && u.padding == 0) ≡ false = ground arith in
    let t2 : ltb 0 u.content ≡ false = ground arith in
    let here : byte b u ≡ (record u { padding = u.padding - 1 }, []) = rw (byte, t1, t2) refl in
    let ih = run_padding a (record u { padding = u.padding - 1 }) z (omega arith) in
    let e : u.padding - 1 - length a ≡ u.padding - suc (length a) = omega arith in
    ap (λ r. behind r.1 (run a r.0)) here
    ∙ ap (behind []) ih
    ∙ ap (λ c. (record u { padding = c }, [])) e

pub run_tail :
    (a : List ℕ) (u : Unpad) → u.content ≡ 0 → u.padding ≡ 0 → u.command ≡ 1 → run a u ≡ (u, a)
unfolding run
run_tail [] u z y c = refl
run_tail (b ∷ a) u z y c =
    let t1 : (u.content == 0 && u.padding == 0) ≡ true = ground arith in
    let t2 : (u.command == 1) ≡ true = ground arith in
    let here : byte b u ≡ (u, b ∷ []) = rw (byte, t1, t2) refl in
    ap (λ r. behind r.1 (run a r.0)) here ∙ ap (behind (b ∷ [])) (run_tail a u z y c)

opened_short : (u : Unpad) (p : List ℕ) → length p < 5 → opened u p ≡ record u { partial = p }
unfolding opened
opened_short u p h = let t : (length p == 5) ≡ false = ground arith in rw t refl

length-zero : (a : List ℕ) → length a ≡ 0 → a ≡ []
length-zero [] h = refl
length-zero (x ∷ a) h = absurd (omega arith)

opened_partial : (u : Unpad) (p q : List ℕ) → opened (record u { partial = p }) q ≡ opened u q
unfolding opened
opened_partial u p q = refl

-- Between blocks the reader gathers the next header.
pub run_header :
    (a : List ℕ) (u : Unpad)
    → u.content ≡ 0
    → u.padding ≡ 0
    → u.command ≢ 1
    → length u.partial < 5
    → length u.partial + length a ≤ 5
    → run a u ≡ (opened u (u.partial ++ a), [])
unfolding run
run_header [] u z y c s h =
    ap (λ p. (p, [])) (sym (ap (opened u) (append-nil u.partial) ∙ opened_short u u.partial s))
run_header (b ∷ a) u z y c s h =
    let t1 : (u.content == 0 && u.padding == 0) ≡ true = ground arith in
    let t2 : (u.command == 1) ≡ false = ground arith in
    let p = u.partial ++ (b ∷ []) in
    let l = length-append u.partial (b ∷ []) in
    let whole : p ++ a ≡ u.partial ++ (b ∷ a) = append_assoc u.partial (b ∷ []) a in
    let here : byte b u ≡ (opened u p, []) = rw (byte, t1, t2) refl in
    let first = ap (λ r. behind r.1 (run a r.0)) here in
    elim (Bool-cases (ltb (length p) 5)) [
      | inl t ↦
          (let u' : Unpad = record u { partial = p } in
            let e = opened_short u p (ground arith) in
            let ih = run_header a u' z y c (ground arith) (omega arith) in
            first
            ∙ ap (λ v. behind [] (run a v)) e
            ∙ ap (behind []) ih
            ∙ ap (λ v. (v, [])) (opened_partial u p (p ++ a))
            ∙ ap (λ q. (opened u q, [])) whole)
      | inr t ↦
          (let none_left = length-zero a (ground arith) in
            first
            ∙ ap (λ x. behind [] (run x (opened u p))) none_left
            ∙ ap (λ x. (opened u (u.partial ++ (b ∷ x)), [])) (sym none_left))
    ]

pub opened-short : (u : Unpad) (p : List ℕ) → length p ≤ 5 → length (opened u p).partial < 5
unfolding opened
opened-short u p h = elim (Bool-cases (length p == 5)) [
  | inl t ↦ rw t (omega arith)
  | inr t ↦ rw t (ground arith)
]

pub take_exact : (n : ℕ) (a : List ℕ) → n ≤ length a → length (take n a) ≡ n
take_exact n a h = let l = length-take n a in omega arith

-- A piece that the loop takes at once is taken byte by byte too.
pub run_piece :
    (n : ℕ) (a : List ℕ) (u v : Unpad) (out : List ℕ)
    → run (take n a) u ≡ (v, out)
    → run a u ≡ behind out (run (drop n a) v)
run_piece n a u v out e =
    ap (λ x. run x u) (sym (take-append-drop n a))
    ∙ run-append (take n a) (drop n a) u
    ∙ ap (λ r. behind r.1 (run (drop n a) r.0)) e

pub behind_nil : (r : Unpad × List ℕ) → behind [] r ≡ r
behind_nil (u, out) = refl

pub run-nil : (u : Unpad) → run [] u ≡ (u, [])
unfolding run
run-nil u = refl
