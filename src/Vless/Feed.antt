-- ===== src/Vless/Feed.antt =====
-- engine/src/outbound/vless.rs: the padding is taken off byte by byte, whatever the cut of the bytes.
use aurora_vpn.Prelude.{
  ℕ, zero, suc, ◌-◌, ◌≤◌, ◌<◌, min, ◌≡◌, refl, sym, ap, ◌∙◌, inl, inr, true, ◌&&◌, List, [], ◌∷◌,
  ◌++◌, arith, ltb, ◌==◌, Bool-cases, length, take, drop, length-append, length-drop, nat_eq,
  list_eq, pair_eq, if_intro,
}
use aurora_vpn.Vless.{Unpad, opened, behind, feed_loop, feed}
use aurora_vpn.Vless.Pieces.{
  byte, run, run-append, run_content, run_padding, run_tail, run_header, opened-short, take_exact,
  run_piece, behind_nil, run-nil,
}

-- On fuel of at least the number of bytes, and with fewer than five bytes of a header gathered, the
-- loop of feed, which takes whole pieces of headers, data and padding, gives the state and the
-- output of the automaton that takes one byte at a time.
pub feed_loop-run :
    (fuel : ℕ) (bytes : List ℕ) (u : Unpad)
    → length bytes ≤ fuel
    → length u.partial < 5
    → feed_loop fuel bytes u ≡ run bytes u
unfolding feed_loop
feed_loop-run zero [] u h s = sym (run-nil u)
feed_loop-run zero (b ∷ bytes) u h s = absurd (omega arith)
feed_loop-run (suc fuel) [] u h s = sym (run-nil u)
feed_loop-run (suc fuel) (b ∷ rest) u h s =
    let bytes : List ℕ = b ∷ rest in
    elim (Bool-cases (u.content == 0 && u.padding == 0)) [
      | inl t ↦ elim (Bool-cases (u.command == 1)) [
        | inl y ↦
            rw (feed_loop, t, y)
              (sym (run_tail bytes u (ground arith) (ground arith) (ground arith)))
        | inr y ↦
            (let k = min (5 - length u.partial) (length bytes) in
              let lk = take_exact k bytes (omega arith) in
              let p = u.partial ++ take k bytes in
              let lp = length-append u.partial (take k bytes) in
              let ld = length-drop k bytes in
              let piece =
                run_header (take k bytes) u (ground arith) (ground arith) (λ q. ground arith) s
                  (omega arith) in
              let ih =
                feed_loop-run fuel (drop k bytes) (opened u p) (omega arith)
                  (opened-short u p (omega arith)) in
              rw (feed_loop, t, y)
                (ih
                  ∙ sym (
                      run_piece k bytes u (opened u p) [] piece
                      ∙ behind_nil (run (drop k bytes) (opened u p)))))
      ]
      | inr t ↦ elim (Bool-cases (ltb 0 u.content)) [
        | inl y ↦
            (let n = min u.content (length bytes) in
              let ln = take_exact n bytes (omega arith) in
              let ld = length-drop n bytes in
              let v : Unpad = record u { content = u.content - n } in
              let full = run_content (take n bytes) u (omega arith) in
              let piece =
                full ∙ ap (λ c. (record u { content = u.content - c }, take n bytes)) ln in
              let ih = feed_loop-run fuel (drop n bytes) v (ground arith) s in
              rw (feed_loop, t, y)
                (ap (behind (take n bytes)) ih ∙ sym (run_piece n bytes u v (take n bytes) piece)))
        | inr y ↦
            (let m = min u.padding (length bytes) in
              let lm = take_exact m bytes (omega arith) in
              let ld = length-drop m bytes in
              let v : Unpad = record u { padding = u.padding - m } in
              let full = run_padding (take m bytes) u (ground arith) (omega arith) in
              let piece = full ∙ ap (λ c. (record u { padding = u.padding - c }, [])) lm in
              let ih = feed_loop-run fuel (drop m bytes) v (ground arith) s in
              rw (feed_loop, t, y)
                (ih ∙ sym (run_piece m bytes u v [] piece ∙ behind_nil (run (drop m bytes) v))))
      ]
    ]

byte-short : (b : ℕ) (u : Unpad) → length u.partial < 5 → length (byte b u).0.partial < 5
unfolding byte
byte-short b u s =
    let l = length-append u.partial (b ∷ []) in
    let P : Unpad × List ℕ → Type 0 = λ r. length r.0.partial < 5 in
    if_intro P (u.content == 0 && u.padding == 0) _ _
      (λ t.
        if_intro P (u.command == 1) _ _ (λ y. s)
          (λ y. opened-short u (u.partial ++ (b ∷ [])) (omega arith)))
      (λ t. if_intro P (ltb 0 u.content) _ _ (λ y. s) (λ y. s))

pub byte-started : (b : ℕ) (u : Unpad) → (byte b u).0.started ≡ u.started
unfolding byte opened
byte-started b u = ground arith

pub run-short : (a : List ℕ) (u : Unpad) → length u.partial < 5 → length (run a u).0.partial < 5
unfolding run
run-short [] u s = s
run-short (b ∷ a) u s = run-short a (byte b u).0 (byte-short b u s)

pub run-started : (a : List ℕ) (u : Unpad) → (run a u).0.started ≡ u.started
unfolding run
run-started [] u = refl
run-started (b ∷ a) u = run-started a (byte b u).0 ∙ byte-started b u

-- The reader over the chunks that arrive.
unfoldable pub feeds : List (List ℕ) → Unpad → Unpad × List ℕ
unfolding feed
feeds [] u = (u, [])
feeds (c ∷ cs) u = behind (feed c u).1 (feeds cs (feed c u).0)

abbrev pub concat : List (List ℕ) → List ℕ
concat [] = []
concat (c ∷ cs) = c ++ concat cs

-- Once it has found the identifier, the reader gives the same bytes for every cut of what arrives.
pub feeds-run :
    (cs : List (List ℕ)) (u : Unpad)
    → u.started ≡ true
    → length u.partial < 5
    → feeds cs u ≡ run (concat cs) u
unfolding feeds feed
feeds-run [] u on s = sym (run-nil u)
feeds-run (c ∷ cs) u on s =
    let first : feed c u ≡ run c u =
      if_intro (λ r. r ≡ run c u) u.started _ _ (λ t. feed_loop-run (length c) c u (omega arith) s)
        (λ t. absurd (cc)) in
    let ih = feeds-run cs (run c u).0 (run-started c u ∙ on) (run-short c u s) in
    ap (λ r. behind r.1 (feeds cs r.0)) first
    ∙ ap (behind (run c u).1) ih
    ∙ sym (run-append c (concat cs) u)
