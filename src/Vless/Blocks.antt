-- ===== src/Vless/Blocks.antt =====
-- engine/src/outbound/vless.rs: what a sender pads is read back.
use aurora_vpn.Prelude.{
  ℕ, ◌-◌, ◌/◌, ◌%◌, ◌^◌, ◌≤◌, ◌<◌, ◌≡◌, refl, sym, ap, ◌∙◌, ◌≢◌, true, List, [], ◌∷◌, ◌++◌,
  append-nil, arith, leb, ◌==◌, length, take, drop, replicate, length-replicate, nat_eq, list_beq,
  list_beq_iff, list_eq, pair_eq, All, to_be, u16_be,
}
use aurora_vpn.Prelude.Slices.{take-length-append}
use aurora_vpn.Vless.{Unpad, new_unpad, opened, behind, feed_loop, feed, block}
use aurora_vpn.Vless.Feed.{feeds, concat, feeds-run, feed_loop-run, run-started, run-short}
use aurora_vpn.Vless.Pieces.{run, run-append, run_content, run_padding, run_tail, run_header}
use aurora_vpn.Prelude.Slices.{split_front}

-- A reader between two blocks, behind one with this command.
abbrev pub between : List ℕ → ℕ → Unpad
between uuid command = record {
  uuid = uuid;
  started = true;
  content = 0;
  padding = 0;
  command = command;
  partial = [];
}

pub run-block :
    (uuid : List ℕ) (last command : ℕ) (bytes : List ℕ) (padding : ℕ)
    → last ≢ 1
    → length bytes < 65536
    → padding < 65536
    → run (block command bytes padding) (between uuid last) ≡ (between uuid command, bytes)
unfolding opened
run-block uuid last command bytes padding h hn hp =
    let n = length bytes in
    let head : List ℕ = command ∷ (to_be 2 n ++ to_be 2 padding) in
    let zeros : List ℕ = replicate padding 0 in
    let u = between uuid last in
    let e1 = run_header head u refl refl h (omega arith) (omega arith) in
    let n1 : u16_be (n / 256 ^ 1 % 256) (n / 256 ^ 0 % 256) ≡ n = omega arith in
    let n2 : u16_be (padding / 256 ^ 1 % 256) (padding / 256 ^ 0 % 256) ≡ padding = omega arith in
    let inside : ℕ → ℕ → Unpad = λ c p. record {
      uuid = uuid;
      started = true;
      content = c;
      padding = p;
      command = command;
      partial = [];
    } in
    let e2 : run head u ≡ (inside n padding, []) =
      e1
      ∙ ap (λ c. (inside c (u16_be (padding / 256 ^ 1 % 256) (padding / 256 ^ 0 % 256)), [])) n1
      ∙ ap (λ p. (inside n p, [])) n2 in
    let e3 = run_content bytes (inside n padding) (omega arith) in
    let z1 : n - n ≡ 0 = omega arith in
    let e4 : run bytes (inside n padding) ≡ (inside 0 padding, bytes) =
      e3 ∙ ap (λ c. (inside c padding, bytes)) z1 in
    let lz = length-replicate {A = ℕ} padding 0 in
    let e5 = run_padding zeros (inside 0 padding) refl (omega arith) in
    let z2 : padding - length zeros ≡ 0 = omega arith in
    let e6 : run zeros (inside 0 padding) ≡ (between uuid command, []) =
      e5 ∙ ap (λ p. (inside 0 p, [])) z2 in
    run-append head (bytes ++ zeros) u
    ∙ ap (λ r. behind r.1 (run (bytes ++ zeros) r.0)) e2
    ∙ ap (behind []) (
        run-append bytes zeros (inside n padding)
        ∙ ap (λ r. behind r.1 (run zeros r.0)) e4
        ∙ ap (behind bytes) e6)
    ∙ ap (λ o. (between uuid command, o)) (append-nil bytes)

-- Blocks that more blocks follow, each with its data and the size of its padding.
abbrev pub blocks : List (List ℕ × ℕ) → List ℕ
blocks [] = []
blocks ((bytes, padding) ∷ bs) = block 0 bytes padding ++ blocks bs

abbrev pub texts : List (List ℕ × ℕ) → List ℕ
texts [] = []
texts ((bytes, padding) ∷ bs) = bytes ++ texts bs

-- Both sizes are 16-bit numbers.
abbrev pub IsBlock : List ℕ × ℕ → Type 0
IsBlock (bytes, padding) = (length bytes < 65536) × (padding < 65536)

run-blocks :
    (uuid : List ℕ) (bs : List (List ℕ × ℕ))
    → All IsBlock bs
    → run (blocks bs) (between uuid 0) ≡ (between uuid 0, texts bs)
unfolding run
run-blocks uuid [] h = refl
run-blocks uuid ((bytes, padding) ∷ bs) ((h1, h2), h) =
    run-append (block 0 bytes padding) (blocks bs) (between uuid 0)
    ∙ ap (λ r. behind r.1 (run (blocks bs) r.0))
        (run-block uuid 0 0 bytes padding (λ q. omega arith) h1 h2)
    ∙ ap (behind bytes) (run-blocks uuid bs h)

-- The last block, and what follows it without padding.
run_stream :
    (uuid : List ℕ) (bs : List (List ℕ × ℕ)) (bytes : List ℕ) (padding : ℕ) (tail : List ℕ)
    → All IsBlock bs
    → IsBlock (bytes, padding)
    → run (blocks bs ++ (block 1 bytes padding ++ tail)) (between uuid 0)
      ≡ (between uuid 1, texts bs ++ (bytes ++ tail))
run_stream uuid bs bytes padding tail h (h1, h2) =
    run-append (blocks bs) (block 1 bytes padding ++ tail) (between uuid 0)
    ∙ ap (λ r. behind r.1 (run (block 1 bytes padding ++ tail) r.0)) (run-blocks uuid bs h)
    ∙ ap (behind (texts bs)) (
        run-append (block 1 bytes padding) tail (between uuid 0)
        ∙ ap (λ r. behind r.1 (run tail r.0))
            (run-block uuid 0 1 bytes padding (λ q. omega arith) h1 h2)
        ∙ ap (behind bytes) (run_tail tail (between uuid 1) refl refl refl))

-- The first chunk begins with the identifier.
feed_first :
    (uuid first x y : List ℕ)
    → length uuid ≡ 16
    → 21 ≤ length first
    → first ++ y ≡ uuid ++ x
    → (rest : List ℕ) × (feed first (new_unpad uuid) ≡ run rest (between uuid 0)) × (rest ++ y ≡ x)
unfolding feed
feed_first uuid first x y hu hf e =
    let (e1, e2) = split_front uuid x first y (sym e) (omega arith) in
    let rest = drop (length uuid) first in
    let same16 : rest ≡ drop 16 first = ap (λ k. drop k first) hu in
    let front : take 16 first ≡ uuid =
      ap (take 16) (sym e1)
      ∙ ap (λ k. take k (uuid ++ rest)) (sym hu)
      ∙ take-length-append uuid rest in
    let t1 : leb 21 (length first) ≡ true = ground arith in
    let t2 : list_beq ◌==◌ (take 16 first) uuid ≡ true =
      (list_beq_iff nat_eq (take 16 first) uuid).1 front in
    let found : feed first (new_unpad uuid)
        ≡ feed_loop (length (drop 16 first)) (drop 16 first) (between uuid 0) =
      rw (feed, t1, t2) refl in
    (
      rest,
      found
          ∙ feed_loop-run (length (drop 16 first)) (drop 16 first) (between uuid 0) (omega arith)
              (omega arith)
          ∙ ap (λ r. run r (between uuid 0)) (sym same16),
      sym e2,
    )

-- A new reader of an identifier of 16 bytes, given that identifier, blocks with data and padding of
-- 16-bit sizes, of which the last has the command END, and any bytes behind them, puts out the data
-- of all blocks and the bytes behind the last, for every cut into chunks of which the first has at
-- least 21 bytes.
pub feeds-blocks :
    (uuid first : List ℕ) (cs : List (List ℕ)) (bs : List (List ℕ × ℕ)) (bytes : List ℕ)
    (padding : ℕ) (tail : List ℕ)
    → length uuid ≡ 16
    → 21 ≤ length first
    → All IsBlock bs
    → IsBlock (bytes, padding)
    → first ++ concat cs ≡ uuid ++ (blocks bs ++ (block 1 bytes padding ++ tail))
    → (feeds (first ∷ cs) (new_unpad uuid)).1 ≡ texts bs ++ (bytes ++ tail)
unfolding feeds
feeds-blocks uuid first cs bs bytes padding tail hu hf h hb e =
    let (rest, e1, e2) =
      feed_first uuid first (blocks bs ++ (block 1 bytes padding ++ tail)) (concat cs) hu hf e in
    let u = between uuid 0 in
    let later = feeds-run cs (run rest u).0 (run-started rest u) (run-short rest u (omega arith)) in
    let whole : feeds (first ∷ cs) (new_unpad uuid) ≡ run (rest ++ concat cs) u =
      ap (λ r. behind r.1 (feeds cs r.0)) e1
      ∙ ap (behind (run rest u).1) later
      ∙ sym (run-append rest (concat cs) u) in
    ap (λ r. r.1) (whole ∙ ap (λ b. run b u) e2 ∙ run_stream uuid bs bytes padding tail h hb)
